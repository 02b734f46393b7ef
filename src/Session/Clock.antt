-- ===== src/Session/Clock.antt =====
-- platform/crates/domain/src/lib.rs, the time that a phase has left. Instants are nanoseconds; the
-- casts and the product are those of an `i32`, which wrap.
pub mod Remaining
use dragon_shift.Common.{ℕ, ◌-◌, ◌*◌, ◌/◌, ◌+◌, Option, none, some, if◌then◌else◌, leb, Bool}
use dragon_shift.Common.I32.{ℤ, pos, negsuc, pos_part, neg_part, wrap, sub_ℕ, scale}
use dragon_shift.Protocol.{Phase, WorkshopCreateConfig}
use dragon_shift.Session.{WorkshopSession}

unfoldable pub phase_duration_minutes : WorkshopCreateConfig → Phase → ℕ
phase_duration_minutes config Phase.phase1 = config.phase1_minutes
phase_duration_minutes config Phase.handover = config.phase2_minutes
phase_duration_minutes config Phase.phase2 = config.phase2_minutes
phase_duration_minutes config _ = 0

-- `(now - phase_started_at).num_seconds().max(0) as i32`
unfoldable pub elapsed_phase_seconds : ℕ → WorkshopSession → ℤ
elapsed_phase_seconds now s = wrap (pos ((now - s.phase_started_at) / 1000000000))

-- `phase_duration_minutes(phase) as i32 * 60`
unfoldable pub duration_seconds : WorkshopSession → ℤ
unfolding phase_duration_minutes
duration_seconds s = wrap (scale 60 (wrap (pos (phase_duration_minutes s.config s.phase))))

abbrev pub difference : ℤ → ℤ → ℤ
difference a b = wrap (sub_ℕ (pos_part a + neg_part b) (neg_part a + pos_part b))

-- The seconds that the phase has left; none in a phase without a limit.
unfoldable pub remaining_phase_seconds : ℕ → WorkshopSession → Option ℕ
remaining_phase_seconds now s =
    let total = duration_seconds s in
    if leb (pos_part total) 0
    then none
    else some (pos_part (difference total (elapsed_phase_seconds now s)))

-- ===== src/Session/Clock/Remaining.antt =====
-- How long a phase lasts, where its limit fits the clock's 32 bits.
use dragon_shift.Common.{ℕ, ◌-◌, ◌*◌, ◌/◌, ◌≤◌, ◌<◌, ◌≡◌, none, some, arith, if◌then◌else◌, leb}
use dragon_shift.Common.I32.{pos, pos_part, wrap, wrap-pos, half_range, scale}
use dragon_shift.Session.{WorkshopSession}
use dragon_shift.Session.Clock.{
  phase_duration_minutes, elapsed_phase_seconds, duration_seconds, difference,
  remaining_phase_seconds,
}

-- The largest limit, in minutes, whose seconds fit an i32.
abbrev pub longest_minutes : ℕ
longest_minutes = 35791394

scaled : (m : ℕ) → m ≤ longest_minutes → wrap (scale 60 (wrap (pos m))) ≡ pos (m * 60)
scaled m h = rw (wrap-pos m (omega arith)) (wrap-pos (m * 60) (omega arith))

duration_lem :
    (s : WorkshopSession)
    → phase_duration_minutes s.config s.phase ≤ longest_minutes
    → duration_seconds s ≡ pos (phase_duration_minutes s.config s.phase * 60)
unfolding duration_seconds
duration_lem s h = scaled (phase_duration_minutes s.config s.phase) h

difference_lem :
    (a b : ℕ) → a < half_range → b < half_range → pos_part (difference (pos a) (pos b)) ≡ a - b
unfolding wrap
difference_lem a b h k = ground arith

-- Where the phase's limit is at most 35,791,394 minutes and it began less than 2^31 seconds ago:
-- a phase without a limit has no remaining time, and in any other the seconds left are the limit
-- less the seconds gone, and 0 from the limit on.
pub remaining_exact :
    (now : ℕ) (s : WorkshopSession)
    → phase_duration_minutes s.config s.phase ≤ longest_minutes
    → (now - s.phase_started_at) / 1000000000 < half_range
    → let minutes = phase_duration_minutes s.config s.phase in
      remaining_phase_seconds now s ≡ (
        if leb minutes 0
        then none
        else some (minutes * 60 - (now - s.phase_started_at) / 1000000000))
unfolding remaining_phase_seconds elapsed_phase_seconds
remaining_exact now s h k =
    rw (duration_lem s h, wrap-pos ((now - s.phase_started_at) / 1000000000) k)
      (ground (
        arith,
        difference_lem (phase_duration_minutes s.config s.phase * 60)
            ((now - s.phase_started_at) / 1000000000),
      ))

-- ===== src/Server/Deadlines/Progress.antt =====
-- That a phase whose time is up is ended by `advance_overdue_phase` of platform/app-server/src/ws.rs.
use dragon_shift.Common.{
  ℕ, ◌≡◌, ◌↔◌, ◌⊎◌, inl, inr, refl, sym, ap, subst, String, true, false, Option, none, some,
  some_inj, if_split,
}
use dragon_shift.Protocol.{Phase}
use dragon_shift.Session.{WorkshopSession, Result, ok, err, is_ok, transition_to, can_transition}
use dragon_shift.Session.Clock.{remaining_phase_seconds}
use dragon_shift.Session.Handover.{enter_phase2_after_deadline}
use dragon_shift.Session.Handover.Notes.{enter_phase2_after_deadline_ok}
use dragon_shift.Session.Play.{award_phase_end_achievements}
use dragon_shift.Session.Voting.{enter_voting, open_voting}
use dragon_shift.Session.Invariant.{IsValid}
use dragon_shift.Workshop.{begins_handover, enters_phase2_late, awards, enters_voting, exec}
use dragon_shift.Workshop.Reach.{exec-IsValid}
use dragon_shift.Server.{SessionArtifactRecord}
use dragon_shift.Server.Handler.{WriteFate, lease_lost, save_failed, saved}
use dragon_shift.Server.Deadlines.{
  AdvanceEffects, stays, advanced, settled, advance_from, is_time_up, auto_artifact, judge_after,
  store_advance, finish_advance, advance_overdue_phase,
}

-- The phases that end by themselves, and what comes next.
pub data Timed : Phase → Phase → Type 0 where
  discovery : Timed Phase.phase1 Phase.handover
  notes : Timed Phase.handover Phase.phase2
  care : Timed Phase.phase2 Phase.voting

-- For whom the judge is to run when a phase ends: after Phase 2 for the host, or for the server.
abbrev pub JudgesFor : Phase → Option String → String → Type 0
JudgesFor p host id = (p ≡ Phase.phase2) × ((host ≡ some id) ⊎ ((host ≡ none) × (id ≡ "server")))

settled-ok {ℓ} :
    {A : Type ℓ} (q : Phase) (s : WorkshopSession) (r : WorkshopSession × Result A)
    → is_ok r.1 ≡ true
    → r.0.phase ≡ q
    → (IsValid s → IsValid r.0)
    → (t : WorkshopSession) × (settled r ≡ advanced t) × (t.phase ≡ q) × (IsValid s → IsValid t)
settled-ok q s (t, ok a) fine at valid = (t, refl, at, valid)
settled-ok q s (t, err e) fine at valid = absurd cc

handover_begins :
    (now : ℕ) (s : WorkshopSession)
    → s.phase ≡ Phase.phase1
    → let r = transition_to now Phase.handover s in
      (is_ok r.1 ≡ true) × (r.0.phase ≡ Phase.handover)
unfolding transition_to can_transition
handover_begins now s e = rw e (refl, refl)

voting_begins :
    (now : ℕ) (s : WorkshopSession)
    → s.phase ≡ Phase.phase2
    → let r = enter_voting now s in (is_ok r.1 ≡ true) × (r.0.phase ≡ Phase.voting)
unfolding enter_voting open_voting transition_to can_transition
voting_begins now s e = rw e (refl, refl)

advance_from-advanced :
    {p q : Phase} (now : ℕ) (s : WorkshopSession)
    → Timed p q
    → s.phase ≡ p
    → (t : WorkshopSession) × (advance_from p now s ≡ advanced t)
      × (t.phase ≡ q)
      × (IsValid s → IsValid t)
unfolding advance_from award_phase_end_achievements exec
advance_from-advanced now s discovery e =
    let (fine, at) = handover_begins now s e in
    settled-ok Phase.handover s (transition_to now Phase.handover s) fine at
      (exec-IsValid now begins_handover s)
advance_from-advanced now s notes e =
    let (fine, at) = enter_phase2_after_deadline_ok now s e in
    settled-ok Phase.phase2 s (enter_phase2_after_deadline now s) fine at
      (exec-IsValid now enters_phase2_late s)
advance_from-advanced now s care e =
    let u = (award_phase_end_achievements now s).0 in
    let (fine, at) = voting_begins now u e in
    settled-ok Phase.voting s (enter_voting now u) fine at
      (λ v. exec-IsValid now enters_voting u (exec-IsValid now awards s v))

judged_after :
    {p q : Phase} (host : Option String) (id : String)
    → Timed p q
    → (judge_after p host ≡ some id) ↔ JudgesFor p host id
judged_after host id discovery = (λ h. cc, λ h. cc)
judged_after host id notes = (λ h. cc, λ h. cc)
judged_after none id care = (
  λ h. (refl, inr (refl, sym (some_inj h))),
  λ (e, runs). elim runs [ inl h ↦ cc | inr (h, server) ↦ ap some (sym server) ],
)
judged_after (some host) id care =
    (λ h. (refl, inl h), λ (e, runs). elim runs [ inl h ↦ h | inr (h, server) ↦ cc ])

-- Where the time of Phase 1, of the handover or of Phase 2 is up and the write succeeds, the server
-- moves the workshop on, to the handover, to Phase 2 or to the vote, and stores the session that it
-- keeps, with an artifact for the change; it starts the judge for an id exactly if the phase that
-- ends is Phase 2 and the id is the host's or, where there is no host, "server".
pub advance_overdue_phase_ok :
    (id created_at : String) (now : ℕ) (s : WorkshopSession) (q : Phase)
    → remaining_phase_seconds now s ≡ some 0
    → Timed s.phase q
    → let e = advance_overdue_phase id created_at now saved s in
      (e.is_error ≡ false)
      × (e.cached.phase ≡ q)
      × (e.stored ≡ some (e.cached, auto_artifact id created_at s.phase e.cached))
      × ((by : String) → (e.judge_for ≡ some by) ↔ JudgesFor s.phase e.cached.host_player_id by)
unfolding advance_overdue_phase finish_advance
advance_overdue_phase_ok id created_at now s q up timed =
    let (t, moves, at, valid) = advance_from-advanced now s timed refl in
    rw (up, moves, advance_overdue_phase)
      (refl, at, refl, λ by. judged_after t.host_player_id by timed)

-- A phase ends by itself or stays.
ends_or_stays :
    (p : Phase) (now : ℕ) (s : WorkshopSession)
    → ((q : Phase) × Timed p q) ⊎ (advance_from p now s ≡ stays)
unfolding advance_from
ends_or_stays Phase.lobby now s = inr refl
ends_or_stays Phase.phase0 now s = inr refl
ends_or_stays Phase.phase1 now s = inl (Phase.handover, discovery)
ends_or_stays Phase.handover now s = inl (Phase.phase2, notes)
ends_or_stays Phase.phase2 now s = inl (Phase.voting, care)
ends_or_stays Phase.judge now s = inr refl
ends_or_stays Phase.voting now s = inr refl
ends_or_stays Phase.end now s = inr refl

-- What the end of the function leaves.
abbrev pub AdvancesWhole : WorkshopSession → AdvanceEffects → Type 0
AdvancesWhole s e =
    (IsValid s → IsValid e.cached)
    × (((e.stored ≡ none) × (e.judge_for ≡ none) × (e.cached ≡ s))
        ⊎ ((a : SessionArtifactRecord) × (e.stored ≡ some (e.cached, a)) × (e.is_error ≡ false)))

finish-whole :
    (id created_at : String) (fate : WriteFate) (s t : WorkshopSession)
    → (IsValid s → IsValid t)
    → AdvancesWhole s (store_advance id created_at fate s t)
finish-whole id created_at saved s t valid = (valid, inr (_, refl, refl))
finish-whole id created_at (lease_lost e) s t valid = (λ v. v, inl (refl, refl, refl))
finish-whole id created_at (save_failed e) s t valid = (λ v. v, inl (refl, refl, refl))

-- At any time, in any phase and however the write ends, the server's end of a phase is done as a
-- whole or not at all: it keeps a valid workshop valid, and either it stores and keeps the new
-- session, with an artifact, or it stores nothing, starts no judge and keeps the session as it was.
pub advance_overdue_phase_whole :
    (id created_at : String) (now : ℕ) (fate : WriteFate) (s : WorkshopSession)
    → AdvancesWhole s (advance_overdue_phase id created_at now fate s)
unfolding advance_overdue_phase finish_advance
advance_overdue_phase_whole id created_at now fate s =
    if_split (λ e. AdvancesWhole s e) (is_time_up (remaining_phase_seconds now s))
      (λ _. elim (ends_or_stays s.phase now s) [
        | inl (q, timed) ↦
            let (t, moves, at, valid) = advance_from-advanced now s timed refl in
            subst (λ x. AdvancesWhole s (finish_advance id created_at fate s x)) (sym moves)
              (finish-whole id created_at fate s t valid)
        | inr same ↦
            subst (λ x. AdvancesWhole s (finish_advance id created_at fate s x)) (sym same)
              (λ v. v, inl (refl, refl, refl))
      ])
      (λ _. (λ v. v, inl (refl, refl, refl)))

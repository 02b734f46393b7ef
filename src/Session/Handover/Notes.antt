-- ===== src/Session/Handover/Notes.antt =====
-- The deadline of the handover: `enter_phase2_after_deadline` and the notes that are missing.
use dragon_shift.Common.{
  ℕ, ◌≡◌, refl, true, String, List, [], ◌∷◌, Bool-cases, Option-cases, inl, inr,
}
use dragon_shift.BTreeMap.{BTreeMap, string_key, values}
use dragon_shift.Protocol.{Phase}
use dragon_shift.Dragon.{SessionDragon}
use dragon_shift.Session.{SessionPlayer, WorkshopSession, is_ok, can_transition, transition_to}
use dragon_shift.Session.Handover.{
  dragon_of_player, auto_fill, missing_players, start_phase2, refuse_or_shift,
  enter_phase2_with_missing_handover, enter_phase2_after_deadline,
}

missing_players_late :
    (players : List SessionPlayer) (dragons : BTreeMap String SessionDragon)
    → missing_players true players dragons ≡ []
unfolding missing_players
missing_players_late [] dragons = refl
missing_players_late (player ∷ players) dragons =
    let rest = missing_players_late players dragons in
    elim (Option-cases (dragon_of_player player dragons)) [
      | inl e ↦ rw (e, missing_players) rest
      | inr (dragon, e) ↦ elim (Bool-cases player.is_connected) [
        | inl c ↦ rw (e, c, missing_players) rest
        | inr c ↦ rw (e, c, missing_players) rest
      ]
    ]

refuse_or_shift-handover :
    (now : ℕ) (names : List String) (s : WorkshopSession)
    → s.phase ≡ Phase.handover
    → let r = refuse_or_shift now names [] s in (is_ok r.1 ≡ true) × (r.0.phase ≡ Phase.phase2)
unfolding refuse_or_shift transition_to can_transition start_phase2
refuse_or_shift-handover now names s e = rw e (refl, refl)

-- In the handover phase, whatever notes are missing, `enter_phase2_after_deadline` succeeds and
-- leaves the workshop in Phase 2.
pub enter_phase2_after_deadline_ok :
    (now : ℕ) (s : WorkshopSession)
    → s.phase ≡ Phase.handover
    → (is_ok (enter_phase2_after_deadline now s).1 ≡ true)
      × ((enter_phase2_after_deadline now s).0.phase ≡ Phase.phase2)
unfolding enter_phase2_after_deadline enter_phase2_with_missing_handover
enter_phase2_after_deadline_ok now s e =
    let (filled, names) = auto_fill true (values s.players) s.dragons in
    rw (missing_players_late (values s.players) filled)
      (refuse_or_shift-handover now names (record s { dragons = filled }) e)

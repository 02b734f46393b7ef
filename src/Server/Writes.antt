-- ===== src/Server/Writes.antt =====
-- What `workshop_command` of platform/app-server/src/http.rs stores, and what it leaves cached.
use dragon_shift.Common.{◌≡◌, ◌≢◌, ◌⊎◌, inl, inr, refl, false, Option, none, some}
use dragon_shift.Protocol.{SessionCommand}
use dragon_shift.Session.{WorkshopSession}
use dragon_shift.Server.{
  success, WorkshopBroadcastDelta, SessionArtifactRecord, Context, Outcome, phase_step,
}
use dragon_shift.Server.Commands.{Payload}
use dragon_shift.Server.Handler.{
  Outside, dispatch, WriteFate, lease_lost, save_failed, saved, Effects, persist_pair,
  workshop_command,
}
use dragon_shift.Server.Answers.{is_success, Answered, refused, accepted}
use dragon_shift.Server.Replies.{dispatch-Answered}

-- A success: what is cached is what was stored, with an artifact by the sender, of its phase.
abbrev pub Done : Context → WriteFate → Effects → Type 0
Done c fate e =
    (e.response ≡ success)
    × (fate ≡ saved)
    × ((delta : Option WorkshopBroadcastDelta) × (e.broadcast ≡ some delta))
    × ((a : SessionArtifactRecord) × (e.stored ≡ some (e.cached, a))
        × (a.player_id ≡ some c.player_id)
        × (a.phase ≡ e.cached.phase)
        × (a.step ≡ phase_step e.cached.phase))

-- An error: nothing stored, nothing broadcast, nothing queued.
abbrev pub NotDone : WorkshopSession → Effects → Type 0
NotDone t e =
    (is_success e.response ≡ false)
    × (e.stored ≡ none)
    × (e.broadcast ≡ none)
    × (e.judge_queued ≡ false)
    × (e.cached ≡ t)

persist_pair-Answered :
    (c : Context) (fate : WriteFate) (s t : WorkshopSession) (o : Outcome)
    → Answered c t o
    → let e = persist_pair fate s o o.session_to_persist o.artifact_to_append in
      Done c fate e ⊎ (NotDone t e ⊎ NotDone s e)
unfolding persist_pair
persist_pair-Answered c fate s t o (refused r fails) = inr (inl (fails, refl, refl, refl, refl))
persist_pair-Answered c saved s t o (accepted delta judge a u by phase step) =
    inl (refl, refl, (delta, refl), (a, refl, by, phase, step))
persist_pair-Answered c (lease_lost text) s t o (accepted delta judge a u by phase step) =
    inr (inr (refl, refl, refl, refl, refl))
persist_pair-Answered c (save_failed text) s t o (accepted delta judge a u by phase step) =
    inr (inr (refl, refl, refl, refl, refl))

-- A command is done as a whole or not at all. Either it is answered with a success: then the write
-- succeeded, the session that is cached is the one that was stored, together with an artifact of the
-- sender that has the phase of that session and its step, and something is broadcast. Or it is
-- answered with an error: then nothing is stored, broadcast or queued, and, unless the command is
-- the start of Phase 2, the cached session is the one from before the command.
pub workshop_command_all_or_nothing :
    (out : Outside) (c : Context) (command : SessionCommand) (p : Payload) (fate : WriteFate)
    (s : WorkshopSession)
    → let e = workshop_command out c command p fate s in
      Done c fate e
      ⊎ ((t : WorkshopSession) × NotDone t e × (command ≢ SessionCommand.start_phase2 → t ≡ s))
unfolding workshop_command
workshop_command_all_or_nothing out c command p fate s =
    let (t, answered, same) = dispatch-Answered c s out command p in
    elim (persist_pair-Answered c fate s t (dispatch out c command p s) answered) [
      | inl done ↦ inl done
      | inr (inl left) ↦ inr (t, left, same)
      | inr (inr kept) ↦ inr (s, kept, λ _. refl)
    ]

-- ===== src/Server/Answers.antt =====
-- Whether a command of platform/app-server/src/http.rs, `workshop_command`, is refused or accepted.
use dragon_shift.Common.{
  ◌≡◌, refl, sym, subst, Bool, true, false, Option, some, if_split, if◌then◌else◌,
}
use dragon_shift.BTreeMap.{string_key}
use dragon_shift.Session.{WorkshopSession, Result, ok, err, DomainError}
use dragon_shift.Session.Failures.{FailsClean}
use dragon_shift.Server.{
  CommandResponse, success, WorkshopBroadcastDelta, SessionArtifactKind, ArtifactPayload,
  SessionArtifactRecord, Context, Outcome, phase_step, refuse, new_artifact, accept, attempt,
}

abbrev pub is_success : CommandResponse → Bool
is_success success = true
is_success _ = false

-- An outcome: an error, which leaves `s` cached and asks for nothing; or a success, where the
-- cached session is to be saved with an artifact of the sender and of its phase.
pub data Answered (c : Context) (s : WorkshopSession) : Outcome → Type 0 where
  refused : (r : CommandResponse) → is_success r ≡ false → Answered c s (refuse r s)
  accepted :
      (delta : Option WorkshopBroadcastDelta) (judge : Bool) (a : SessionArtifactRecord)
      (t : WorkshopSession)
      → a.player_id ≡ some c.player_id
      → a.phase ≡ t.phase
      → a.step ≡ phase_step t.phase
      → Answered c s (accept delta judge a t)

module _ (c : Context) (s : WorkshopSession) where
  pub accept-Answered :
      (delta : Option WorkshopBroadcastDelta) (judge : Bool) (kind : SessionArtifactKind)
      (payload : ArtifactPayload) (t : WorkshopSession)
      → Answered c s (accept delta judge (new_artifact c kind payload t) t)
  accept-Answered delta judge kind payload t = accepted delta judge _ t refl refl refl

  -- A method that changes nothing where it fails.
  pub attempt-Answered {ℓ} :
      {A : Type ℓ} (r : WorkshopSession × Result A) (refusal : DomainError → CommandResponse)
      (rest : WorkshopSession → Outcome)
      → ((e : DomainError) → is_success (refusal e) ≡ false)
      → FailsClean s r
      → ((t : WorkshopSession) → Answered c s (rest t))
      → Answered c s (attempt r refusal rest)
  attempt-Answered (t, ok a) refusal rest fails clean h = h t
  attempt-Answered (t, err e) refusal rest fails clean h =
      subst (λ x. Answered c s (refuse (refusal e) x)) (sym clean) (refused (refusal e) (fails e))

  -- A guard that refuses, before the rest.
  pub guard-Answered :
      (test : Bool) (r : CommandResponse) (rest : Outcome)
      → is_success r ≡ false
      → (test ≡ false → Answered c s rest)
      → Answered c s (if test then refuse r s else rest)
  guard-Answered test r rest fails h = if_split (λ o. Answered c s o) test (λ _. refused r fails) h

-- ===== src/Server/Serving.antt =====
-- A workshop under any commands that `workshop_command` of platform/app-server/src/http.rs takes.
use dragon_shift.Common.{ℕ, ◌≡◌, refl, sym, subst, ap, ◌∙◌, List, [], ◌∷◌, ◌++◌, map}
use dragon_shift.Protocol.{SessionCommand}
use dragon_shift.Session.{WorkshopSession}
use dragon_shift.Session.Invariant.{IsValid}
use dragon_shift.Workshop.{Call, exec, run}
use dragon_shift.Workshop.Reach.{run-IsValid}
use dragon_shift.Server.{Context, Outcome}
use dragon_shift.Server.Commands.{Payload}
use dragon_shift.Server.Handler.{
  Outside, WriteFate, lease_lost, save_failed, saved, persist_pair, workshop_command,
}
use dragon_shift.Server.Answers.{Answered, refused, accepted}
use dragon_shift.Server.Replies.{dispatch-Answered}
use dragon_shift.Server.Refinement.{MadeBy, dispatch-Made}

-- One command that is served, with what the outside does meanwhile.
pub record Request : Type 0 where
  pub out : Outside
  pub context : Context
  pub command : SessionCommand
  pub payload : Payload
  pub fate : WriteFate

abbrev pub serve_one : Request → WorkshopSession → WorkshopSession
serve_one r s = (workshop_command r.out r.context r.command r.payload r.fate s).cached

-- The session's lease orders the commands.
unfoldable pub serve : WorkshopSession → List Request → WorkshopSession
serve s [] = s
serve s (r ∷ rs) = serve (serve_one r s) rs

persist_pair-MadeBy :
    (now : ℕ) (c : Context) (fate : WriteFate) (s t : WorkshopSession) (o : Outcome)
    → Answered c t o
    → MadeBy now s o.session
    → MadeBy now s (persist_pair fate s o o.session_to_persist o.artifact_to_append).cached
unfolding persist_pair run
persist_pair-MadeBy now c fate s t o (refused r fails) made = made
persist_pair-MadeBy now c saved s t o (accepted delta judge a u by phase step) made = made
persist_pair-MadeBy now c (lease_lost e) s t o (accepted delta judge a u by phase step) made =
    ([], refl)
persist_pair-MadeBy now c (save_failed e) s t o (accepted delta judge a u by phase step) made =
    ([], refl)

serve_one-MadeBy : (r : Request) (s : WorkshopSession) → MadeBy r.context.now s (serve_one r s)
unfolding workshop_command
serve_one-MadeBy r s =
    let (t, answered, same) = dispatch-Answered r.context s r.out r.command r.payload in
    persist_pair-MadeBy r.context.now r.context r.fate s t _ answered
      (dispatch-Made r.context s r.out r.command r.payload)

run-append : (s : WorkshopSession) (xs ys : List (ℕ × Call)) → run s (xs ++ ys) ≡ run (run s xs) ys
unfolding run
run-append s [] ys = refl
run-append s ((now, call) ∷ xs) ys = run-append (exec now call s) xs ys

serve-runs :
    (s : WorkshopSession) (rs : List Request)
    → (calls : List (ℕ × Call)) × (serve s rs ≡ run s calls)
unfolding serve run
serve-runs s [] = ([], refl)
serve-runs s (r ∷ rs) =
    let (first, made) = serve_one-MadeBy r s in
    let (rest, later) = serve-runs (serve_one r s) rs in
    let calls = map (λ (call : Call). (r.context.now, call)) first in
    (calls ++ rest, later ∙ ap (λ t. run t rest) made ∙ sym (run-append s calls rest))

-- Whatever commands are sent to a valid workshop, by whomever and with whatever payloads, and
-- however the loads and the writes of the store end: the session that the server keeps is one that
-- calls of the session's own methods make of it, and is valid.
pub serve-IsValid :
    (s : WorkshopSession) (rs : List Request)
    → IsValid s
    → ((calls : List (ℕ × Call)) × (serve s rs ≡ run s calls)) × IsValid (serve s rs)
serve-IsValid s rs v =
    let (calls, same) = serve-runs s rs in
    ((calls, same), subst IsValid (sym same) (run-IsValid s calls v))

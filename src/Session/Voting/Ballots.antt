-- ===== src/Session/Voting/Ballots.antt =====
-- The ballot box: who may vote for what, one vote each, and when it opens and closes.
use dragon_shift.Common.{
  ℕ, ◌≡◌, ◌≢◌, ◌↔◌, inl, inr, refl, sym, ap, subst, ◌∙◌, true, false, String, Option, none, some,
  any, some_inj, if◌then◌else◌, Bool-cases, Option-cases, str_eq, eq_iff,
}
use dragon_shift.BTreeMap.{BTreeMap, string_key, get, insert}
use dragon_shift.BTreeMap.Laws.{beq_ne, get-insert}
use dragon_shift.Dragon.{SessionDragon}
use dragon_shift.Session.{VotingState, WorkshopSession, DomainError, Result, is_ok}
use dragon_shift.Session.Voting.{vote_error, count_vote, cast_vote, submit_vote}

-- The voter may vote at all, and for this dragon: it has another original owner. Who cares for it now
-- plays no part.
pub record MayVote (voting : VotingState) (dragons : BTreeMap String SessionDragon)
    (voter dragon_id : String) : Type 0 where
  pub eligible : any (λ id. str_eq id voter) voting.eligible_player_ids ≡ true
  pub dragon : SessionDragon
  pub known : get dragon_id dragons ≡ some dragon
  pub not_own : dragon.original_owner_id ≢ voter

vote_error-MayVote :
    (voting : VotingState) (dragons : BTreeMap String SessionDragon) (voter dragon_id : String)
    → vote_error voting dragons voter dragon_id ≡ none
    → (voting.results_revealed ≡ false) × MayVote voting dragons voter dragon_id
unfolding vote_error
vote_error-MayVote voting dragons voter dragon_id h = elim (Bool-cases voting.results_revealed) [
  | inl e ↦ cc (rw e at h)
  | inr e ↦ elim (Bool-cases (any (λ id. str_eq id voter) voting.eligible_player_ids)) [
    | inr f ↦ cc (rw (e, f) at h)
    | inl f ↦ elim (Option-cases (get dragon_id dragons)) [
      | inl g ↦ cc (rw (e, f, g) at h)
      | inr (d, g) ↦ elim (Bool-cases (str_eq d.original_owner_id voter)) [
        | inl k ↦ cc (rw (e, f, g, k) at h)
        | inr k ↦ (
          e,
          record {
            eligible = f;
            dragon = d;
            known = g;
            not_own = λ same. cc ((eq_iff d.original_owner_id voter).1 same, k);
          },
        )
      ]
    ]
  ]
]

MayVote-vote_error :
    (voting : VotingState) (dragons : BTreeMap String SessionDragon) (voter dragon_id : String)
    → voting.results_revealed ≡ false
    → MayVote voting dragons voter dragon_id
    → vote_error voting dragons voter dragon_id ≡ none
unfolding vote_error
MayVote-vote_error voting dragons voter dragon_id e m =
    rw (e, m.eligible, m.known, beq_ne m.dragon.original_owner_id voter m.not_own)

-- What `submit_vote` answers and does, `r` being its result while the vote `voting` is on.
pub record Vote (voter dragon_id : String) (s : WorkshopSession) (voting : VotingState)
    (r : WorkshopSession × Result (Unit {0})) : Type 0 where
  pub accepted :
      (is_ok r.1 ≡ true)
      ↔ ((voting.results_revealed ≡ false) × MayVote voting s.dragons voter dragon_id)
  pub refused : is_ok r.1 ≡ false → r.0 ≡ s
  pub counted :
      is_ok r.1 ≡ true
      → (r.0.dragons ≡ s.dragons)
        × (r.0.voting
            ≡ some (record voting {
              votes_by_player_id = insert voter dragon_id voting.votes_by_player_id;
            }))

count_vote-Vote :
    (now : ℕ) (voter dragon_id : String) (s : WorkshopSession) (voting : VotingState)
    (o : Option DomainError)
    → vote_error voting s.dragons voter dragon_id ≡ o
    → Vote voter dragon_id s voting (count_vote now voter dragon_id voting o s)
unfolding count_vote
count_vote-Vote now voter dragon_id s voting (some e) h = record {
  accepted = (λ x. cc, λ x. cc (MayVote-vote_error voting s.dragons voter dragon_id x.0 x.1, h));
  refused = λ x. refl;
  counted = λ x. cc;
}
count_vote-Vote now voter dragon_id s voting none h = record {
  accepted = (λ x. vote_error-MayVote voting s.dragons voter dragon_id h, λ x. refl);
  refused = λ x. cc;
  counted = λ x. (refl, refl);
}

-- While a vote is on, `submit_vote` accepts a vote exactly if the results are not revealed, the voter
-- is on the list, the dragon exists and the voter is not its original owner, whoever cares for it now.
-- A refused vote changes nothing; an accepted one becomes the voter's vote, and changes no dragon.
pub submit_vote-Vote :
    (now : ℕ) (voter dragon_id : String) (s : WorkshopSession) (voting : VotingState)
    → s.voting ≡ some voting
    → Vote voter dragon_id s voting (submit_vote now voter dragon_id s)
unfolding submit_vote
submit_vote-Vote now voter dragon_id s voting on =
    subst (λ o. Vote voter dragon_id s voting (cast_vote now voter dragon_id o s)) (sym on)
      (unfold cast_vote in
        count_vote-Vote now voter dragon_id s voting (vote_error voting s.dragons voter dragon_id)
          refl)

-- After an accepted vote the box holds it, and every other voter's as before: one vote each.
pub submit_vote_replaces :
    (now : ℕ) (voter dragon_id other : String) (s : WorkshopSession) (voting after : VotingState)
    → s.voting ≡ some voting
    → is_ok (submit_vote now voter dragon_id s).1 ≡ true
    → (submit_vote now voter dragon_id s).0.voting ≡ some after
    → get other after.votes_by_player_id
      ≡ (if str_eq voter other then some dragon_id else get other voting.votes_by_player_id)
submit_vote_replaces now voter dragon_id other s voting after on accepted then_ =
    let counted = ((submit_vote-Vote now voter dragon_id s voting on).counted accepted).1 in
    let same = some_inj (sym then_ ∙ counted) in
    ap (λ (v : VotingState). get other v.votes_by_player_id) same
    ∙ get-insert voter other dragon_id voting.votes_by_player_id

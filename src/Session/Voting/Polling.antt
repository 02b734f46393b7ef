-- ===== src/Session/Voting/Polling.antt =====
-- A whole poll: what a sequence of calls of `submit_vote` leaves of each voter's votes.
use dragon_shift.Common.{
  ℕ, ◌≡◌, inl, inr, refl, sym, ap, subst, ◌∙◌, Bool, true, false, not, ◌&&◌, String, Option, none,
  some, List, [], ◌∷◌, any, is_some_and, if◌then◌else◌, Bool-cases, Option-cases, str_eq, arith,
}
use dragon_shift.BTreeMap.{BTreeMap, string_key, get, insert}
use dragon_shift.BTreeMap.Laws.{get-insert}
use dragon_shift.Dragon.{SessionDragon}
use dragon_shift.Session.{VotingState, WorkshopSession, DomainError}
use dragon_shift.Session.Voting.{vote_error, count_vote, cast_vote, submit_vote}

-- The votes that are sent, each at its time: the voter and the dragon.
abbrev pub Votes : Type 0
Votes = List (ℕ × String × String)

unfoldable pub submit_all : Votes → WorkshopSession → WorkshopSession
submit_all [] s = s
submit_all ((now, voter, dragon_id) ∷ votes) s =
    submit_all votes (submit_vote now voter dragon_id s).0

if_never : {A : Type 0} (b c : Bool) (x y : A) → c ≡ false → y ≡ (if b && c then x else y)
if_never false c x y h = refl
if_never true c x y h = rw h refl

if_also :
    {A : Type 0} (b c : Bool) (x y : A)
    → c ≡ true
    → (if b then x else y) ≡ (if b && c then x else y)
if_also false c x y h = refl
if_also true c x y h = rw h refl

module _ (listed : List String) (dragons : BTreeMap String SessionDragon) where
  -- A vote that counts: of a voter on the list, for a dragon that exists and another player made.
  abbrev pub counts : String → String → Bool
  counts voter dragon_id =
      any (λ id. str_eq id voter) listed
      && is_some_and (get dragon_id dragons) (λ dragon. not (str_eq dragon.original_owner_id voter))

  -- The last vote of the voter that counts, `old` if there is none.
  abbrev pub choice : String → Votes → Option String → Option String
  choice voter [] old = old
  choice voter ((_, sender, dragon_id) ∷ votes) old =
      choice voter votes
        (if str_eq sender voter && counts sender dragon_id then some dragon_id else old)

  -- An open poll with the list and the dragons, in which each voter's ballot is as told.
  pub record Poll (ballots : String → Option String) (s : WorkshopSession) : Type 0 where
    pub voting : VotingState
    pub on : s.voting ≡ some voting
    pub still_open : voting.results_revealed ≡ false
    pub same_list : voting.eligible_player_ids ≡ listed
    pub same_dragons : s.dragons ≡ dragons
    pub ballot : (voter : String) → get voter voting.votes_by_player_id ≡ ballots voter

  accepts :
      (voting : VotingState) (voter dragon_id : String)
      → voting.results_revealed ≡ false
      → voting.eligible_player_ids ≡ listed
      → counts voter dragon_id ≡ true
      → vote_error voting dragons voter dragon_id ≡ none
  unfolding vote_error
  accepts voting voter dragon_id unrevealed same h = rw (unrevealed, same) (ground arith)

  refuses :
      (voting : VotingState) (voter dragon_id : String)
      → voting.results_revealed ≡ false
      → voting.eligible_player_ids ≡ listed
      → counts voter dragon_id ≡ false
      → (e : DomainError) × (vote_error voting dragons voter dragon_id ≡ some e)
  unfolding vote_error
  refuses voting voter dragon_id unrevealed same h =
      elim (Bool-cases (any (λ id. str_eq id voter) listed)) [
        | inr e ↦ rw (unrevealed, same, e) (_, refl)
        | inl e ↦ elim (Option-cases (get dragon_id dragons)) [
          | inl f ↦ rw (unrevealed, same, e, f) (_, refl)
          | inr (d, f) ↦ elim (Bool-cases (str_eq d.original_owner_id voter)) [
            | inl g ↦ rw (unrevealed, same, e, f, g) (_, refl)
            | inr g ↦ cc (rw (e, f, g) at h)
          ]
        ]
      ]

  -- The ballots after a vote is sent.
  abbrev sent : String → String → (String → Option String) → String → Option String
  sent sender dragon_id ballots voter =
      if str_eq sender voter && counts sender dragon_id then some dragon_id else ballots voter

  discarded :
      (ballots : String → Option String) (sender dragon_id : String) (s : WorkshopSession)
      → counts sender dragon_id ≡ false
      → Poll ballots s
      → Poll (sent sender dragon_id ballots) s
  discarded ballots sender dragon_id s miss h = record {
    voting = h.voting;
    on = h.on;
    still_open = h.still_open;
    same_list = h.same_list;
    same_dragons = h.same_dragons;
    ballot = λ voter. h.ballot voter ∙ if_never (str_eq sender voter) _ (some dragon_id) _ miss;
  }

  counted :
      (ballots : String → Option String) (now : ℕ) (sender dragon_id : String) (s : WorkshopSession)
      → counts sender dragon_id ≡ true
      → (h : Poll ballots s)
      → Poll (sent sender dragon_id ballots) (count_vote now sender dragon_id h.voting none s).0
  unfolding count_vote
  counted ballots now sender dragon_id s hit h = record {
    voting = record h.voting {
      votes_by_player_id = insert sender dragon_id h.voting.votes_by_player_id;
    };
    on = refl;
    still_open = h.still_open;
    same_list = h.same_list;
    same_dragons = h.same_dragons;
    ballot = λ voter.
        get-insert sender voter dragon_id h.voting.votes_by_player_id
        ∙ ap (λ b. if str_eq sender voter then some dragon_id else b) (h.ballot voter)
        ∙ if_also (str_eq sender voter) _ (some dragon_id) _ hit;
  }

  cast-Poll :
      (ballots : String → Option String) (now : ℕ) (sender dragon_id : String) (s : WorkshopSession)
      → (h : Poll ballots s)
      → Poll
          (sent sender dragon_id ballots)
          (count_vote now sender dragon_id h.voting
            (vote_error h.voting dragons sender dragon_id)
            s).0
  unfolding count_vote
  cast-Poll ballots now sender dragon_id s h = elim (Bool-cases (counts sender dragon_id)) [
    | inl hit ↦
        rw (accepts h.voting sender dragon_id h.still_open h.same_list hit)
          (counted ballots now sender dragon_id s hit h)
    | inr miss ↦
        let (e, refused) = refuses h.voting sender dragon_id h.still_open h.same_list miss in
        rw refused (discarded ballots sender dragon_id s miss h)
  ]

  submit-Poll :
      (ballots : String → Option String) (now : ℕ) (sender dragon_id : String) (s : WorkshopSession)
      → Poll ballots s
      → Poll (sent sender dragon_id ballots) (submit_vote now sender dragon_id s).0
  unfolding submit_vote
  submit-Poll ballots now sender dragon_id s h =
      subst (λ o. Poll (sent sender dragon_id ballots) (cast_vote now sender dragon_id o s).0)
        (sym h.on)
        (unfold cast_vote in
          subst
            (λ all.
              Poll (sent sender dragon_id ballots)
                (count_vote now sender dragon_id h.voting (vote_error h.voting all sender dragon_id)
                  s).0)
            (sym h.same_dragons) (cast-Poll ballots now sender dragon_id s h))

  submit_all-Poll :
      (ballots : String → Option String) (votes : Votes) (s : WorkshopSession)
      → Poll ballots s
      → Poll (λ voter. choice voter votes (ballots voter)) (submit_all votes s)
  unfolding submit_all
  submit_all-Poll ballots [] s h = h
  submit_all-Poll ballots ((now, sender, dragon_id) ∷ votes) s h =
      submit_all-Poll (sent sender dragon_id ballots) votes (submit_vote now sender dragon_id s).0
        (submit-Poll ballots now sender dragon_id s h)

-- Where a vote is on and its results are not revealed, any calls of `submit_vote` leave it so, with
-- its list of voters and the dragons, and leave each voter the ballot that is the last of the voter's
-- votes that count, those of a listed voter for a dragon that exists and has another original owner,
-- or the ballot of before if none of them counts.
pub submit_all-choice :
    (votes : Votes) (s : WorkshopSession) (voting : VotingState)
    → s.voting ≡ some voting
    → voting.results_revealed ≡ false
    → Poll voting.eligible_player_ids s.dragons
        (λ voter.
          choice voting.eligible_player_ids s.dragons voter votes
            (get voter voting.votes_by_player_id))
        (submit_all votes s)
submit_all-choice votes s voting on unrevealed =
    submit_all-Poll voting.eligible_player_ids s.dragons
      (λ voter. get voter voting.votes_by_player_id) votes s
      (record {
        voting = voting;
        on = on;
        still_open = unrevealed;
        same_list = refl;
        same_dragons = refl;
        ballot = λ voter. refl;
      })

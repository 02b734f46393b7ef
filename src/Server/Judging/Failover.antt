-- ===== src/Server/Judging/Failover.antt =====
-- What the judge of platform/app-server/src/llm.rs returns, by the replies of its providers.
use dragon_shift.Common.{
  ℕ, suc, zero, ◌+◌, ◌-◌, ◌%◌, ◌<◌, ◌≤◌, ◌≡◌, ◌⊎◌, ◌↔◌, inl, inr, refl, sym, ap, ◌∙◌, subst, String,
  Bool, true, false, Option, none, some, List, [], ◌∷◌, map, arith, length, leb, is_some, ◌==◌,
  eq_iff, Bool-cases, Option-cases,
}
use native.Mathlib.Nat.{mod-lt, mod-eq_of_lt, mod-add-mod, add-mod_right}
use dragon_shift.Server.Judging.{
  LlmDragonEvaluation, LlmJudgeEvaluation, Fault, is_empty_text, dragon_fault, or_next,
  dragon_faults, validate_judge_response, count_from, provider_attempt_indices, Reply, decoded,
  undecodable, call_failed, Judged, evaluated, take_reply, try_providers, judge,
}

-- An evaluation of the dragon of the id, with all of its texts.
abbrev pub AnswersFor : String → LlmDragonEvaluation → Type 0
AnswersFor id e =
    (e.dragon_id ≡ id)
    × (is_empty_text e.dragon_name ≡ false)
    × (is_empty_text e.feedback ≡ false)
    × (is_empty_text e.observation_feedback ≡ false)
    × (is_empty_text e.care_feedback ≡ false)

-- One evaluation for each dragon, in their order.
abbrev pub AnswersAll : List String → List LlmDragonEvaluation → Type 0
AnswersAll [] [] = Unit
AnswersAll (id ∷ ids) (e ∷ es) = AnswersFor id e × AnswersAll ids es
AnswersAll _ _ = ⊥

dragon_fault-AnswersFor :
    (i : ℕ) (id : String) (e : LlmDragonEvaluation) → dragon_fault i id e ≡ none → AnswersFor id e
unfolding dragon_fault
dragon_fault-AnswersFor i id e h = (
  ground (arith, h, eq_iff e.dragon_id id),
  ground (arith, h),
  ground (arith, h),
  ground (arith, h),
  ground (arith, h),
)

AnswersFor-dragon_fault :
    (i : ℕ) (id : String) (e : LlmDragonEvaluation) → AnswersFor id e → dragon_fault i id e ≡ none
unfolding dragon_fault
AnswersFor-dragon_fault i id e h = ground (arith, h.0, h.1, h.2, h.3, h.4, eq_iff e.dragon_id id)

or_next-none : (o p : Option Fault) → or_next o p ≡ none → (o ≡ none) × (p ≡ none)
or_next-none none p h = (refl, h)
or_next-none (some x) p h = absurd cc

dragon_faults-AnswersAll :
    (i : ℕ) (ids : List String) (es : List LlmDragonEvaluation)
    → length es ≡ length ids
    → dragon_faults i ids es ≡ none
    → AnswersAll ids es
unfolding dragon_faults
dragon_faults-AnswersAll i [] [] same h = tt
dragon_faults-AnswersAll i [] (e ∷ es) same h = absurd (omega (arith, same))
dragon_faults-AnswersAll i (id ∷ ids) [] same h = absurd (omega (arith, same))
dragon_faults-AnswersAll i (id ∷ ids) (e ∷ es) same h =
    let (here, later) = or_next-none (dragon_fault i id e) (dragon_faults (suc i) ids es) h in
    (
      dragon_fault-AnswersFor i id e here,
      dragon_faults-AnswersAll (suc i) ids es (omega (arith, same)) later,
    )

AnswersAll-dragon_faults :
    (i : ℕ) (ids : List String) (es : List LlmDragonEvaluation)
    → AnswersAll ids es
    → (length es ≡ length ids) × (dragon_faults i ids es ≡ none)
unfolding dragon_faults
AnswersAll-dragon_faults i [] [] h = (refl, refl)
AnswersAll-dragon_faults i [] (e ∷ es) h = absurd h
AnswersAll-dragon_faults i (id ∷ ids) [] h = absurd h
AnswersAll-dragon_faults i (id ∷ ids) (e ∷ es) h =
    let (same, later) = AnswersAll-dragon_faults (suc i) ids es h.1 in
    (omega (arith, same), rw (AnswersFor-dragon_fault i id e h.0, later) refl)

-- An evaluation with a summary and one evaluation of each dragon of the bundle.
abbrev pub Answers : List String → LlmJudgeEvaluation → Type 0
Answers ids e = (is_empty_text e.summary ≡ false) × AnswersAll ids e.dragon_evaluations

-- An evaluation is accepted exactly when its summary has a text and it evaluates exactly the
-- dragons of the bundle, in their order, each by its id and with a name and three texts of feedback.
pub validate_judge_response-Answers :
    (e : LlmJudgeEvaluation) (ids : List String)
    → (validate_judge_response e ids ≡ none) ↔ Answers ids e
unfolding validate_judge_response
validate_judge_response-Answers e ids = (accepted, accepts)
  where
    accepted : validate_judge_response e ids ≡ none → Answers ids e
    accepted h =
        let told : is_empty_text e.summary ≡ false = ground (arith, h) in
        let same : length e.dragon_evaluations ≡ length ids = ground (arith, h) in
        let clean : dragon_faults 0 ids e.dragon_evaluations ≡ none = ground (arith, h) in
        (told, dragon_faults-AnswersAll 0 ids e.dragon_evaluations same clean)

    accepts : Answers ids e → validate_judge_response e ids ≡ none
    accepts h =
        let (same, clean) = AnswersAll-dragon_faults 0 ids e.dragon_evaluations h.1 in
        ground (arith, h.0, same, clean)

-- A provider is among those that are tried.
abbrev pub Tried : ℕ → List ℕ → Type 0
Tried p [] = ⊥
Tried p (q ∷ qs) = (p ≡ q) ⊎ Tried p qs

Tried-map :
    (f : ℕ → ℕ) (p from n o : ℕ)
    → from ≤ o
    → o < from + n
    → f o ≡ p
    → Tried p (map f (count_from from n))
Tried-map f p from zero o low high e = absurd (omega (arith, low, high))
Tried-map f p from (suc n) o low high e = elim (Bool-cases (o == from)) [
  | inl here ↦ inl (sym e ∙ ap f (ground (arith, here)))
  | inr later ↦ inr (Tried-map f p (suc from) n o (ground (arith, later)) (omega (arith, high)) e)
]

-- The place of a provider in the rotation.
place : (n start p : ℕ) → p < n → (o : ℕ) × (o < n) × ((start + o) % n ≡ p)
place n start p small =
    let r = start % n in
    let bounded : r < n = mod-lt start (omega (arith, small)) in
    elim (Bool-cases (leb r p)) [
      | inl e ↦
          let below : r ≤ p = ground (arith, e) in
          (
            p - r,
            omega (arith, small),
            sym (mod-add-mod start n (p - r))
                ∙ ap (λ x. x % n) (omega (arith, below))
                ∙ mod-eq_of_lt small,
          )
      | inr e ↦
          let above : p < r = ground (arith, e) in
          (
            (p + n) - r,
            omega (arith, above, bounded),
            sym (mod-add-mod start n ((p + n) - r))
                ∙ ap (λ x. x % n) (omega (arith, bounded))
                ∙ add-mod_right p n
                ∙ mod-eq_of_lt small,
          )
    ]

-- Where the sums do not leave the 64 bits, every provider is tried.
attempts-Tried :
    (n start p : ℕ)
    → start + n ≤ 18446744073709551616
    → p < n
    → Tried p (provider_attempt_indices n start)
unfolding provider_attempt_indices
attempts-Tried n start p fits small =
    let (o, low, at) = place n start p small in
    Tried-map (λ x. (start + x) % 18446744073709551616 % n) p 0 n o (omega arith)
      (omega (arith, low)) (ap (λ x. x % n) (mod-eq_of_lt (omega (arith, fits, low))) ∙ at)

-- A reply on which the next provider is tried.
abbrev pub fails_over : List String → Reply → Bool
fails_over ids (decoded e) = is_some (validate_judge_response e ids)
fails_over ids (undecodable text) = true
fails_over ids (call_failed eligible text) = eligible

-- A reply with an evaluation that is accepted.
abbrev pub Good : List String → Reply → Type 0
Good ids (decoded e) = validate_judge_response e ids ≡ none
Good ids _ = ⊥

abbrev pub Succeeds : List String → (ℕ → Reply) → List ℕ → Judged → Type 0
Succeeds ids reply providers j =
    (p : ℕ) × (e : LlmJudgeEvaluation) × Tried p providers
    × (reply p ≡ decoded e)
    × (j ≡ evaluated e)
    × Answers ids e

-- The next provider is asked, or an accepted evaluation is taken.
take_reply-cases :
    (ids : List String) (r : Reply) (next : Judged)
    → (Good ids r ⊎ (fails_over ids r ≡ true))
    → ((e : LlmJudgeEvaluation) × (r ≡ decoded e)
        × (take_reply ids r next ≡ evaluated e)
        × Answers ids e)
      ⊎ ((take_reply ids r next ≡ next) × (Good ids r → ⊥))
take_reply-cases ids (undecodable text) next h = inr (refl, λ g. g)
take_reply-cases ids (call_failed true text) next h = inr (refl, λ g. g)
take_reply-cases ids (call_failed false text) next (inl g) = absurd g
take_reply-cases ids (call_failed false text) next (inr e) = absurd cc
take_reply-cases ids (decoded e) next h = elim (Option-cases (validate_judge_response e ids)) [
  | inl fine ↦
      inl (e, refl, rw (fine, take_reply) refl, (validate_judge_response-Answers e ids).0 fine)
  | inr (fault, bad) ↦ inr (rw (bad, take_reply) refl, λ g. cc (g, bad))
]

try_providers-Succeeds :
    (ids : List String) (reply : ℕ → Reply) (providers : List ℕ) (p : ℕ)
    → ((q : ℕ) → Good ids (reply q) ⊎ (fails_over ids (reply q) ≡ true))
    → Tried p providers
    → Good ids (reply p)
    → Succeeds ids reply providers (try_providers ids reply providers)
unfolding try_providers
try_providers-Succeeds ids reply [] p usable t good = absurd t
try_providers-Succeeds ids reply (q ∷ qs) p usable t good =
    elim (take_reply-cases ids (reply q) (try_providers ids reply qs) (usable q)) [
      | inl (e, from, taken, answers) ↦ (q, e, inl refl, from, taken, answers)
      | inr (next, bad) ↦ elim t [
        | inl here ↦ absurd (bad (subst (λ x. Good ids (reply x)) here good))
        | inr later ↦
            let (x, e, tried, from, taken, answers) =
              try_providers-Succeeds ids reply qs p usable later good in
            (x, e, inr tried, from, next ∙ taken, answers)
      ]
    ]

-- Where one of the judge's providers replies with an evaluation that is accepted, and every other
-- reply is accepted too or one on which the next provider is tried, then from any start of the
-- rotation the judge returns the evaluation of one of its providers, which evaluates exactly the
-- dragons of the bundle.
pub judge_ok :
    (provider_count start_index : ℕ) (ids : List String) (reply : ℕ → Reply) (p : ℕ)
    → start_index + provider_count ≤ 18446744073709551616
    → p < provider_count
    → Good ids (reply p)
    → ((q : ℕ) → Good ids (reply q) ⊎ (fails_over ids (reply q) ≡ true))
    → Succeeds ids reply
        (provider_attempt_indices provider_count start_index)
        (judge provider_count start_index ids reply)
unfolding judge
judge_ok n start ids reply p fits small good usable =
    let some_there : (n == 0) ≡ false = ground (arith, small) in
    rw some_there (
      try_providers-Succeeds ids reply (provider_attempt_indices n start) p usable
        (attempts-Tried n start p fits small) good)

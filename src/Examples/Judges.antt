-- ===== src/Examples/Judges.antt =====
-- Tests of the judge's providers, on a bundle of two dragons.
use dragon_shift.Common.{
  ℕ, zero, suc, ◌≡◌, ◌↔◌, ◌⊎◌, inl, inr, refl, String, true, none, List, [], ◌∷◌, arith,
}
use dragon_shift.Common.Text.{trim, trim_start, trim_end}
use dragon_shift.Common.I32.{pos}
use dragon_shift.Server.Judging.{
  LlmDragonEvaluation, LlmJudgeEvaluation, is_empty_text, dragon_fault, dragon_faults,
  validate_judge_response, provider_attempt_indices, Reply, decoded, call_failed, judge,
}
use dragon_shift.Server.Judging.Failover.{
  Answers, Good, fails_over, Succeeds, validate_judge_response-Answers, judge_ok,
}

abbrev opinion : String → LlmDragonEvaluation
opinion id = record {
  dragon_id = id;
  dragon_name = "Comet";
  observation_score = pos 60;
  care_score = pos 80;
  creativity_score = pos 50;
  observation_feedback = "Clear.";
  care_feedback = "Steady.";
  feedback = "Good.";
}

abbrev both_dragons : List String
both_dragons = "dragon_ann" ∷ "dragon_bob" ∷ []

abbrev verdict : LlmJudgeEvaluation
verdict = record {
  summary = "Solid.";
  dragon_evaluations = opinion "dragon_ann" ∷ opinion "dragon_bob" ∷ [];
}

validate_judge_response-Answers_example :
    (validate_judge_response verdict both_dragons ≡ none) ↔ Answers both_dragons verdict
validate_judge_response-Answers_example = validate_judge_response-Answers verdict both_dragons

-- The first provider is overloaded, the others agree.
abbrev replies : ℕ → Reply
replies zero = call_failed true "overloaded"
replies (suc q) = decoded verdict

accepted : validate_judge_response verdict both_dragons ≡ none
unfolding validate_judge_response dragon_faults dragon_fault is_empty_text trim trim_start trim_end
accepted = refl

all_usable : (q : ℕ) → Good both_dragons (replies q) ⊎ (fails_over both_dragons (replies q) ≡ true)
all_usable zero = inr refl
all_usable (suc q) = inl accepted

judge_ok_example :
    Succeeds both_dragons replies (provider_attempt_indices 3 5) (judge 3 5 both_dragons replies)
judge_ok_example =
    judge_ok 3 5 both_dragons replies 1 (omega arith) (omega arith) accepted all_usable

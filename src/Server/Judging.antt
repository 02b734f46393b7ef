-- ===== src/Server/Judging.antt =====
-- platform/app-server/src/llm.rs, the judge: the order in which its providers are tried, what is
-- made of their replies, and what an evaluation must answer. A provider's reply, its text and its
-- decoding, is an argument.
pub mod Failover
use dragon_shift.Common.{
  ℕ, suc, zero, ◌+◌, ◌%◌, String, Bool, true, false, not, ◌||◌, Option, none, some, List, [], ◌∷◌,
  map, length, if◌then◌else◌, ◌==◌, str_eq,
}
use dragon_shift.Common.Text.{trim, is_blank}
use dragon_shift.Common.I32.{ℤ}

pub record LlmDragonEvaluation : Type 0 where
  pub dragon_id : String
  pub dragon_name : String
  pub observation_score : ℤ
  pub care_score : ℤ
  pub creativity_score : ℤ
  pub observation_feedback : String
  pub care_feedback : String
  pub feedback : String

pub record LlmJudgeEvaluation : Type 0 where
  pub summary : String
  pub dragon_evaluations : List LlmDragonEvaluation

-- What is wrong with an evaluation: the dragon's place in the bundle, where it is about one.
pub data Fault : Type 0 where
  summary_empty : Fault
  wrong_count : ℕ → ℕ → Fault
  wrong_dragon no_name no_feedback no_observation_feedback no_care_feedback : ℕ → Fault

unfoldable pub is_empty_text : String → Bool
is_empty_text text = is_blank (trim text)

-- The checks of one dragon, in their order.
unfoldable pub dragon_fault : ℕ → String → LlmDragonEvaluation → Option Fault
dragon_fault index expected_id actual =
    if not (str_eq actual.dragon_id expected_id)
    then some (wrong_dragon index)
    else if is_empty_text actual.dragon_name
    then some (no_name index)
    else if is_empty_text actual.feedback
    then some (no_feedback index)
    else if is_empty_text actual.observation_feedback
    then some (no_observation_feedback index)
    else if is_empty_text actual.care_feedback
    then some (no_care_feedback index)
    else none

-- An early return.
abbrev pub or_next : Option Fault → Option Fault → Option Fault
or_next (some fault) rest = some fault
or_next none rest = rest

-- The loop over both lists at once, from an index on.
unfoldable pub dragon_faults : ℕ → List String → List LlmDragonEvaluation → Option Fault
dragon_faults index [] actual = none
dragon_faults index (id ∷ ids) [] = none
dragon_faults index (id ∷ ids) (actual ∷ rest) =
    or_next (dragon_fault index id actual) (dragon_faults (suc index) ids rest)

-- The bundle's dragons by their ids; `none` is `Ok(())`.
unfoldable pub validate_judge_response : LlmJudgeEvaluation → List String → Option Fault
validate_judge_response evaluation ids =
    if is_empty_text evaluation.summary
    then some summary_empty
    else if not (length evaluation.dragon_evaluations == length ids)
    then some (wrong_count (length ids) (length evaluation.dragon_evaluations))
    else dragon_faults 0 ids evaluation.dragon_evaluations

abbrev pub count_from : ℕ → ℕ → List ℕ
count_from start zero = []
count_from start (suc n) = start ∷ count_from (suc start) n

-- `start_index + offset` is a usize, of 64 bits.
unfoldable pub provider_attempt_indices : ℕ → ℕ → List ℕ
provider_attempt_indices provider_count start_index =
    map (λ offset. (start_index + offset) % 18446744073709551616 % provider_count)
      (count_from 0 provider_count)

-- A provider's reply: an evaluation that could be decoded, a text that could not, or an error of the
-- call, on which the next provider is tried or not.
pub data Reply : Type 0 where
  decoded : LlmJudgeEvaluation → Reply
  undecodable : String → Reply
  call_failed : Bool → String → Reply

pub data Judged : Type 0 where
  evaluated : LlmJudgeEvaluation → Judged
  exhausted : Judged
  call_error : String → Judged
  no_providers : Judged

abbrev pub take_reply : List String → Reply → Judged → Judged
take_reply ids (undecodable text) next = next
take_reply ids (call_failed true text) next = next
take_reply ids (call_failed false text) next = call_error text
take_reply ids (decoded evaluation) next = elim (validate_judge_response evaluation ids) [
  | none ↦ evaluated evaluation
  | some fault ↦ next
]

-- The loop over the providers. Its last error only words the message at its end.
unfoldable pub try_providers : List String → (ℕ → Reply) → List ℕ → Judged
try_providers ids reply [] = exhausted
try_providers ids reply (provider ∷ providers) =
    let rest = try_providers ids reply providers in take_reply ids (reply provider) rest

unfoldable pub judge : ℕ → ℕ → List String → (ℕ → Reply) → Judged
judge provider_count start_index ids reply =
    if provider_count == 0
    then no_providers
    else try_providers ids reply (provider_attempt_indices provider_count start_index)

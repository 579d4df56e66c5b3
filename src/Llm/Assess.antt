-- ===== src/Llm/Assess.antt =====
-- llm/app/application/assess_orders.py, with the adapter llm/app/infrastructure/llm/openai_assessor.py
-- and the publisher of llm/app/infrastructure/messaging/publisher.py.
-- What the model answers to a request, and what becomes of each publication, are given with the
-- state: the two lists are used up call by call. When they run out, the model times out and the
-- broker takes and confirms everything.
pub mod Batch
use profi_notifications.Prelude.Json.{Fields}
use profi_notifications.Prelude.{
  ℕ, Bool, true, false, List, [], ◌∷◌, ◌++◌, Text, leb, if◌then◌else◌,
}
use profi_notifications.Llm.Domain.{Assessment, ContractorProfile, DecisionReason, decide}
use profi_notifications.Llm.Listing.{Listing}
use profi_notifications.Llm.Wire.{AssessmentResultMessage, build_result, from_result}
use profi_notifications.Llm.Prompts.{Message, build_messages}

-- LlmAssessmentSchema, with the range of its score already checked by pydantic.
pub record LlmAssessmentSchema : Type 0 where
  pub summary : Text
  pub detected_skills : List Text
  pub matched_strong : List Text
  pub matched_working : List Text
  pub unsupported_hits : List Text
  pub is_rejected_type : Bool
  pub suitability_score : ℕ
  pub rationale : Text

-- What the client of the model raises: the classes that the adapter names, another APIStatusError
-- with its code, and any other exception.
pub data LlmError : Type 0 where
  rate_limit api_connection internal_server : LlmError
  bad_request authentication permission_denied not_found conflict unprocessable_entity : LlmError
  api_status : ℕ → LlmError
  length_finish_reason validation_error : LlmError
  other_error : LlmError

pub data Reply : Type 0 where
  answer : LlmAssessmentSchema → Reply
  raised : LlmError → Reply

-- The classes of llm/app/application/errors.py, and every other exception.
pub data Failure : Type 0 where
  transient permanent unexpected : Failure

pub data Assessed : Type 0 where
  assessed : Assessment → Assessed
  failed : Failure → Assessed

unfoldable pub failure_of : LlmError → Failure
failure_of rate_limit = transient
failure_of api_connection = transient
failure_of internal_server = transient
failure_of (api_status code) = if leb 500 code then transient else permanent
failure_of other_error = unexpected
failure_of _ = permanent

unfoldable pub to_assessment : LlmAssessmentSchema → Assessment
to_assessment schema = record {
  summary = schema.summary;
  suitability_score = schema.suitability_score;
  unsupported_hits = schema.unsupported_hits;
  is_rejected_type = schema.is_rejected_type;
  matched_strong = schema.matched_strong;
  matched_working = schema.matched_working;
  rationale = schema.rationale;
}

unfoldable pub read_reply : Reply → Assessed
unfolding failure_of to_assessment
read_reply (answer schema) = assessed (to_assessment schema)
read_reply (raised e) = failed (failure_of e)

pub data LogLine : Type 0 where
  result_published : Text → ℕ → LogLine
  order_skipped : Text → DecisionReason → LogLine
  assessment_retry_scheduled order_failed order_unexpected_error : Text → LogLine

-- What becomes of a publication: the broker takes and confirms it; it does not take it, and the call
-- raises; or it takes it and the confirm is lost, so that the call raises all the same.
pub data Confirm : Type 0 where
  confirmed refused unconfirmed : Confirm

abbrev pub returned : Confirm → Bool
returned confirmed = true
returned refused = false
returned unconfirmed = false

abbrev pub reached : Confirm → Bool
reached confirmed = true
reached refused = false
reached unconfirmed = true

pub record World : Type 0 where
  pub replies : List Reply
  pub confirms : List Confirm
  pub requests : List (List Message)
  pub results : List AssessmentResultMessage
  pub retries : List Fields
  pub log : List LogLine

abbrev pub next_reply : List Reply → Reply
next_reply [] = raised api_connection
next_reply (r ∷ rs) = r

abbrev pub later {ℓ} : {A : Type ℓ} → List A → List A
later [] = []
later (x ∷ xs) = xs

abbrev pub next_confirm : List Confirm → Confirm
next_confirm [] = confirmed
next_confirm (c ∷ cs) = c

-- What reaches its queue.
abbrev pub delivered {ℓ} : {A : Type ℓ} → Confirm → A → List A → List A
delivered c x queue = if reached c then queue ++ x ∷ [] else queue

-- OpenAiAssessor.assess
unfoldable pub assess : ContractorProfile → Listing → World → Assessed × World
unfolding read_reply
assess profile listing w = (
  read_reply (next_reply w.replies),
  record w {
    replies = later w.replies;
    requests = w.requests ++ build_messages listing profile ∷ [];
  },
)

unfoldable pub write_log : LogLine → World → World
write_log line w = record w { log = w.log ++ line ∷ [] }

-- RabbitResultPublisher.publish; the Boolean tells whether it returned.
unfoldable pub publish_result : AssessmentResultMessage → World → Bool × World
publish_result message w = (
  returned (next_confirm w.confirms),
  record w {
    confirms = later w.confirms;
    results = delivered (next_confirm w.confirms) message w.results;
  },
)

-- The three handlers of `_assess_one`: only a transient failure is to be tried again.
unfoldable pub recover : Listing → Failure → World → Bool × World
unfolding write_log
recover listing transient w = (false, write_log (assessment_retry_scheduled listing.id) w)
recover listing permanent w = (true, write_log (order_failed listing.id) w)
recover listing unexpected w = (true, write_log (order_unexpected_error listing.id) w)

-- What follows a publication: an exception of the broker is an unexpected one.
unfoldable pub after_publish : Listing → ℕ → Bool × World → Bool × World
unfolding write_log recover
after_publish listing score (true, w) = (true, write_log (result_published listing.id score) w)
after_publish listing score (false, w) = recover listing unexpected w

module _ (profile : ContractorProfile) (threshold : ℕ) where
  unfoldable pub on_assessed : Listing → Assessed → World → Bool × World
  unfolding write_log recover after_publish publish_result
  on_assessed listing (failed e) w = recover listing e w
  on_assessed listing (assessed a) w =
      if (decide a threshold).notify
      then after_publish listing a.suitability_score
          (publish_result (from_result (build_result listing a)) w)
      else (true, write_log (order_skipped listing.id (decide a threshold).reason) w)

  -- AssessOrders._assess_one
  unfoldable pub assess_one : Listing → World → Bool × World
  unfolding on_assessed assess
  assess_one listing w = let (a, w') = assess profile listing w in on_assessed listing a w'

  -- AssessOrders.handle: the ids to try again, in order.
  unfoldable pub handle : List Listing → World → List Text × World
  unfolding assess_one
  handle [] w = ([], w)
  handle (listing ∷ listings) w =
      let (done, w') = assess_one listing w in
      let (rest, w'') = handle listings w' in (if done then rest else listing.id ∷ rest, w'')

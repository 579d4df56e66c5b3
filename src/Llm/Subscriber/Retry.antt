-- ===== src/Llm/Subscriber/Retry.antt =====
-- Which orders of a message come again.
use profi_notifications.Prelude.Json.{Fields}
use profi_notifications.Llm.Wire.{dump_message}
use profi_notifications.Llm.Assess.Batch.{batch_asked, is_transient, transient_ids}
use profi_notifications.Llm.Mapping.{price_raises, order_to_listing}
use profi_notifications.Llm.Assess.{
  delivered, unconfirmed, refused, returned, confirmed, Confirm, next_confirm, next_confirm,
  to_assessment, answer, LlmAssessmentSchema, write_log, recover, publish_result, next_reply,
  after_publish, read_reply, on_assessed, assess, assess_one, World, handle, later, Reply,
}
use profi_notifications.Llm.Domain.{decide, ContractorProfile}
use profi_notifications.Prelude.{
  ◌||◌, Bool-cases, text_eq, ◌||◌, refl, text_eq, ◌∙◌, false, inr, ◌++◌, ◌≢◌, inl, ◌⊎◌, filter,
  true, map, if◌then◌else◌, [], Text, arith, ◌≡◌, ◌∷◌, Bool, ℕ, List,
}
use profi_notifications.Llm.Subscriber.{
  text_eq, listing_raises, false, dump_message, filter, true, [], map, Text, publish_retry,
  retry_message, after_batch, ◌∷◌, ParseResultMessage, Bool, ℕ, order_to_listing, is_retryable,
  List, Order, ContractorProfile, on_assess_requests,
}

-- The orders whose reply is a transient failure, the replies in the order of the orders.
abbrev pub transient_orders : List Order → List Reply → List Order
transient_orders [] rs = []
transient_orders (o ∷ os) rs =
    let rest = transient_orders os (later rs) in
    if is_transient (read_reply (next_reply rs)) then o ∷ rest else rest

-- Whether some order of a list has the id.
abbrev pub has_id : Text → List Order → Bool
has_id id [] = false
has_id id (o ∷ os) = text_eq id o.id || has_id id os

-- The orders of a list that have the id of one that failed.
abbrev pub with_ids_of : List Order → List Order → List Order
with_ids_of failed [] = []
with_ids_of failed (o ∷ os) =
    let rest = with_ids_of failed os in if has_id o.id failed then o ∷ rest else rest

abbrev pub ids_of : List Order → List Text
ids_of [] = []
ids_of (o ∷ os) = o.id ∷ ids_of os

transient_ids-orders :
    (os : List Order) (rs : List Reply)
    → transient_ids (map order_to_listing os) rs ≡ ids_of (transient_orders os rs)
unfolding order_to_listing
transient_ids-orders [] rs = refl
transient_ids-orders (o ∷ os) rs = ground (arith, transient_ids-orders os (later rs))

is_retryable-ids :
    (failed : List Order) (o : Order) → is_retryable (ids_of failed) o ≡ has_id o.id failed
unfolding is_retryable
is_retryable-ids [] o = refl
is_retryable-ids (f ∷ failed) o = ground (arith, is_retryable-ids failed o)

filter-ids :
    (failed os : List Order) → filter (is_retryable (ids_of failed)) os ≡ with_ids_of failed os
filter-ids failed [] = refl
filter-ids failed (o ∷ os) = ground (arith, filter-ids failed os, is_retryable-ids failed o)

-- The message that is to come again: the same one, with only those orders.
abbrev pub message_again : ParseResultMessage → List Order → ParseResultMessage
message_again message failed = record message { orders = with_ids_of failed message.orders }

-- What becomes of a message whose retry message is published, by the broker's answer.
abbrev pub IsAnswered : Fields → World → Confirm → Bool × World → Type 0
IsAnswered again w confirmed (acked, w') = (acked ≡ true) × (w'.retries ≡ w.retries ++ again ∷ [])
IsAnswered again w refused (acked, w') = (acked ≡ false) × (w'.retries ≡ w.retries)
IsAnswered again w unconfirmed (acked, w') =
    (acked ≡ false) × (w'.retries ≡ w.retries ++ again ∷ [])

publish_retry-IsAnswered :
    (message : ParseResultMessage) (w v : World)
    → v.retries ≡ w.retries
    → IsAnswered (dump_message message) w (next_confirm v.confirms) (publish_retry message v)
unfolding publish_retry
publish_retry-IsAnswered message w v e = go (next_confirm v.confirms)
  where
    go :
        (c : Confirm)
        → IsAnswered (dump_message message) w c (
          returned c,
          record v {
            confirms = later v.confirms;
            retries = delivered c (dump_message message) v.retries;
          },
        )
    go confirmed = (refl, rw e refl)
    go refused = (refl, e)
    go unconfirmed = (refl, rw e refl)

retry_message-ids :
    (message : ParseResultMessage) (failed : List Order)
    → retry_message (ids_of failed) message ≡ message_again message failed
unfolding retry_message
retry_message-ids message failed = rw (filter-ids failed message.orders) refl

-- What the subscriber does once the batch is assessed.
abbrev Rest : ParseResultMessage → List Order → World → World → Bool × World → Type 0
Rest message failed w v out =
    ((failed ≡ []) × (out ≡ (true, v)) × (out.1.retries ≡ w.retries))
    ⊎ ((failed ≢ [])
        × IsAnswered (dump_message (message_again message failed)) w (next_confirm v.confirms) out)

after_batch-Rest :
    (message : ParseResultMessage) (failed : List Order) (w v : World)
    → v.retries ≡ w.retries
    → Rest message failed w v (after_batch message (ids_of failed, v))
unfolding after_batch
after_batch-Rest message [] w v e = inl (refl, refl, e)
after_batch-Rest message (f ∷ failed) w v e = inr (
  λ n. cc,
  rw (retry_message-ids message (f ∷ failed))
      (publish_retry-IsAnswered (message_again message (f ∷ failed)) w v e),
)

batch-Rest :
    (message : ParseResultMessage) (failed : List Order) (w : World) (out : List Text × World)
    → out.0 ≡ ids_of failed
    → out.1.retries ≡ w.retries
    → Rest message failed w out.1 (after_batch message out)
batch-Rest message failed w (ids, v) i e = rw i (after_batch-Rest message failed w v e)

module _ (profile : ContractorProfile) (threshold : ℕ) where
  -- The state after the assessment of the orders of a message.
  abbrev pub assessed_batch : ParseResultMessage → World → World
  assessed_batch message w = (handle profile threshold (map order_to_listing message.orders) w).1

  -- For a message of assess.requests, one of three holds. The price of some order has more
  -- digits than `int` takes, the message is rejected, and nothing was done. Or no assessment
  -- failed transiently, the message is acknowledged and nothing is put into the retry queue.
  -- Or some did: then the same message with those orders that have the id of one that failed
  -- transiently is published for a retry; if the broker confirms it, it is in the retry queue
  -- and the message is acknowledged; if the broker does not take it, the message is rejected;
  -- if the broker takes it but the confirm is lost, it is in the retry queue and the message is
  -- rejected all the same.
  pub requests_settled :
      (message : ParseResultMessage) (w : World)
      → let out = on_assess_requests profile threshold message w in
        let failed = transient_orders message.orders w.replies in
        ((listing_raises message.orders ≡ true) × (out ≡ (false, w)))
        ⊎ ((listing_raises message.orders ≡ false)
            × (failed ≡ [])
            × (out ≡ (true, assessed_batch message w))
            × (out.1.retries ≡ w.retries))
        ⊎ ((listing_raises message.orders ≡ false)
            × (failed ≢ [])
            × IsAnswered
                (dump_message (message_again message failed))
                w
                (next_confirm (assessed_batch message w).confirms)
                out)
  unfolding on_assess_requests
  requests_settled message w = elim (Bool-cases (listing_raises message.orders)) [
    | inl e ↦ inl (e, rw e refl)
    | inr e ↦
        let listings = map order_to_listing message.orders in
        let (ids, _, kept) = batch_asked profile threshold listings w in
        rw e
          (elim (batch-Rest message (transient_orders message.orders w.replies) w
            (handle profile threshold listings w)
            (ids ∙ transient_ids-orders message.orders w.replies) kept) [
              | inl (a, b, c) ↦ inr (inl (refl, a, b, c))
              | inr (a, b) ↦ inr (inr (refl, a, b))
            ])
  ]

  -- If the price of the only order of a message has no more digits than `int` takes, the model lets
  -- the order through and the broker does not take its verdict, then the message is acknowledged, no verdict is sent and nothing is left to be tried again.
  pub unsent_verdict_lost :
      (message : ParseResultMessage) (order : Order) (schema : LlmAssessmentSchema) (w : World)
      → message.orders ≡ order ∷ []
      → price_raises order.price ≡ false
      → next_reply w.replies ≡ answer schema
      → (decide (to_assessment schema) threshold).notify ≡ true
      → next_confirm w.confirms ≡ refused
      → let (acked, w') = on_assess_requests profile threshold message w in
        (acked ≡ true) × (w'.results ≡ w.results) × (w'.retries ≡ w.retries)
  unfolding on_assess_requests listing_raises after_batch handle assess_one assess on_assessed
      read_reply after_publish publish_result recover write_log
  unsent_verdict_lost message order schema w one p r d t = rw one (ground (arith))

-- ===== src/Llm/Assess/Batch.antt =====
-- What a batch of orders does, whatever the model and the broker answer.
use profi_notifications.Llm.Prompts.{build_messages}
use profi_notifications.Llm.Wire.{build_result, from_result}
use profi_notifications.Llm.Listing.{Listing}
use profi_notifications.Llm.Domain.{decide, ContractorProfile}
use profi_notifications.Prelude.{
  append_assoc, append-nil, not, if◌then◌else◌, ◌++◌, arith, ◌≡◌, false, [], Text, ◌∷◌, true, Bool,
  List, ℕ,
}
use profi_notifications.Llm.Assess.{
  Message, AssessmentResultMessage, transient, permanent, unexpected, write_log, next_reply,
  assessed, later, read_reply, recover, publish_result, assess, assess_one, World, failed,
  after_publish, Reply, on_assessed, handle, Assessed,
}

-- The ids of the orders whose reply is a transient failure.
abbrev pub is_transient : Assessed → Bool
is_transient (failed transient) = true
is_transient _ = false

abbrev pub transient_ids : List Listing → List Reply → List Text
transient_ids [] rs = []
transient_ids (l ∷ ls) rs =
    let rest = transient_ids ls (later rs) in
    if is_transient (read_reply (next_reply rs)) then l.id ∷ rest else rest

-- The messages for the orders that the policy lets through.
abbrev pub verdict_of : ℕ → Listing → Assessed → List AssessmentResultMessage
verdict_of threshold l (failed e) = []
verdict_of threshold l (assessed a) =
    if (decide a threshold).notify then from_result (build_result l a) ∷ [] else []

abbrev pub verdicts : ℕ → List Listing → List Reply → List AssessmentResultMessage
verdicts threshold [] rs = []
verdicts threshold (l ∷ ls) rs =
    verdict_of threshold l (read_reply (next_reply rs)) ++ verdicts threshold ls (later rs)

-- The prompts for the orders.
abbrev pub prompts : ContractorProfile → List Listing → List (List Message)
prompts profile [] = []
prompts profile (l ∷ ls) = build_messages l profile ∷ prompts profile ls

module _ (profile : ContractorProfile) (threshold : ℕ) where
  on_assessed_lem :
      (l : Listing) (a : Assessed) (w : World)
      → let (done, w') = on_assessed profile threshold l a w in
        (done ≡ not (is_transient a))
        × (w'.requests ≡ w.requests)
        × (w'.replies ≡ w.replies)
        × (w'.retries ≡ w.retries)
        × (w.confirms ≡ []
            → (w'.confirms ≡ []) × (w'.results ≡ w.results ++ verdict_of threshold l a))
  unfolding on_assessed after_publish publish_result recover write_log
  on_assessed_lem l (failed transient) w = ground (arith, append-nil w.results)
  on_assessed_lem l (failed permanent) w = ground (arith, append-nil w.results)
  on_assessed_lem l (failed unexpected) w = ground (arith, append-nil w.results)
  on_assessed_lem l (assessed a) w = ground (arith, append-nil w.results)

  abbrev Outcome : List Listing → World → List Text × World → Type 0
  Outcome ls w (ids, w') =
      (ids ≡ transient_ids ls w.replies)
      × (w'.requests ≡ w.requests ++ prompts profile ls)
      × (w'.retries ≡ w.retries)
      × (w.confirms ≡ []
          → (w'.confirms ≡ []) × (w'.results ≡ w.results ++ verdicts threshold ls w.replies))

  handle_lem : (ls : List Listing) (w : World) → Outcome ls w (handle profile threshold ls w)
  unfolding handle assess_one assess
  handle_lem [] w = ground (arith, append-nil w.results, append-nil w.requests)
  handle_lem (l ∷ ls) w =
      let (a, u) = assess profile l w in
      let rs = later w.replies in
      ground (
        arith,
        on_assessed_lem l a u,
        handle_lem ls (on_assessed profile threshold l a u).1,
        append_assoc w.requests (build_messages l profile ∷ []) (prompts profile ls),
        append_assoc w.results (verdict_of threshold l a) (verdicts threshold ls rs),
      )

  -- Whatever the model and the broker answer, AssessOrders.handle asks the model once for each
  -- order, in order; it returns exactly the ids of the orders whose reply was a transient failure,
  -- in order; and it publishes nothing for a retry.
  pub batch_asked :
      (ls : List Listing) (w : World)
      → let (ids, w') = handle profile threshold ls w in
        (ids ≡ transient_ids ls w.replies)
        × (w'.requests ≡ w.requests ++ prompts profile ls)
        × (w'.retries ≡ w.retries)
  batch_asked ls w = let (i, q, r, _) = handle_lem ls w in (i, q, r)

  -- If the broker takes and confirms every result, AssessOrders.handle publishes the verdicts on exactly those
  -- orders that the policy lets through, in order, whatever the replies to the others.
  pub batch_published :
      (ls : List Listing) (w : World)
      → w.confirms ≡ []
      → let w' = (handle profile threshold ls w).1 in
        (w'.confirms ≡ []) × (w'.results ≡ w.results ++ verdicts threshold ls w.replies)
  batch_published ls w t = let (_, _, _, p) = handle_lem ls w in p t

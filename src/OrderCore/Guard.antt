-- ===== src/OrderCore/Guard.antt =====
-- order-core-service/app/infrastructure/messaging/reliability.py and subscribers.py.
-- The parser `parse` is pydantic's `model_validate` of the message's schema, a parameter.
pub mod Accounts
use profi_notifications.Prelude.{refl, inr, inl, ◌⊎◌, ◌≡◌, [], ◌∷◌, ◌++◌, Text, codes}
use profi_notifications.Prelude.Json.{Fields}
use profi_notifications.OrderCore.Dto.{Exc, Result, ok, err, permanent}
use profi_notifications.OrderCore.Effects.{
  World, LogEntry, message_dead_lettered, dead_letter, publish_message,
}

-- What `model_validate` gives: a message, or a `ValidationError` with its text.
pub data Parsed (M : Type 0) : Type 0 where
  valid : M → Parsed M
  invalid : Text → Parsed M

abbrev pub invalid_payload : Text
invalid_payload = codes "invalid-payload"

abbrev pub permanent_category : Text
permanent_category = codes "permanent"

module _ {D : Type 0} where
  abbrev logging : LogEntry → World D → World D
  logging e w = record w { log = w.log ++ e ∷ [] }

  -- The warning is written only if the broker took the dead letter.
  unfoldable pub warned : LogEntry → Result Unit × World D → Result Unit × World D
  warned e (ok _, w) = (ok tt, logging e w)
  warned e (err x, w) = (err x, w)

  -- DeadLetterPublisher.publish, and the warning
  unfoldable pub bury : Text → Text → Text → Fields → World D → Result Unit × World D
  unfolding warned
  bury queue category reason raw w =
      warned (message_dead_lettered queue category)
        (publish_message (dead_letter category reason raw) w)

  -- Only a `PermanentError` is caught.
  unfoldable pub after_handle : Text → Fields → Result Unit × World D → Result Unit × World D
  after_handle queue raw (ok u, w) = (ok u, w)
  after_handle queue raw (err (permanent reason), w) = bury queue permanent_category reason raw w
  after_handle queue raw (err e, w) = (err e, w)

  -- A result `ok` acknowledges the message, an error sends it back to the queue (NACK_ON_ERROR).
  unfoldable pub guard :
      {M : Type 0}
      → Text
      → (Fields → Parsed M)
      → (M → World D → Result Unit × World D)
      → Fields
      → World D
      → Result Unit × World D
  guard queue parse handle raw w = elim (parse raw) [
    | invalid reason ↦ bury queue invalid_payload reason raw w
    | valid message ↦ after_handle queue raw (handle message w)
  ]

pub Parsed-cases :
    {M : Type 0} (p : Parsed M)
    → ((m : M) × (p ≡ valid m)) ⊎ ((reason : Text) × (p ≡ invalid reason))
Parsed-cases (valid m) = inl (m, refl)
Parsed-cases (invalid reason) = inr (reason, refl)

pub Result-cases : {A : Type 0} (r : Result A) → ((a : A) × (r ≡ ok a)) ⊎ ((e : Exc) × (r ≡ err e))
Result-cases (ok a) = inl (a, refl)
Result-cases (err e) = inr (e, refl)

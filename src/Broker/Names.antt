-- ===== src/Broker/Names.antt =====
-- The names of queues that are made from another by a suffix.
use profi_notifications.Prelude.{
  ap, ◌≡◌, ◌++◌, Text, false, text_eq, text_eq_iff, length, length-append, ◌<◌, arith, Bool-cases,
  ◌≢◌, inl, inr,
}

pub text_eq-different : (s t : Text) → s ≢ t → text_eq s t ≡ false
text_eq-different s t n = elim (Bool-cases (text_eq s t)) [
  | inl e ↦ absurd (n ((text_eq_iff s t).0 e))
  | inr e ↦ e
]

-- A text is not the same with a suffix behind it.
pub text_eq-suffix : (s t : Text) → 0 < length t → text_eq s (s ++ t) ≡ false
text_eq-suffix s t h =
    text_eq-different s (s ++ t) (λ e. omega (arith, h, ap length e, length-append s t))

pub suffix-text_eq : (s t : Text) → 0 < length t → text_eq (s ++ t) s ≡ false
suffix-text_eq s t h =
    text_eq-different (s ++ t) s (λ e. omega (arith, h, ap length e, length-append s t))

-- ===== src/Config/Fields.antt =====
-- What a checked field may hold.
use mathlib.Core.Option.{some-injective, none-ne-some}
use profi_notifications.Prelude.Json.{ℤ}
use profi_notifications.Prelude.{
  ◌∙◌, ap, refl, none, inr, arith, inl, Option-cases, some, ◌≡◌, ◌≤◌, ◌<◌, ℕ, Option, Text,
}
use profi_notifications.Config.{
  ◌>>=◌, some, ℕ, Env, ℤ, Option, Text, number_field, positive, percent,
}

-- What a chain of Options that answers has answered at its first step.
pub bind_some {ℓ κ} :
    {A : Type ℓ} {B : Type κ} {f : A → Option B} {b : B}
    → (o : Option A) → (o >>= f) ≡ some b
    → (a : A) × (o ≡ some a) × (f a ≡ some b)
unfolding ◌>>=◌
bind_some none h = absurd (none-ne-some _ h)
bind_some (some a) h = (a, refl, h)

pub some_bind {ℓ κ} :
    {A : Type ℓ} {B : Type κ} {r : Option B} {a : A}
    → (o : Option A) (f : A → Option B) → o ≡ some a
    → f a ≡ r
    → (o >>= f) ≡ r
unfolding ◌>>=◌
some_bind none f e h = absurd (none-ne-some _ e)
some_bind (some b) f e h = ap f (some-injective _ _ e) ∙ h

module _ (read : Text → Option ℤ) (env : Env) (name : Text) where
  pub positive_field :
      (default n : ℕ) → 0 < default → number_field read positive env name default ≡ some n → 0 < n
  unfolding number_field positive ◌>>=◌
  positive_field default n d h = elim (Option-cases (env name)) [
    | inl e ↦ ground (arith, h, e)
    | inr (t, e) ↦ elim (Option-cases (read t)) [
      | inl f ↦ absurd (ground (arith, h, e, f))
      | inr (z, f) ↦ ground (arith, h, e, f)
    ]
  ]

  pub percent_field :
      (default n : ℕ)
      → default ≤ 100
      → number_field read percent env name default ≡ some n
      → n ≤ 100
  unfolding number_field percent ◌>>=◌
  percent_field default n d h = elim (Option-cases (env name)) [
    | inl e ↦ ground (arith, h, e)
    | inr (t, e) ↦ elim (Option-cases (read t)) [
      | inl f ↦ absurd (ground (arith, h, e, f))
      | inr (z, f) ↦ ground (arith, h, e, f)
    ]
  ]

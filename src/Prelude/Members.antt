-- ===== src/Prelude/Members.antt =====
-- Membership by recursion, which the tactics read, and lists that grow at their end.
use profi_notifications.Prelude.Lists.{take, filter, any}
use mathlib.Core.Path.{subst, ◌≡◌, refl, sym, ap, ◌∙◌}
use mathlib.Core.Logic.{◌⊎◌, inl, inr}
use mathlib.Core.Bool.{Bool, true}
use mathlib.Core.List.{List, [], ◌∷◌, ◌++◌, map, append-nil, append_assoc}
use Prim.Native.Nat.{ℕ, zero, suc}
use native.Mathlib.Omega.{arith}
use profi_notifications.Prelude.Tests.{Bool-cases}

module _ {A : Type 0} where
  abbrev pub In : A → List A → Type 0
  In x [] = ⊥
  In x (y ∷ ys) = (x ≡ y) ⊎ In x ys

  abbrev pub Each : (A → Type 0) → List A → Type 0
  Each P [] = Unit
  Each P (x ∷ xs) = P x × Each P xs

  pub Each-In : (P : A → Type 0) (xs : List A) → Each P xs → (x : A) → In x xs → P x
  Each-In P [] e x h = elim h [ ]
  Each-In P (y ∷ ys) (p, e) x (inl h) = subst P (sym h) p
  Each-In P (y ∷ ys) (p, e) x (inr h) = Each-In P ys e x h

  pub In-append_left : (x : A) (xs ys : List A) → In x xs → In x (xs ++ ys)
  In-append_left x [] ys h = elim h [ ]
  In-append_left x (y ∷ xs) ys (inl e) = inl e
  In-append_left x (y ∷ xs) ys (inr h) = inr (In-append_left x xs ys h)

  pub In-append_right : (x : A) (xs ys : List A) → In x ys → In x (xs ++ ys)
  In-append_right x [] ys h = h
  In-append_right x (y ∷ xs) ys h = inr (In-append_right x xs ys h)

  pub In-append : (x : A) (xs ys : List A) → In x (xs ++ ys) → In x xs ⊎ In x ys
  In-append x [] ys h = inr h
  In-append x (y ∷ xs) ys (inl e) = inl (inl e)
  In-append x (y ∷ xs) ys (inr h) = elim (In-append x xs ys h) [
    | inl l ↦ inl (inr l)
    | inr r ↦ inr r
  ]

  pub In-take : (x : A) (n : ℕ) (xs : List A) → In x (take n xs) → In x xs
  In-take x zero xs h = elim h [ ]
  In-take x (suc n) [] h = elim h [ ]
  In-take x (suc n) (y ∷ xs) (inl e) = inl e
  In-take x (suc n) (y ∷ xs) (inr h) = inr (In-take x n xs h)

  pub In-filter : (p : A → Bool) (x : A) (xs : List A) → In x (filter p xs) → In x xs × (p x ≡ true)
  In-filter p x [] h = elim h [ ]
  In-filter p x (y ∷ xs) h = ground (arith, In-filter p x xs)

  pub any-In : (p : A → Bool) (xs : List A) → any p xs ≡ true → (x : A) × In x xs × (p x ≡ true)
  any-In p [] h = ground arith
  any-In p (y ∷ xs) h = elim (Bool-cases (p y)) [
    | inl e ↦ (y, inl refl, e)
    | inr e ↦ let (x, i, q) = any-In p xs (ground arith) in (x, inr i, q)
  ]

  -- `b` is `a` with more at its end.
  abbrev pub Extends : List A → List A → Type 0
  Extends a b = (more : List A) × (b ≡ a ++ more)

  pub Extends-refl : (a : List A) → Extends a a
  Extends-refl a = ([], sym (append-nil a))

  pub Extends-trans : (a b c : List A) → Extends a b → Extends b c → Extends a c
  Extends-trans a b c (xs, p) (ys, q) = (xs ++ ys, q ∙ ap (λ l. l ++ ys) p ∙ append_assoc a xs ys)

module _ {A B : Type 0} where
  pub In-map : (f : A → B) (y : B) (xs : List A) → In y (map f xs) → (x : A) × In x xs × (y ≡ f x)
  In-map f y [] h = elim h [ ]
  In-map f y (x ∷ xs) (inl e) = (x, inl refl, e)
  In-map f y (x ∷ xs) (inr h) = let (z, i, e) = In-map f y xs h in (z, inr i, e)

  pub map-In : (f : A → B) (x : A) (xs : List A) → In x xs → In (f x) (map f xs)
  map-In f x [] h = elim h [ ]
  map-In f x (y ∷ xs) (inl e) = inl (ap f e)
  map-In f x (y ∷ xs) (inr h) = inr (map-In f x xs h)

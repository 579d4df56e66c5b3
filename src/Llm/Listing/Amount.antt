-- ===== src/Llm/Listing/Amount.antt =====
-- The amount of a price whose thousands are set off by spaces, with other text around it.
use profi_notifications.Prelude.{
  ap, ◌∙◌, length, decimal, ℕ, ◌+◌, ◌*◌, ◌-◌, ◌≤◌, ◌<◌, ◌≡◌, ◌⊎◌, inl, inr, refl, true, false, some,
  [], ◌∷◌, ◌++◌, Text, arith, any, filter, ltb, leb, ◌&&◌, lt→ltb, le→leb, is_digit, is_space,
  digit_value, digit_among, if◌then◌else◌,
}
use profi_notifications.Prelude.Decimals.{read-decimal, read}
use profi_notifications.Llm.Listing.{
  length, amount_of, int_raises, search_amount, amount_run, int_of_digits,
}

abbrev IsAscii : ℕ → Type 0
IsAscii c = (48 ≤ c) × (c < 58)

-- A space of any kind that Python's `\s` knows.
abbrev IsGap : ℕ → Type 0
IsGap c = (is_space c ≡ true) × (is_digit c ≡ false) × (leb 48 c && ltb c 58 ≡ false)

-- Digits of ASCII and spaces only.
abbrev pub IsSpaced : Text → Type 0
IsSpaced [] = Unit
IsSpaced (c ∷ t) = (IsAscii c ⊎ IsGap c) × IsSpaced t

-- The digits of ASCII of a text.
abbrev pub only_digits : Text → Text
only_digits [] = []
only_digits (c ∷ t) = let rest = only_digits t in if leb 48 c && ltb c 58 then c ∷ rest else rest

-- A text that ends the number: empty, or with another first character.
abbrev pub EndsNumber : Text → Type 0
EndsNumber [] = Unit
EndsNumber (c ∷ t) = (is_digit c ≡ false) × (is_space c ≡ false)

ascii_digit : (c : ℕ) → 48 ≤ c → c < 58 → (is_digit c ≡ true) × (digit_value c ≡ c - 48)
unfolding is_digit digit_value digit_among
ascii_digit c a b = rw (le→leb 48 c a, lt→ltb c 58 b) (refl, refl)

run_spaced : (t after : Text) → IsSpaced t → EndsNumber after → amount_run (t ++ after) ≡ t
unfolding amount_run
run_spaced [] [] s e = refl
run_spaced [] (c ∷ after) s (d, p) = ground (arith, d, p)
run_spaced (c ∷ t) after (inl (a, b), s) e =
    ground (arith, (ascii_digit c a b).0, run_spaced t after s e)
run_spaced (c ∷ t) after (inr (p, d, n), s) e = ground (arith, p, run_spaced t after s e)

filter_spaced : (t : Text) → IsSpaced t → filter is_digit t ≡ only_digits t
filter_spaced [] s = refl
filter_spaced (c ∷ t) (inl (a, b), s) = ground (arith, (ascii_digit c a b).0, filter_spaced t s)
filter_spaced (c ∷ t) (inr (p, d, n), s) = ground (arith, d, n, filter_spaced t s)

int_spaced :
    (n : ℕ) (t : Text) → IsSpaced t → int_of_digits n (only_digits t) ≡ read n (only_digits t)
unfolding int_of_digits
int_spaced n [] s = refl
int_spaced n (c ∷ t) (inl (a, b), s) =
    rw (le→leb 48 c a, lt→ltb c 58 b)
      (ap (λ x. int_of_digits (n * 10 + x) (only_digits t)) (ascii_digit c a b).1
        ∙ int_spaced (n * 10 + (c - 48)) t s)
int_spaced n (c ∷ t) (inr (p, d, g), s) = rw g (int_spaced n t s)

search_spaced :
    (before t after : Text) (c : ℕ)
    → any is_digit before ≡ false
    → is_digit c ≡ true
    → IsSpaced t
    → EndsNumber after
    → search_amount (before ++ (c ∷ t) ++ after) ≡ some (c ∷ t)
unfolding search_amount
search_spaced [] t after c n d s e = rw (d, run_spaced t after s e) refl
search_spaced (b ∷ before) t after c n d s e = ground (arith, n, search_spaced before t after c)

-- Let a text have a number in its middle: digits of ASCII and spaces, the first of them a digit, with no
-- digit before it, and behind it nothing or a character that is neither a digit nor a space. If
-- its digits alone are the decimal digits of n, then they are too many for `int` exactly if they
-- are more than 4300, and where they are not, the amount that is read from the text is n.
pub amount_spaced :
    (n : ℕ) (before t after : Text) (c : ℕ)
    → any is_digit before ≡ false
    → (48 ≤ c) × (c < 58)
    → IsSpaced t
    → only_digits (c ∷ t) ≡ decimal n
    → EndsNumber after
    → let found = search_amount (before ++ (c ∷ t) ++ after) in
      (int_raises found ≡ ltb 4300 (length (decimal n))) × (amount_of found ≡ some n)
unfolding int_raises amount_of
amount_spaced n before t after c none_before (a, b) s d e =
    let f = search_spaced before t after c none_before (ascii_digit c a b).0 s e in
    let digits = filter_spaced (c ∷ t) (inl (a, b), s) ∙ d in
    rw f (
      ap (λ x. ltb 4300 (length x)) digits,
      ap some (
          ap (int_of_digits 0) (filter_spaced (c ∷ t) (inl (a, b), s))
          ∙ int_spaced 0 (c ∷ t) (inl (a, b), s)
          ∙ ap (read 0) d
          ∙ read-decimal n),
    )

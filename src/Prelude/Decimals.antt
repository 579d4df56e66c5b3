-- ===== src/Prelude/Decimals.antt =====
-- The decimal digits of a number are read back as the number.
use profi_notifications.Prelude.{
  zero, refl, ◌-◌, ◌%◌, ◌+◌, [], ◌/◌, ◌*◌, ◌++◌, ◌∷◌, suc, arith, Text, ◌≡◌, ◌<◌, ℕ,
}
use profi_notifications.Prelude.Python.{decimal_of, decimal}

-- `int` of a text of ASCII digits
abbrev pub read : ℕ → Text → ℕ
read n [] = n
read n (c ∷ t) = read (n * 10 + (c - 48)) t

read-append : (n c : ℕ) (s : Text) → read n (s ++ c ∷ []) ≡ read n s * 10 + (c - 48)
read-append n c [] = refl
read-append n c (d ∷ s) = read-append (n * 10 + (d - 48)) c s

read-decimal_of : (fuel n : ℕ) → n < fuel → read 0 (decimal_of fuel n) ≡ n
unfolding decimal_of
read-decimal_of zero n h = omega (arith, h)
read-decimal_of (suc fuel) n h =
    ground
      (arith, read-decimal_of fuel (n / 10), read-append 0 (48 + n % 10) (decimal_of fuel (n / 10)))

pub read-decimal : (n : ℕ) → read 0 (decimal n) ≡ n
unfolding decimal
read-decimal n = read-decimal_of (suc n) n (omega arith)

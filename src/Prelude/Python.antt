-- ===== src/Prelude/Python.antt =====
-- Methods of Python's `str`, for Python 3.12 and its Unicode 15.0.
use Prim.Native.Nat.{ℕ, zero, suc, ◌+◌, ◌-◌, ◌/◌, ◌%◌}
use mathlib.Core.Bool.{Bool, true, false, ◌&&◌}
use mathlib.Core.List.{List, [], ◌∷◌, ◌++◌}
use profi_notifications.Prelude.Tests.{ltb, leb, ◌==◌, if◌then◌else◌}
use profi_notifications.Prelude.Lists.{any}
use profi_notifications.Prelude.Strings.{Text}

-- The characters for which `isspace` holds; `\s` of `re` is the same set.
abbrev spaces : List ℕ
spaces =
    9 ∷ 10 ∷ 11 ∷ 12 ∷ 13 ∷ 28 ∷ 29 ∷ 30 ∷ 31 ∷ 32 ∷ 133 ∷ 160 ∷ 5760 ∷ 8192 ∷ 8193 ∷ 8194 ∷ 8195
    ∷ 8196 ∷ 8197 ∷ 8198 ∷ 8199 ∷ 8200 ∷ 8201 ∷ 8202 ∷ 8232 ∷ 8233 ∷ 8239 ∷ 8287 ∷ 12288 ∷ []

unfoldable pub is_space : ℕ → Bool
is_space c = any (λ s. s == c) spaces

-- The zeros of the decimal digits (category Nd), which `\d` and `int` read; each has its nine
-- successors.
abbrev zeros : List ℕ
zeros =
    48 ∷ 1632 ∷ 1776 ∷ 1984 ∷ 2406 ∷ 2534 ∷ 2662 ∷ 2790 ∷ 2918 ∷ 3046 ∷ 3174 ∷ 3302 ∷ 3430 ∷ 3558
    ∷ 3664 ∷ 3792 ∷ 3872 ∷ 4160 ∷ 4240 ∷ 6112 ∷ 6160 ∷ 6470 ∷ 6608 ∷ 6784 ∷ 6800 ∷ 6992 ∷ 7088
    ∷ 7232 ∷ 7248 ∷ 42528 ∷ 43216 ∷ 43264 ∷ 43472 ∷ 43504 ∷ 43600 ∷ 44016 ∷ 65296 ∷ 66720 ∷ 68912
    ∷ 69734 ∷ 69872 ∷ 69942 ∷ 70096 ∷ 70384 ∷ 70736 ∷ 70864 ∷ 71248 ∷ 71360 ∷ 71472 ∷ 71904 ∷ 72016
    ∷ 72784 ∷ 73040 ∷ 73120 ∷ 73552 ∷ 92768 ∷ 92864 ∷ 93008 ∷ 120782 ∷ 120792 ∷ 120802 ∷ 120812
    ∷ 120822 ∷ 123200 ∷ 123632 ∷ 124144 ∷ 125264 ∷ 130032 ∷ []

abbrev in_digits : ℕ → ℕ → Bool
in_digits c z = leb z c && ltb c (z + 10)

unfoldable pub is_digit : ℕ → Bool
is_digit c = any (in_digits c) zeros

unfoldable pub digit_among : ℕ → List ℕ → ℕ
digit_among c [] = 0
digit_among c (z ∷ zs) = let rest = digit_among c zs in if in_digits c z then c - z else rest

-- The value of a digit.
unfoldable pub digit_value : ℕ → ℕ
unfolding digit_among
digit_value c = digit_among c zeros

abbrev pub is_empty {ℓ} : {A : Type ℓ} → List A → Bool
is_empty [] = true
is_empty (x ∷ xs) = false

unfoldable pub lstrip : Text → Text
lstrip [] = []
lstrip (c ∷ t) = let rest = lstrip t in if is_space c then rest else c ∷ t

unfoldable pub rstrip : Text → Text
rstrip [] = []
rstrip (c ∷ t) = let rest = rstrip t in if is_space c && is_empty rest then [] else c ∷ rest

unfoldable pub strip : Text → Text
strip t = rstrip (lstrip t)

-- `sep.join(parts)`
unfoldable pub join : Text → List Text → Text
join sep [] = []
join sep (p ∷ []) = p
join sep (p ∷ q ∷ ps) = p ++ sep ++ join sep (q ∷ ps)

-- `str(n)`, with one unit of fuel for a digit: `suc n` is enough, for a division by ten decreases.
unfoldable pub decimal_of : ℕ → ℕ → Text
decimal_of zero n = []
decimal_of (suc fuel) n =
    let rest = decimal_of fuel (n / 10) in
    if ltb n 10 then (48 + n) ∷ [] else rest ++ (48 + n % 10) ∷ []

unfoldable pub decimal : ℕ → Text
unfolding decimal_of
decimal n = decimal_of (suc n) n

-- `lower` on the letters of ASCII and of the Russian alphabet. The other letters are left as they
-- are: none of them becomes a letter of a Russian word.
unfoldable pub lower_letter : ℕ → ℕ
lower_letter c =
    if leb 65 c && leb c 90
    then c + 32
    else if leb 1040 c && leb c 1071
    then c + 32
    else if leb 1024 c && leb c 1039
    then c + 80
    else c

unfoldable pub lower : Text → Text
lower [] = []
lower (c ∷ t) = lower_letter c ∷ lower t

-- ===== src/Prelude/Quote.antt =====
-- urllib.parse.quote(string, safe="") of Python: UTF-8, and an escape for each byte that no URL needs
-- to have escaped.
pub mod RoundTrip
use Prim.Native.Nat.{ℕ, ◌+◌, ◌*◌, ◌/◌, ◌%◌}
use mathlib.Core.Bool.{Bool, ◌&&◌, ◌||◌}
use mathlib.Core.Option.{Option, none, some}
use mathlib.Core.List.{List, [], ◌∷◌, ◌++◌}
use profi_notifications.Prelude.Tests.{ltb, leb, ◌==◌, if◌then◌else◌}
use profi_notifications.Prelude.Strings.{Text}

-- The bytes of a character; a surrogate has none (UnicodeEncodeError), and beyond U+10FFFF there is
-- no character.
unfoldable pub utf8_char : ℕ → Option (List ℕ)
utf8_char c =
    if ltb c 128
    then some (c ∷ [])
    else if ltb c 2048
    then some ((192 + c / 64) ∷ (128 + c % 64) ∷ [])
    else if leb 55296 c && leb c 57343
    then none
    else if ltb c 65536
    then some ((224 + c / 4096) ∷ (128 + c / 64 % 64) ∷ (128 + c % 64) ∷ [])
    else if ltb c 1114112
    then some
        ((240 + c / 262144) ∷ (128 + c / 4096 % 64) ∷ (128 + c / 64 % 64) ∷ (128 + c % 64) ∷ [])
    else none

unfoldable pub append_bytes : Option (List ℕ) → Option (List ℕ) → Option (List ℕ)
append_bytes none rest = none
append_bytes (some bs) none = none
append_bytes (some bs) (some rest) = some (bs ++ rest)

-- `string.encode("utf-8")`
unfoldable pub utf8 : Text → Option (List ℕ)
unfolding utf8_char append_bytes
utf8 [] = some []
utf8 (c ∷ t) = append_bytes (utf8_char c) (utf8 t)

-- Letters, digits and `_.-~`
unfoldable pub is_unreserved : ℕ → Bool
is_unreserved b =
    (leb 65 b && leb b 90)
    || (leb 97 b && leb b 122)
    || (leb 48 b && leb b 57)
    || b == 95
    || b == 46
    || b == 45
    || b == 126

unfoldable pub hex_digit : ℕ → ℕ
hex_digit n = if ltb n 10 then 48 + n else 55 + n

-- The byte itself, or its `%XX`.
unfoldable pub quote_byte : ℕ → Text
unfolding is_unreserved hex_digit
quote_byte b = if is_unreserved b then b ∷ [] else 37 ∷ hex_digit (b / 16) ∷ hex_digit (b % 16) ∷ []

unfoldable pub quote_bytes : List ℕ → Text
unfolding quote_byte
quote_bytes [] = []
quote_bytes (b ∷ bs) = quote_byte b ++ quote_bytes bs

unfoldable pub quoted : Option (List ℕ) → Option Text
unfolding quote_bytes
quoted none = none
quoted (some bs) = some (quote_bytes bs)

unfoldable pub quote : Text → Option Text
unfolding quoted utf8
quote t = quoted (utf8 t)

-- ===== src/Prelude/Quote/RoundTrip.antt =====
-- What a reader of URLs makes of a quoted text.
use mathlib.Core.Option.{some-injective}
use profi_notifications.Prelude.{
  any-append, false, any, ◌⊎◌, sym, inr, inl, Option-cases, zero, ap, [], suc, ◌==◌, arith, ◌∙◌,
  ltb, ◌++◌, ◌∷◌, some, List, Text, if◌then◌else◌,
}
use Prim.Native.Nat.{suc, ℕ, ◌+◌, ◌-◌, ◌*◌, ◌<◌}
use mathlib.Core.Path.{sym, ap, ◌≡◌, refl}
use profi_notifications.Prelude.Quote.{
  quoted, quote, hex_digit, is_unreserved, append_bytes, utf8, List, quote_byte, quote_bytes,
  if◌then◌else◌, utf8_char, Text,
}

-- A reader of `%XX`: what it has read of an escape, and the text.
pub data Seen : Type 0 where
  plain percent : Seen
  half : ℕ → Seen

abbrev unhex : ℕ → ℕ
unhex c = if ltb c 65 then c - 48 else c - 55

unfoldable pub unquote_bytes : Seen → Text → List ℕ
unquote_bytes s [] = []
unquote_bytes plain (c ∷ t) =
    let escape = unquote_bytes percent t in
    let next = unquote_bytes plain t in if c == 37 then escape else c ∷ next
unquote_bytes percent (c ∷ t) = unquote_bytes (half (unhex c)) t
unquote_bytes (half h) (c ∷ t) = (h * 16 + unhex c) ∷ unquote_bytes plain t

-- A reader of UTF-8: the continuation bytes that a character still needs, and what it is so far.
unfoldable pub decode : ℕ → ℕ → List ℕ → Text
decode need acc [] = []
decode zero acc (b ∷ bs) =
    let one = decode 0 0 bs in
    let two = decode 1 (b - 192) bs in
    let three = decode 2 (b - 224) bs in
    let four = decode 3 (b - 240) bs in
    if ltb b 128 then b ∷ one else if ltb b 224 then two else if ltb b 240 then three else four
decode (suc zero) acc (b ∷ bs) = (acc * 64 + (b - 128)) ∷ decode 0 0 bs
decode (suc (suc need)) acc (b ∷ bs) = decode (suc need) (acc * 64 + (b - 128)) bs

abbrev pub unquote : Text → Text
unquote t = decode 0 0 (unquote_bytes plain t)

abbrev AllBytes : List ℕ → Type 0
AllBytes [] = Unit
AllBytes (b ∷ bs) = (b < 256) × AllBytes bs

append-AllBytes : (xs ys : List ℕ) → AllBytes xs → AllBytes ys → AllBytes (xs ++ ys)
append-AllBytes [] ys h k = k
append-AllBytes (x ∷ xs) ys (a, h) k = (a, append-AllBytes xs ys h k)

unquote-quote_byte :
    (b : ℕ) (t : Text)
    → b < 256
    → unquote_bytes plain (quote_byte b ++ t) ≡ b ∷ unquote_bytes plain t
unfolding unquote_bytes quote_byte is_unreserved hex_digit
unquote-quote_byte b t h = ground arith

unquote-quote_bytes : (bs : List ℕ) → AllBytes bs → unquote_bytes plain (quote_bytes bs) ≡ bs
unfolding quote_bytes unquote_bytes
unquote-quote_bytes [] h = refl
unquote-quote_bytes (b ∷ bs) (a, h) =
    unquote-quote_byte b (quote_bytes bs) a ∙ ap (λ r. b ∷ r) (unquote-quote_bytes bs h)

-- A character that is encoded is decoded again, and its bytes are bytes.
utf8_char_lem :
    (c : ℕ) (bs rest : List ℕ)
    → utf8_char c ≡ some bs
    → AllBytes bs × (decode 0 0 (bs ++ rest) ≡ c ∷ decode 0 0 rest)
unfolding utf8_char decode
utf8_char_lem c bs rest h = ground arith

utf8_lem : (t : Text) (bs : List ℕ) → utf8 t ≡ some bs → AllBytes bs × (decode 0 0 bs ≡ t)
unfolding utf8 append_bytes decode
utf8_lem [] bs h = ground arith
utf8_lem (c ∷ t) bs h = elim (Option-cases (utf8_char c)) [
  | inl e ↦ absurd (ground (arith, h, e))
  | inr (x, e) ↦ elim (Option-cases (utf8 t)) [
    | inl f ↦ absurd (ground (arith, h, e, f))
    | inr (y, f) ↦
        let (a, d) = utf8_char_lem c x y e in
        let (a', d') = utf8_lem t y f in
        let same : bs ≡ x ++ y = some-injective _ _ (sym h ∙ rw (e, f) refl) in
        rw same (append-AllBytes x y a a', d ∙ ap (λ r. c ∷ r) d')
  ]
]

quoted_bytes :
    (t q : Text) → quote t ≡ some q → (bs : List ℕ) × (utf8 t ≡ some bs) × (q ≡ quote_bytes bs)
unfolding quote quoted
quoted_bytes t q h = elim (Option-cases (utf8 t)) [
  | inl e ↦ absurd (ground (arith, h, e))
  | inr (bs, e) ↦ (bs, e, some-injective _ _ (sym h ∙ rw e refl))
]

pub unquote-quote : (t q : Text) → quote t ≡ some q → unquote q ≡ t
unquote-quote t q h =
    let (bs, e, p) = quoted_bytes t q h in
    let (a, d) = utf8_lem t bs e in ap unquote p ∙ ap (decode 0 0) (unquote-quote_bytes bs a) ∙ d

-- `:`, `@` and `/`
abbrev pub IsDelimiter : ℕ → Type 0
IsDelimiter d = (d ≡ 58) ⊎ (d ≡ 64) ⊎ (d ≡ 47)

quote_byte-IsDelimiter :
    (b d : ℕ) → b < 256 → IsDelimiter d → any (λ c. c == d) (quote_byte b) ≡ false
unfolding quote_byte is_unreserved hex_digit
quote_byte-IsDelimiter b d h i = ground arith

quote_bytes-IsDelimiter :
    (bs : List ℕ) (d : ℕ) → AllBytes bs → IsDelimiter d → any (λ c. c == d) (quote_bytes bs) ≡ false
unfolding quote_bytes
quote_bytes-IsDelimiter [] d a i = refl
quote_bytes-IsDelimiter (b ∷ bs) d (h, a) i = ground (
  arith,
  any-append (λ c. c == d) (quote_byte b) (quote_bytes bs),
  quote_byte-IsDelimiter b d h i,
  quote_bytes-IsDelimiter bs d a i,
)

pub quote-IsDelimiter :
    (t q : Text) (d : ℕ) → quote t ≡ some q → IsDelimiter d → any (λ c. c == d) q ≡ false
quote-IsDelimiter t q d h i =
    let (bs, e, p) = quoted_bytes t q h in
    ap (λ (x : Text). any (λ c. c == d) x) p ∙ quote_bytes-IsDelimiter bs d (utf8_lem t bs e).0 i

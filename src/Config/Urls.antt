-- ===== src/Config/Urls.antt =====
-- What a reader of a URL finds in it.
use mathlib.Core.Path.{subst}
use profi_notifications.Prelude.Json.{negsuc, pos, ℤ}
use mathlib.Core.Option.{some-injective}
use profi_notifications.Prelude.Quote.RoundTrip.{
  decode, unquote_bytes, unquote-quote, quote-IsDelimiter, unquote,
}
use profi_notifications.Prelude.{
  zero, ◌%◌, ◌+◌, any-append, ◌/◌, decimal, suc, ap, decimal_of, refl, append_assoc, ◌∙◌, sym, inr,
  inl, Option-cases, codes, some, arith, ◌++◌, false, [], ◌≡◌, ◌==◌, if◌then◌else◌, ◌∷◌, any, Text,
  ℕ,
}
use profi_notifications.Config.{
  ◌>>=◌, postgres_url, amqp_url, negsuc, pos, decimal, ℤ, str_int, vhost_enc, codes, some,
  credentials, quote, [], ◌∷◌, Text, ℕ,
}

-- Up to the first character `d`, and what follows it.
abbrev pub cut : ℕ → Text → Text × Text
cut d [] = ([], [])
cut d (c ∷ t) = let (a, b) = cut d t in if c == d then ([], t) else (c ∷ a, b)

cut-append : (d : ℕ) (s t : Text) → any (λ c. c == d) s ≡ false → cut d (s ++ d ∷ t) ≡ (s, t)
cut-append d [] t h = ground arith
cut-append d (c ∷ s) t h = ground (arith, cut-append d s t)

-- What stands before `:` , between that and `@`, and behind `@`.
abbrev pub UserAndPassword : Text → Text → Text → Text → Type 0
UserAndPassword username password rest tail =
    let (user, r) = cut 58 rest in
    let (pwd, after) = cut 64 r in
    (unquote user ≡ username) × (unquote pwd ≡ password) × (after ≡ tail)

credentials_lem :
    (username password c tail : Text)
    → credentials username password ≡ some c
    → UserAndPassword username password (c ++ (codes "@" ++ tail)) tail
unfolding credentials ◌>>=◌
credentials_lem username password c tail h = elim (Option-cases (quote username)) [
  | inl e ↦ absurd (ground (arith, h, e))
  | inr (user, e) ↦ elim (Option-cases (quote password)) [
    | inl f ↦ absurd (ground (arith, h, e, f))
    | inr (pwd, f) ↦
        let same : c ≡ user ++ codes ":" ++ pwd = some-injective _ _ (sym h ∙ rw (e, f) refl) in
        rw
          (
            same,
            append_assoc (user ++ codes ":") pwd (codes "@" ++ tail),
            append_assoc user (codes ":") (pwd ++ (codes "@" ++ tail)),
            cut-append 58 user (pwd ++ (codes "@" ++ tail))
                (quote-IsDelimiter username user 58 e (inl refl)),
            cut-append 64 pwd tail (quote-IsDelimiter password pwd 64 f (inr (inl refl))),
          )
          (unquote-quote username user e, unquote-quote password pwd f, refl)
  ]
]

abbrev pub or_root : Text → Text
or_root [] = codes "/"
or_root (c ∷ t) = c ∷ t

unquote-vhost_enc : (vhost v : Text) → vhost_enc vhost ≡ some v → unquote v ≡ or_root vhost
unfolding vhost_enc unquote_bytes decode
unquote-vhost_enc [] v h = ap unquote (some-injective v (codes "%2F") (sym h)) ∙ refl
unquote-vhost_enc (c ∷ t) v h = unquote-quote (c ∷ t) v h

decimal_of_plain : (fuel n : ℕ) → any (λ c. c == 47) (decimal_of fuel n) ≡ false
unfolding decimal_of
decimal_of_plain zero n = refl
decimal_of_plain (suc fuel) n = ground (
  arith,
  decimal_of_plain fuel (n / 10),
  any-append (λ c. c == 47) (decimal_of fuel (n / 10)) ((48 + n % 10) ∷ []),
)

str_int_plain : (z : ℤ) → any (λ c. c == 47) (str_int z) ≡ false
unfolding str_int decimal
str_int_plain (pos n) = decimal_of_plain (suc n) n
str_int_plain (negsuc n) = decimal_of_plain (suc (n + 1)) (n + 1)

cut_address :
    (host : Text) (port : ℤ) (last : Text)
    → any (λ c. c == 47) host ≡ false
    → cut 47 (host ++ codes ":" ++ str_int port ++ codes "/" ++ last)
      ≡ (host ++ codes ":" ++ str_int port, last)
cut_address host port last h =
    let address = host ++ codes ":" ++ str_int port in
    ap (cut 47) (append_assoc address (codes "/") last)
    ∙ cut-append 47 address last (
        ground (
          arith,
          any-append (λ c. c == 47) (host ++ codes ":") (str_int port),
          any-append (λ c. c == 47) host (codes ":"),
          str_int_plain port,
        ))

-- What a reader finds in `url`, which begins with `scheme`: the user name and the password are read
-- up to `:` and `@` and unquoted, the address up to `/`, and `last` stands behind it.
pub record ReadsAs (scheme url username password host : Text) (port : ℤ) (last : Text)
    : Type 0 where
  pub rest : Text
  pub tail : Text
  pub starts : url ≡ scheme ++ rest
  pub login : UserAndPassword username password rest tail
  pub address : cut 47 tail ≡ (host ++ codes ":" ++ str_int port, last)

read_url :
    (scheme username password host c last : Text) (port : ℤ)
    → credentials username password ≡ some c
    → any (λ c. c == 47) host ≡ false
    → ReadsAs scheme
        (scheme ++ (c ++ (codes "@" ++ (host ++ codes ":" ++ str_int port ++ codes "/" ++ last))))
        username
        password
        host
        port
        last
read_url scheme username password host c last port h plain_host =
    let tail = host ++ codes ":" ++ str_int port ++ codes "/" ++ last in
    record {
      rest = c ++ (codes "@" ++ tail);
      tail = tail;
      starts = refl;
      login = credentials_lem username password c tail h;
      address = cut_address host port last plain_host;
    }

-- A RabbitMQ URL that is built is read back, whatever characters the user name, the password and the
-- virtual host have, if the host has no `/`: the reader finds the user name, the password, the host
-- with the port, and the virtual host, `/` for an empty one.
pub amqp_url_read :
    (host : Text) (port : ℤ) (username password vhost url : Text)
    → any (λ c. c == 47) host ≡ false
    → amqp_url host port username password vhost ≡ some url
    → (last : Text) × ReadsAs (codes "amqp://") url username password host port last
      × (unquote last ≡ or_root vhost)
unfolding amqp_url ◌>>=◌
amqp_url_read host port username password vhost url plain_host h =
    elim (Option-cases (credentials username password)) [
      | inl e ↦ absurd (ground (arith, h, e))
      | inr (c, e) ↦ elim (Option-cases (vhost_enc vhost)) [
        | inl f ↦ absurd (ground (arith, h, e, f))
        | inr (v, f) ↦ (
          v,
          subst (λ (u : Text). ReadsAs (codes "amqp://") u username password host port v)
              (some-injective _ _ (sym (rw (e, f) refl) ∙ h))
              (read_url (codes "amqp://") username password host c v port e plain_host),
          unquote-vhost_enc vhost v f,
        )
      ]
    ]

-- The same of a PostgreSQL URL, with the database as it is written.
pub postgres_url_read :
    (host : Text) (port : ℤ) (username password db url : Text)
    → any (λ c. c == 47) host ≡ false
    → postgres_url host port username password db ≡ some url
    → ReadsAs (codes "postgresql+asyncpg://") url username password host port db
unfolding postgres_url ◌>>=◌
postgres_url_read host port username password db url plain_host h =
    elim (Option-cases (credentials username password)) [
      | inl e ↦ absurd (ground (arith, h, e))
      | inr (c, e) ↦
          subst
            (λ (u : Text). ReadsAs (codes "postgresql+asyncpg://") u username password host port db)
            (some-injective _ _ (sym (rw e refl) ∙ h))
            (read_url (codes "postgresql+asyncpg://") username password host c db port e plain_host)
    ]

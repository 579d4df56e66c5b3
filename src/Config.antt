-- ===== src/Config.antt =====
-- What the settings of the three services share: the fields as pydantic-settings reads them from the
-- environment, and the URLs of RabbitMQ and PostgreSQL (infrastructure/config/settings.py of each).
-- The environment is a function of the full name of a variable; a file `.env` is part of it. How
-- pydantic reads a number or a Boolean from a text is a parameter.
pub mod Urls
pub mod Fields
mod Tests
use profi_notifications.Prelude.{
  ◌&&◌, ◌||◌, ◌==◌, ◌+◌, ℕ, ◌≡◌, Option, none, some, List, [], ◌∷◌, ◌++◌, Text, codes, decimal,
  is_empty, ltb, leb, Bool, if◌then◌else◌,
}
use profi_notifications.Prelude.Json.{ℤ, pos, negsuc}
use profi_notifications.Prelude.Quote.{quote}

infixl 10 ◌>>=◌
unfoldable pub ◌>>=◌ {ℓ κ} : {A : Type ℓ} {B : Type κ} → Option A → (A → Option B) → Option B
none >>= f = none
some a >>= f = f a

abbrev pub Env : Type 0
Env = Text → Option Text

-- Field(gt=0), Field(ge=0) and Field(ge=0, le=100)
unfoldable pub positive : ℤ → Option ℕ
positive (pos n) = if ltb 0 n then some n else none
positive (negsuc n) = none

unfoldable pub not_negative : ℤ → Option ℕ
not_negative (pos n) = some n
not_negative (negsuc n) = none

unfoldable pub percent : ℤ → Option ℕ
percent (pos n) = if leb n 100 then some n else none
percent (negsuc n) = none

-- A field with a default, which pydantic does not check.
abbrev pub text_field : Env → Text → Text → Text
text_field env name default = elim (env name) [ none ↦ default | some t ↦ t ]

module _ {A : Type 0} (read : Text → Option ℤ) (check : ℤ → Option A) where
  abbrev read_checked : Option Text → A → Option A
  read_checked none default = some default
  read_checked (some t) default = read t >>= check

  unfoldable pub number_field : Env → Text → A → Option A
  number_field env name default = read_checked (env name) default

unfoldable pub any_int : ℤ → Option ℤ
any_int z = some z

-- How pydantic reads the text of a variable; a float is its 64-bit pattern.
pub record Readers : Type 0 where
  pub int : Text → Option ℤ
  pub boolean : Text → Option Bool
  pub float : Text → Option ℕ

abbrev pub flag_field : Readers → Env → Text → Bool → Option Bool
flag_field readers env name default = elim (env name) [
  | none ↦ some default
  | some t ↦ readers.boolean t
]

-- Field(ge=0.0, le=2.0) and Field(gt=0) of a float: the patterns of the numbers from 0.0 on grow with
-- them, -0.0 is 2 ^ 63, and behind the infinity 0x7FF0_0000_0000_0000 stand the NaNs and then the
-- negative numbers.
unfoldable pub to_two : ℕ → Option ℕ
to_two p = if leb p 4611686018427387904 || p == 9223372036854775808 then some p else none

unfoldable pub positive_float : ℕ → Option ℕ
positive_float p = if ltb 0 p && leb p 9218868437227405312 then some p else none

abbrev pub float_field : Readers → (ℕ → Option ℕ) → Env → Text → ℕ → Option ℕ
float_field readers check env name default = elim (env name) [
  | none ↦ some default
  | some t ↦ readers.float t >>= check
]

-- `str` of an int
unfoldable pub str_int : ℤ → Text
str_int (pos n) = decimal n
str_int (negsuc n) = 45 ∷ decimal (n + 1)

-- The part of a URL with the credentials, in front of `@`.
unfoldable pub credentials : Text → Text → Option Text
credentials username password =
    quote username >>= λ user. quote password >>= λ pwd. some (user ++ codes ":" ++ pwd)

-- `quote(self.vhost, safe="") if self.vhost else "%2F"`
unfoldable pub vhost_enc : Text → Option Text
vhost_enc vhost = if is_empty vhost then some (codes "%2F") else quote vhost

unfoldable pub amqp_url : Text → ℤ → Text → Text → Text → Option Text
unfolding credentials vhost_enc str_int
amqp_url host port username password vhost = credentials username password >>= λ c.
    vhost_enc vhost >>= λ v.
    some (
      codes "amqp://"
      ++ (c ++ (codes "@" ++ (host ++ codes ":" ++ str_int port ++ codes "/" ++ v))))

unfoldable pub postgres_url : Text → ℤ → Text → Text → Text → Option Text
unfolding credentials str_int
postgres_url host port username password db = credentials username password >>= λ c. some (
    codes "postgresql+asyncpg://"
    ++ (c ++ (codes "@" ++ (host ++ codes ":" ++ str_int port ++ codes "/" ++ db))))

-- RabbitMQSettings, the same in the three services.
pub record RabbitMqSettings : Type 0 where
  pub host : Text
  pub port : ℤ
  pub username : Text
  pub password : Text
  pub vhost : Text

unfoldable pub load_rabbitmq : Readers → Env → Option RabbitMqSettings
unfolding number_field any_int
load_rabbitmq readers env =
    number_field readers.int any_int env (codes "RABBITMQ__PORT") (pos 5672) >>= λ port.
    some (record {
      host = text_field env (codes "RABBITMQ__HOST") (codes "localhost");
      port = port;
      username = text_field env (codes "RABBITMQ__USERNAME") (codes "guest");
      password = text_field env (codes "RABBITMQ__PASSWORD") (codes "guest");
      vhost = text_field env (codes "RABBITMQ__VHOST") (codes "/");
    })

-- RabbitMQSettings.url
unfoldable pub rabbitmq_url : RabbitMqSettings → Option Text
unfolding amqp_url
rabbitmq_url s = amqp_url s.host s.port s.username s.password s.vhost

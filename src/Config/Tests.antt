-- ===== src/Config/Tests.antt =====
-- URLs with characters that need quotes.
use profi_notifications.Prelude.Quote.RoundTrip.{unquote}
use profi_notifications.Prelude.Json.{pos}
use profi_notifications.Prelude.{decimal, refl, some, ◌≡◌, codes, Text}
use profi_notifications.Config.{
  decimal, some, pos, codes, ◌>>=◌, Text, amqp_url, credentials, vhost_enc, str_int,
}
use profi_notifications.Config.Urls.{amqp_url_read, ReadsAs, or_root}
use profi_notifications.Prelude.Quote.{quote}

abbrev a_url : Text
a_url = codes "amqp://a%3Ab:p%40%2F%D0%B6@mq:5672/%2F"

url_built : amqp_url (codes "mq") (pos 5672) (codes "a:b") (codes "p@/ж") (codes "") ≡ some a_url
unfolding amqp_url credentials vhost_enc str_int quote decimal ◌>>=◌
url_built = refl

amqp_url_read_example :
    (last : Text) × ReadsAs
      (codes "amqp://")
      a_url
      (codes "a:b")
      (codes "p@/ж")
      (codes "mq")
      (pos 5672)
      last
    × (unquote last ≡ or_root (codes ""))
amqp_url_read_example =
    amqp_url_read (codes "mq") (pos 5672) (codes "a:b") (codes "p@/ж") (codes "") a_url refl
      url_built

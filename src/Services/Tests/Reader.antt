-- ===== src/Services/Tests/Reader.antt =====
-- A reader of the messages of assess.results, by the names and aliases of their fields.
use profi_notifications.Prelude.{
  Bool, Option, none, some, Text, codes, text_eq, ◌≡◌, refl, if◌then◌else◌,
}
use profi_notifications.Prelude.Json.{ℤ, Json, Fields, str, int, bool, obj}
use profi_notifications.Config.{◌>>=◌}
use profi_notifications.OrderCore.Domain.{ParseMode, html, markdown, markdown_v2}
use profi_notifications.OrderCore.Guard.{Parsed, valid, invalid}
use profi_notifications.OrderCore.Wire.{
  AssessmentResultMessage, NotificationMessage, parse_mode_value,
}
use profi_notifications.Services.Payloads.{lookup, Gives, SpellsNotification, ReadsVerdicts}

abbrev as_text : Json → Option Text
as_text (str t) = some t
as_text _ = none

abbrev as_int : Json → Option ℤ
as_int (int n) = some n
as_int _ = none

abbrev as_bool : Json → Option Bool
as_bool (bool b) = some b
as_bool _ = none

abbrev as_object : Json → Option Fields
as_object (obj o) = some o
as_object _ = none

mode_of : Text → Option ParseMode
mode_of t =
    if text_eq t (codes "HTML")
    then some html
    else if text_eq t (codes "MarkdownV2")
    then some markdown_v2
    else if text_eq t (codes "Markdown")
    then some markdown
    else none

abbrev as_mode : Json → Option ParseMode
as_mode (str t) = mode_of t
as_mode _ = none

needed : {A : Type 0} → (Json → Option A) → Option Json → Option A
needed read none = none
needed read (some j) = read j

optional : {A : Type 0} → (Json → Option A) → Option Json → Option Json → Option (Option A)
optional read none none = some none
optional read none (some j) = read j >>= λ a. some (some a)
optional read (some j) other = read j >>= λ a. some (some a)

optional-Gives :
    {A : Type 0} (enc : A → Json) (read : Json → Option A) (alias name : Text) (raw : Fields)
    (v : Option A)
    → ((a : A) → read (enc a) ≡ some a)
    → Gives enc alias name raw v
    → optional read (lookup alias raw) (lookup name raw) ≡ some v
unfolding optional ◌>>=◌
optional-Gives enc read alias name raw none back (p, q) = rw (p, q) refl
optional-Gives enc read alias name raw (some a) back p = rw (p, back a) refl

mode-back : (m : ParseMode) → as_mode (str (parse_mode_value m)) ≡ some m
unfolding mode_of parse_mode_value text_eq
mode-back html = refl
mode-back markdown_v2 = refl
mode-back markdown = refl

read_notification : Fields → Option NotificationMessage
read_notification raw = needed as_text (lookup (codes "text") raw) >>= λ text.
    optional as_mode (lookup (codes "parseMode") raw) (lookup (codes "parse_mode") raw)
    >>= λ parse_mode.
        optional as_bool (lookup (codes "disableNotification") raw)
          (lookup (codes "disable_notification") raw)
        >>= λ disable_notification.
            optional as_bool (lookup (codes "disableWebPagePreview") raw)
              (lookup (codes "disable_web_page_preview") raw)
            >>= λ disable_web_page_preview.
                optional as_int (lookup (codes "messageThreadId") raw)
                  (lookup (codes "message_thread_id") raw)
                >>= λ message_thread_id. some (record {
                  text = text;
                  parse_mode = parse_mode;
                  disable_notification = disable_notification;
                  disable_web_page_preview = disable_web_page_preview;
                  message_thread_id = message_thread_id;
                })

read_notification-Spells :
    (raw : Fields) (m : NotificationMessage)
    → SpellsNotification raw m
    → read_notification raw ≡ some m
unfolding read_notification needed ◌>>=◌
read_notification-Spells raw m h =
    rw
      (
        h.text,
        optional-Gives (λ p. str (parse_mode_value p)) as_mode (codes "parseMode")
            (codes "parse_mode") raw m.parse_mode mode-back h.parse_mode,
        optional-Gives bool as_bool (codes "disableNotification") (codes "disable_notification") raw
            m.disable_notification (λ b. refl) h.disable_notification,
        optional-Gives bool as_bool (codes "disableWebPagePreview")
            (codes "disable_web_page_preview") raw m.disable_web_page_preview (λ b. refl)
            h.disable_web_page_preview,
        optional-Gives int as_int (codes "messageThreadId") (codes "message_thread_id") raw
            m.message_thread_id (λ n. refl) h.message_thread_id,
      )
      refl

read_message : Fields → Option AssessmentResultMessage
read_message raw = needed as_text (lookup (codes "order_id") raw) >>= λ order_id.
    needed as_int (lookup (codes "suitability_score") raw) >>= λ suitability_score.
    needed as_object (lookup (codes "notification") raw) >>= λ inner.
    read_notification inner >>= λ notification. some (record {
      order_id = order_id;
      suitability_score = suitability_score;
      notification = notification;
    })

abbrev checked : Option AssessmentResultMessage → Parsed AssessmentResultMessage
checked none = invalid (codes "unexpected payload")
checked (some m) = valid m

pub read_verdict : Fields → Parsed AssessmentResultMessage
read_verdict raw = checked (read_message raw)

pub read_verdict-ReadsVerdicts : ReadsVerdicts read_verdict
unfolding read_verdict read_message needed ◌>>=◌
read_verdict-ReadsVerdicts = record {
  reads = λ raw m h.
      rw
        (
          h.order_id,
          h.suitability_score,
          h.notification,
          read_notification-Spells h.inner m.notification h.spelled,
        )
        refl;
}

-- ===== src/Llm/Wire.antt =====
-- llm/app/infrastructure/messaging/schemas.py and llm/app/domain/result.py.
use profi_notifications.Prelude.{ℕ, Bool, Option, none, some, List, map, Text, codes}
use profi_notifications.Prelude.Json.{
  ℤ, pos, Json, bool, int, float, str, arr, obj, Fields, end, field, items, or_null,
}
use profi_notifications.Llm.Domain.{Assessment}
use profi_notifications.Llm.Listing.{Listing}
use profi_notifications.Prelude.Json.{given}
use profi_notifications.Llm.Notification.{
  html, markdown_v2, markdown, ParseMode, NotificationCommand, build_notification,
}

pub record AssessmentResult : Type 0 where
  pub order_id : Text
  pub suitability_score : ℕ
  pub notification : NotificationCommand

unfoldable pub build_result : Listing → Assessment → AssessmentResult
build_result listing assessment = record {
  order_id = listing.id;
  suitability_score = assessment.suitability_score;
  notification = build_notification listing assessment;
}

pub record Price : Type 0 where
  pub prefix : Text
  pub value : Text
  pub suffix : Text

pub record Coordinates : Type 0 where
  pub lat : ℕ
  pub lon : ℕ

pub record GeoPlace : Type 0 where
  pub prefix : Text
  pub suffix : Text
  pub address : Option Text

pub record Geo : Type 0 where
  pub remote : Option GeoPlace
  pub order_location : Option GeoPlace
  pub client_may_come : Option GeoPlace

pub record Client : Type 0 where
  pub name : Text
  pub tags : List Text

pub record Badge : Type 0 where
  pub id : Text
  pub image_key : Text
  pub label : Text

pub record Order : Type 0 where
  pub id : Text
  pub title : Text
  pub description : Text
  pub price : Option Price
  pub geo : Geo
  pub client : Client
  pub badges : List Badge
  pub schedule : Option Text
  pub last_update : ℤ
  pub score : ℕ
  pub is_fresh : Bool
  pub is_viewed : Bool
  pub coordinates : Option Coordinates

pub record ParseResultMessage : Type 0 where
  pub request_id : Text
  pub fetched_at : ℤ
  pub total_count : ℤ
  pub next_cursor : Option Text
  pub orders : List Order

pub record NotificationMessage : Type 0 where
  pub text : Text
  pub parse_mode : Option ParseMode
  pub disable_notification : Option Bool
  pub disable_web_page_preview : Option Bool
  pub message_thread_id : Option ℤ

pub record AssessmentResultMessage : Type 0 where
  pub order_id : Text
  pub suitability_score : ℤ
  pub notification : NotificationMessage

-- `model_dump()` writes the declared fields in their order, `None` as null.
unfoldable pub dump_price : Price → Json
dump_price p = obj (
    field (codes "prefix") (str p.prefix)
      (field (codes "value") (str p.value) (field (codes "suffix") (str p.suffix) end)))

unfoldable pub dump_place : GeoPlace → Json
dump_place p = obj (
    field (codes "prefix") (str p.prefix)
      (field (codes "suffix") (str p.suffix) (field (codes "address") (or_null str p.address) end)))

unfoldable pub dump_geo : Geo → Json
unfolding dump_place
dump_geo g = obj (
    field (codes "remote") (or_null dump_place g.remote) (
      field (codes "order_location") (or_null dump_place g.order_location)
        (field (codes "client_may_come") (or_null dump_place g.client_may_come) end)))

unfoldable pub dump_client : Client → Json
unfolding items
dump_client c =
    obj
      (field (codes "name") (str c.name) (field (codes "tags") (arr (items (map str c.tags))) end))

unfoldable pub dump_badge : Badge → Json
dump_badge b = obj (
    field (codes "id") (str b.id)
      (field (codes "image_key") (str b.image_key) (field (codes "label") (str b.label) end)))

unfoldable pub dump_coordinates : Coordinates → Json
dump_coordinates c = obj (field (codes "lat") (float c.lat) (field (codes "lon") (float c.lon) end))

unfoldable pub dump_order : Order → Fields
unfolding dump_price dump_geo dump_client dump_badge dump_coordinates items
dump_order o = field (codes "id") (str o.id) (
    field (codes "title") (str o.title) (
      field (codes "description") (str o.description) (
        field (codes "price") (or_null dump_price o.price) (
          field (codes "geo") (dump_geo o.geo) (
            field (codes "client") (dump_client o.client) (
              field (codes "badges") (arr (items (map dump_badge o.badges))) (
                field (codes "schedule") (or_null str o.schedule) (
                  field (codes "last_update") (int o.last_update) (
                    field (codes "score") (float o.score) (
                      field (codes "is_fresh") (bool o.is_fresh) (
                        field (codes "is_viewed") (bool o.is_viewed) (
                          field (codes "coordinates") (or_null dump_coordinates o.coordinates)
                            end))))))))))))

unfoldable pub dump_message : ParseResultMessage → Fields
unfolding dump_order items
dump_message message = field (codes "request_id") (str message.request_id) (
    field (codes "fetched_at") (int message.fetched_at) (
      field (codes "total_count") (int message.total_count) (
        field (codes "next_cursor") (or_null str message.next_cursor) (
          field (codes "orders") (arr (items (map (λ o. obj (dump_order o)) message.orders)))
            end))))

-- NotificationMessage.from_command
unfoldable pub from_command : NotificationCommand → NotificationMessage
from_command command = record {
  text = command.text;
  parse_mode = some command.parse_mode;
  disable_notification = none;
  disable_web_page_preview = some command.disable_web_page_preview;
  message_thread_id = none;
}

-- AssessmentResultMessage.from_result
unfoldable pub from_result : AssessmentResult → AssessmentResultMessage
unfolding from_command
from_result result = record {
  order_id = result.order_id;
  suitability_score = pos result.suitability_score;
  notification = from_command result.notification;
}

unfoldable pub parse_mode_value : ParseMode → Text
parse_mode_value html = codes "HTML"
parse_mode_value markdown_v2 = codes "MarkdownV2"
parse_mode_value markdown = codes "Markdown"

-- The payload that RabbitResultPublisher publishes: `model_dump(by_alias=True, exclude_none=True)`.
unfoldable pub dump_verdict : AssessmentResultMessage → Fields
unfolding parse_mode_value
dump_verdict message =
    let n = message.notification in
    field (codes "order_id") (str message.order_id) (
      field (codes "suitability_score") (int message.suitability_score) (
        field (codes "notification")
          (obj (
            field (codes "text") (str n.text) (
              given (codes "parseMode") (λ m. str (parse_mode_value m)) n.parse_mode
                (given (codes "disableNotification") bool n.disable_notification (
                  given (codes "disableWebPagePreview") bool n.disable_web_page_preview
                    (given (codes "messageThreadId") int n.message_thread_id end))))))
          end))

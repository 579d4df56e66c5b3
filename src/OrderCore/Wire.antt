-- ===== src/OrderCore/Wire.antt =====
-- order-core-service/app/infrastructure/messaging/schemas.py and mapping.py.
pub mod Scores
use profi_notifications.Prelude.{
  ℕ, Bool, Option, none, some, List, [], map, Text, codes, leb, if◌then◌else◌,
}
use profi_notifications.Prelude.Json.{
  ℤ, pos, negsuc, Json, null, bool, int, float, str, arr, obj, nil, item, Fields, end, field, items,
  or_null, given,
}
use profi_notifications.OrderCore.Domain.{
  profi, ParseMode, html, markdown_v2, markdown, NotificationCommand, AssessmentOutcome,
}
use profi_notifications.OrderCore.Dto.{IncomingOrder, Result, ok, err, validation}

pub record Price : Type 0 where
  pub prefix : Text
  pub value : Text
  pub suffix : Text

pub record Coordinates : Type 0 where
  pub lat : ℕ
  pub lon : ℕ

pub record GeoPlace : Type 0 where
  pub prefix : Text
  pub suffix : Text
  pub address : Option Text

pub record Geo : Type 0 where
  pub remote : Option GeoPlace
  pub order_location : Option GeoPlace
  pub client_may_come : Option GeoPlace

pub record Client : Type 0 where
  pub name : Text
  pub tags : List Text

pub record Badge : Type 0 where
  pub id : Text
  pub image_key : Text
  pub label : Text

pub record OrderMessage : Type 0 where
  pub id : Text
  pub title : Text
  pub description : Text
  pub price : Option Price
  pub geo : Geo
  pub client : Client
  pub badges : List Badge
  pub schedule : Option Text
  pub last_update : ℤ
  pub score : ℕ
  pub is_fresh : Bool
  pub is_viewed : Bool
  pub coordinates : Option Coordinates

pub record ParseResultMessage : Type 0 where
  pub request_id : Text
  pub fetched_at : ℤ
  pub total_count : ℤ
  pub next_cursor : Option Text
  pub orders : List OrderMessage

pub record NotificationMessage : Type 0 where
  pub text : Text
  pub parse_mode : Option ParseMode
  pub disable_notification : Option Bool
  pub disable_web_page_preview : Option Bool
  pub message_thread_id : Option ℤ

pub record AssessmentResultMessage : Type 0 where
  pub order_id : Text
  pub suitability_score : ℤ
  pub notification : NotificationMessage

-- `model_dump()` writes the declared fields in their order, `None` as null.
unfoldable pub dump_price : Price → Json
dump_price p = obj (
    field (codes "prefix") (str p.prefix)
      (field (codes "value") (str p.value) (field (codes "suffix") (str p.suffix) end)))

unfoldable pub dump_place : GeoPlace → Json
dump_place p = obj (
    field (codes "prefix") (str p.prefix)
      (field (codes "suffix") (str p.suffix) (field (codes "address") (or_null str p.address) end)))

unfoldable pub dump_geo : Geo → Json
unfolding dump_place
dump_geo g = obj (
    field (codes "remote") (or_null dump_place g.remote) (
      field (codes "order_location") (or_null dump_place g.order_location)
        (field (codes "client_may_come") (or_null dump_place g.client_may_come) end)))

unfoldable pub dump_client : Client → Json
unfolding items
dump_client c =
    obj
      (field (codes "name") (str c.name) (field (codes "tags") (arr (items (map str c.tags))) end))

unfoldable pub dump_badge : Badge → Json
dump_badge b = obj (
    field (codes "id") (str b.id)
      (field (codes "image_key") (str b.image_key) (field (codes "label") (str b.label) end)))

unfoldable pub dump_coordinates : Coordinates → Json
dump_coordinates c = obj (field (codes "lat") (float c.lat) (field (codes "lon") (float c.lon) end))

unfoldable pub dump_order : OrderMessage → Fields
unfolding dump_price dump_geo dump_client dump_badge dump_coordinates items
dump_order o = field (codes "id") (str o.id) (
    field (codes "title") (str o.title) (
      field (codes "description") (str o.description) (
        field (codes "price") (or_null dump_price o.price) (
          field (codes "geo") (dump_geo o.geo) (
            field (codes "client") (dump_client o.client) (
              field (codes "badges") (arr (items (map dump_badge o.badges))) (
                field (codes "schedule") (or_null str o.schedule) (
                  field (codes "last_update") (int o.last_update) (
                    field (codes "score") (float o.score) (
                      field (codes "is_fresh") (bool o.is_fresh) (
                        field (codes "is_viewed") (bool o.is_viewed) (
                          field (codes "coordinates") (or_null dump_coordinates o.coordinates)
                            end))))))))))))

unfoldable pub to_incoming_order : ParseResultMessage → OrderMessage → IncomingOrder
to_incoming_order message order = record {
  source = profi;
  external_id = order.id;
  payload = dump_order order;
  request_id = some message.request_id;
  fetched_at = message.fetched_at;
}

unfoldable pub to_incoming_orders : ParseResultMessage → List IncomingOrder
unfolding to_incoming_order
to_incoming_orders message = map (to_incoming_order message) message.orders

unfoldable pub to_command : NotificationMessage → NotificationCommand
to_command n = record {
  text = n.text;
  parse_mode = n.parse_mode;
  disable_notification = n.disable_notification;
  disable_web_page_preview = n.disable_web_page_preview;
  message_thread_id = n.message_thread_id;
}

-- `Field(ge=0, le=100)` of `AssessmentOutcome`: a score outside is a `ValidationError`.
unfoldable pub checked_score : ℤ → Result ℕ
checked_score (pos n) = if leb n 100 then ok n else err validation
checked_score (negsuc n) = err validation

unfoldable pub outcome_of : AssessmentResultMessage → Result ℕ → Result AssessmentOutcome
unfolding to_command
outcome_of message (err e) = err e
outcome_of message (ok n) = ok (record {
  order_id = message.order_id;
  suitability_score = n;
  notification = to_command message.notification;
})

unfoldable pub to_assessment_outcome : AssessmentResultMessage → Result AssessmentOutcome
unfolding outcome_of checked_score
to_assessment_outcome message = outcome_of message (checked_score message.suitability_score)

-- `order.request_id or ""`
unfoldable pub or_empty : Option Text → Text
or_empty none = []
or_empty (some t) = t

unfoldable pub assess_request_payload : IncomingOrder → Fields
unfolding or_empty
assess_request_payload order = field (codes "request_id") (str (or_empty order.request_id)) (
    field (codes "fetched_at") (int order.fetched_at) (
      field (codes "total_count") (int (pos 1)) (
        field (codes "next_cursor") null
          (field (codes "orders") (arr (item (obj order.payload) nil)) end))))

-- The value of a `ParseMode` literal.
unfoldable pub parse_mode_value : ParseMode → Text
parse_mode_value html = codes "HTML"
parse_mode_value markdown_v2 = codes "MarkdownV2"
parse_mode_value markdown = codes "Markdown"

-- `model_dump(by_alias=True, exclude_none=True)` of the `NotificationMessage` with these fields.
unfoldable pub notification_payload : NotificationCommand → Fields
unfolding parse_mode_value
notification_payload n = field (codes "text") (str n.text) (
    given (codes "parseMode") (λ m. str (parse_mode_value m)) n.parse_mode
      (given (codes "disableNotification") bool n.disable_notification (
        given (codes "disableWebPagePreview") bool n.disable_web_page_preview
          (given (codes "messageThreadId") int n.message_thread_id end))))

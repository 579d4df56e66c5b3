-- ===== src/Services/Requests.antt =====
-- How order-core-service and llm fit together on the queue assess.requests.
use mathlib.Core.Option.{map as map_option}
use profi_notifications.OrderCore.Wire as CoreWire
use profi_notifications.Llm.Wire as LlmWire
use profi_notifications.OrderCore.Wire.{
  or_empty, OrderMessage, ParseResultMessage, Badge, GeoPlace, Geo, to_incoming_order,
  assess_request_payload,
}
use profi_notifications.OrderCore.System.{Wiring, Reach, fresh_world}
use profi_notifications.OrderCore.System.Requests.{Reach-IsAsked}
use profi_notifications.OrderCore.Guard.{valid}
use profi_notifications.OrderCore.Db.{Db}
use profi_notifications.OrderCore.Effects.{World, to_assess}
use profi_notifications.Prelude.{◌∙◌, ap, List, [], ◌∷◌, map, Option, none, some, ◌≡◌, refl}
use profi_notifications.Prelude.Json.{items, Fields, Json, or_null, pos}
use profi_notifications.Prelude.Members.{In}

-- A record of order-core-service as llm has it: the fields of the same names.
abbrev as_price : CoreWire.Price → LlmWire.Price
as_price p = record { prefix = p.prefix; value = p.value; suffix = p.suffix }

abbrev as_place : GeoPlace → LlmWire.GeoPlace
as_place p = record { prefix = p.prefix; suffix = p.suffix; address = p.address }

abbrev as_geo : Geo → LlmWire.Geo
as_geo g = record {
  remote = map_option as_place g.remote;
  order_location = map_option as_place g.order_location;
  client_may_come = map_option as_place g.client_may_come;
}

abbrev as_badge : Badge → LlmWire.Badge
as_badge b = record { id = b.id; image_key = b.image_key; label = b.label }

abbrev as_coordinates : CoreWire.Coordinates → LlmWire.Coordinates
as_coordinates c = record { lat = c.lat; lon = c.lon }

abbrev pub as_order : OrderMessage → LlmWire.Order
as_order o = record {
  id = o.id;
  title = o.title;
  description = o.description;
  price = map_option as_price o.price;
  geo = as_geo o.geo;
  client = record { name = o.client.name; tags = o.client.tags };
  badges = map as_badge o.badges;
  schedule = o.schedule;
  last_update = o.last_update;
  score = o.score;
  is_fresh = o.is_fresh;
  is_viewed = o.is_viewed;
  coordinates = map_option as_coordinates o.coordinates;
}

-- The message that llm is to read: the batch with this order alone.
abbrev pub requested : ParseResultMessage → OrderMessage → LlmWire.ParseResultMessage
requested m o = record {
  request_id = m.request_id;
  fetched_at = m.fetched_at;
  total_count = pos 1;
  next_cursor = none;
  orders = as_order o ∷ [];
}

or_null-map :
    {A B : Type 0} (f : A → Json) (g : B → Json) (h : A → B) (o : Option A)
    → ((a : A) → f a ≡ g (h a))
    → or_null f o ≡ or_null g (map_option h o)
or_null-map f g h none e = refl
or_null-map f g h (some a) e = e a

dump_badges :
    (bs : List Badge) → map CoreWire.dump_badge bs ≡ map LlmWire.dump_badge (map as_badge bs)
unfolding CoreWire.dump_badge LlmWire.dump_badge
dump_badges [] = refl
dump_badges (b ∷ bs) = ap (λ js. LlmWire.dump_badge (as_badge b) ∷ js) (dump_badges bs)

same_price : (p : CoreWire.Price) → CoreWire.dump_price p ≡ LlmWire.dump_price (as_price p)
unfolding CoreWire.dump_price LlmWire.dump_price
same_price p = refl

same_place : (p : GeoPlace) → CoreWire.dump_place p ≡ LlmWire.dump_place (as_place p)
unfolding CoreWire.dump_place LlmWire.dump_place
same_place p = refl

same_coordinates :
    (c : CoreWire.Coordinates)
    → CoreWire.dump_coordinates c ≡ LlmWire.dump_coordinates (as_coordinates c)
unfolding CoreWire.dump_coordinates LlmWire.dump_coordinates
same_coordinates c = refl

dump_geo : (g : Geo) → CoreWire.dump_geo g ≡ LlmWire.dump_geo (as_geo g)
unfolding CoreWire.dump_geo LlmWire.dump_geo
dump_geo g = rw (
  or_null-map CoreWire.dump_place LlmWire.dump_place as_place g.remote same_place,
  or_null-map CoreWire.dump_place LlmWire.dump_place as_place g.order_location same_place,
  or_null-map CoreWire.dump_place LlmWire.dump_place as_place g.client_may_come same_place,
)

dump_order : (o : OrderMessage) → CoreWire.dump_order o ≡ LlmWire.dump_order (as_order o)
unfolding CoreWire.dump_order LlmWire.dump_order CoreWire.dump_client LlmWire.dump_client
dump_order o = rw (
  or_null-map CoreWire.dump_price LlmWire.dump_price as_price o.price same_price,
  dump_geo o.geo,
  dump_badges o.badges,
  or_null-map CoreWire.dump_coordinates LlmWire.dump_coordinates as_coordinates o.coordinates
      same_coordinates,
)

-- The request that order-core-service makes of an order is the dump of llm's message with it.
dump_request :
    (m : ParseResultMessage) (o : OrderMessage)
    → assess_request_payload (to_incoming_order m o) ≡ LlmWire.dump_message (requested m o)
unfolding assess_request_payload to_incoming_order LlmWire.dump_message or_empty items
dump_request m o = rw (dump_order o)

-- In every state that order-core-service can reach from empty tables: every message that it has put
-- on the queue of llm is what llm itself writes for a message with a single order, an order of a
-- message of parse.results that was parsed; all fields of the order, the id of the request and the
-- time of the batch are the same.
pub request_readable :
    (c : Wiring) (w : World Db) (payload : Fields)
    → Reach c fresh_world w
    → In (to_assess payload) w.sent
    → (raw : Fields) × (m : ParseResultMessage) × (o : OrderMessage) × (c.parse_batch raw ≡ valid m)
      × In o m.orders
      × (payload ≡ LlmWire.dump_message (requested m o))
request_readable c w payload r i =
    let (raw, m, o, p, j, e) = (Reach-IsAsked c r).sent payload i in
    (raw, m, o, p, j, e ∙ dump_request m o)

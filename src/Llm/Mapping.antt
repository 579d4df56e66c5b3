-- ===== src/Llm/Mapping.antt =====
-- llm/app/infrastructure/messaging/mapping.py.
use profi_notifications.Prelude.{
  Bool, true, false, Option, none, some, List, [], ◌∷◌, Text, strip, is_empty, if◌then◌else◌,
}
use profi_notifications.Llm.Listing.{Budget, from_price, Listing, int_raises, search_amount}
use profi_notifications.Llm.Wire.{Price, GeoPlace, Geo, Order}

-- The loop of `_location` over the places.
unfoldable pub first_place : List (Option GeoPlace) → Option Text
first_place [] = none
first_place (none ∷ places) = first_place places
first_place (some place ∷ places) =
    let rest = first_place places in
    if is_empty (strip place.prefix) then rest else some (strip place.prefix)

unfoldable pub location_of : Geo → Option Text
unfolding first_place
location_of geo = first_place (geo.order_location ∷ geo.remote ∷ geo.client_may_come ∷ [])

unfoldable pub budget_of : Option Price → Option Budget
budget_of none = none
budget_of (some price) = from_price price.prefix price.value price.suffix

-- Whether the ValueError of `int` leaves `from_price`, and so `order_to_listing`.
unfoldable pub price_raises : Option Price → Bool
unfolding int_raises search_amount
price_raises none = false
price_raises (some price) = int_raises (search_amount price.value)

abbrev is_some {ℓ} : {A : Type ℓ} → Option A → Bool
is_some none = false
is_some (some a) = true

unfoldable pub order_to_listing : Order → Listing
unfolding budget_of location_of
order_to_listing order = record {
  id = order.id;
  title = order.title;
  description = order.description;
  budget = budget_of order.price;
  is_remote = is_some order.geo.remote;
  location = location_of order.geo;
  client_tags = order.client.tags;
}

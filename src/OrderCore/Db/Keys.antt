-- ===== src/OrderCore/Db/Keys.antt =====
-- The dedup keys of repositories.py, compared with each other and with the length of their column.
use profi_notifications.Prelude.{
  ◌≤◌, ◌≡◌, refl, false, Text, text_eq, text_eq-append_left, length, arith,
}
use profi_notifications.OrderCore.Domain.{Source, profi, source_value}
use profi_notifications.OrderCore.Db.{event_key, assess_kind, notify_kind}

-- The dedup keys of two events of one kind and source are equal exactly if the external ids of
-- their orders are.
pub event_key-injective :
    (kind : Text) (s : Source) (a b : Text)
    → text_eq (event_key kind s a) (event_key kind s b) ≡ text_eq a b
unfolding event_key source_value
event_key-injective kind profi a b = simp text_eq-append_left

pub event_key-kinds :
    (s t : Source) (a b : Text)
    → text_eq (event_key assess_kind s a) (event_key notify_kind t b) ≡ false
unfolding event_key source_value text_eq
event_key-kinds profi profi a b = refl

pub event_key-kinds' :
    (s t : Source) (a b : Text)
    → text_eq (event_key notify_kind s a) (event_key assess_kind t b) ≡ false
unfolding event_key source_value text_eq
event_key-kinds' profi profi a b = refl

pub length-event_key_assess :
    (s : Source) (a : Text) → length a ≤ 128 → length (event_key assess_kind s a) ≤ 200
unfolding event_key source_value
length-event_key_assess profi a h = omega (arith)

pub length-event_key_notify :
    (s : Source) (a : Text) → length a ≤ 128 → length (event_key notify_kind s a) ≤ 200
unfolding event_key source_value
length-event_key_notify profi a h = omega (arith)

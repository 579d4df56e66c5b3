-- ===== src/Llm/Listing.antt =====
-- llm/app/domain/listing.py: an order as llm sees it, and the reading of its budget.
pub mod Amount
use profi_notifications.Prelude.{
  false, ℕ, ◌+◌, ◌*◌, Bool, ◌||◌, ◌==◌, ltb, length, Option, none, some, List, [], ◌∷◌, ◌++◌, Text,
  codes, text_eq, any, filter, is_empty, not, is_space, is_digit, digit_value, strip, join, lower,
  if◌then◌else◌,
}

pub data Bound : Type 0 where
  up_to from : Bound

pub record Budget : Type 0 where
  pub raw : Text
  pub amount : Option ℕ
  pub currency : Option Text
  pub bound : Option Bound

-- _BOUND_BY_PREFIX.get
unfoldable pub bound_by_prefix : Text → Option Bound
bound_by_prefix t =
    if text_eq t (codes "до")
    then some up_to
    else if text_eq t (codes "от")
    then some from
    else none

-- The longest run of digits and spaces at the front.
unfoldable pub amount_run : Text → Text
amount_run [] = []
amount_run (c ∷ t) = let rest = amount_run t in if is_digit c || is_space c then c ∷ rest else []

-- _AMOUNT_RE.search: the first digit and its run.
unfoldable pub search_amount : Text → Option Text
search_amount [] = none
search_amount (c ∷ t) =
    let rest = search_amount t in if is_digit c then some (c ∷ amount_run t) else rest

-- `int` of a text of digits
unfoldable pub int_of_digits : ℕ → Text → ℕ
int_of_digits n [] = n
int_of_digits n (c ∷ t) = int_of_digits (n * 10 + digit_value c) t

-- int(re.sub(r"\D", "", match.group())), where this does not raise
unfoldable pub amount_of : Option Text → Option ℕ
amount_of none = none
amount_of (some run) = some (int_of_digits 0 (filter is_digit run))

-- This `int` raises a ValueError for more than 4300 digits, Python's default limit.
unfoldable pub int_raises : Option Text → Bool
int_raises none = false
int_raises (some run) = ltb 4300 (length (filter is_digit run))

unfoldable pub raw_budget : Text → Text → Text → Text
raw_budget prefix value suffix =
    strip (join (codes " ") (filter (λ part. not (is_empty part)) (prefix ∷ value ∷ suffix ∷ [])))

-- Budget.from_price
unfoldable pub from_price : Text → Text → Text → Option Budget
unfolding amount_of search_amount amount_run int_of_digits bound_by_prefix raw_budget
from_price prefix value suffix =
    let raw = raw_budget prefix value suffix in
    if is_empty raw
    then none
    else some (record {
      raw = raw;
      amount = amount_of (search_amount value);
      currency = if any (λ c. c == 8381) (value ++ suffix) then some (codes "₽") else none;
      bound = bound_by_prefix (lower (strip prefix));
    })

pub record Listing : Type 0 where
  pub id : Text
  pub title : Text
  pub description : Text
  pub budget : Option Budget
  pub is_remote : Bool
  pub location : Option Text
  pub client_tags : List Text

unfoldable pub url : Listing → Text
url listing = codes "https://profi.ru/backoffice/n.php?o=" ++ listing.id

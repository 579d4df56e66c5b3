-- ===== src/Llm/Notification.antt =====
-- llm/app/domain/notification.py: the text of the message to Telegram.
pub mod Markup
pub mod Length
use profi_notifications.Prelude.{
  ℕ, ◌+◌, ◌-◌, ◌*◌, ltb, leb, ◌==◌, Option, none, some, List, [], ◌∷◌, ◌++◌, Text, codes, is_empty,
  rstrip, strip, join, decimal, if◌then◌else◌, Bool, true,
}
use profi_notifications.Llm.Domain.{Assessment}
use profi_notifications.Llm.Listing.{Listing, Budget, url}

abbrev pub max_text_length : ℕ
max_text_length = 4096

abbrev pub ellipsis : Text
ellipsis = codes "…"

abbrev pub separator : Text
separator = 10 ∷ 10 ∷ []

pub data ParseMode : Type 0 where
  html markdown_v2 markdown : ParseMode

pub record NotificationCommand : Type 0 where
  pub text : Text
  pub parse_mode : ParseMode
  pub disable_web_page_preview : Bool

-- The UTF-16 code units of a character.
abbrev pub width : ℕ → ℕ
width c = if ltb 65535 c then 2 else 1

unfoldable pub tg_len : Text → ℕ
tg_len [] = 0
tg_len (c ∷ t) = width c + tg_len t

-- The loop of `_truncate`: what it keeps, from `used` code units on.
unfoldable pub keep : ℕ → ℕ → Text → Text
keep budget used [] = []
keep budget used (c ∷ t) =
    let rest = keep budget (used + width c) t in
    if ltb budget (used + width c) then [] else c ∷ rest

-- A `limit` of 0 stands for a negative one too: both give the empty text.
unfoldable pub truncate : Text → ℕ → Text
unfolding keep tg_len
truncate text limit =
    if leb limit 0
    then []
    else if leb (tg_len text) limit
    then text
    else rstrip (keep (limit - tg_len ellipsis) 0 text) ++ ellipsis

-- html.escape(text, quote=False)
unfoldable pub escape_char : ℕ → Text
escape_char c =
    if c == 38
    then codes "&amp;"
    else if c == 60
    then codes "&lt;"
    else if c == 62
    then codes "&gt;"
    else c ∷ []

unfoldable pub escape : Text → Text
unfolding escape_char
escape [] = []
escape (c ∷ t) = escape_char c ++ escape t

-- `title or "Без названия"`
abbrev or_untitled : Text → Text
or_untitled [] = codes "Без названия"
or_untitled (c ∷ t) = c ∷ t

unfoldable pub header : Listing → Text
unfolding escape
header listing =
    codes "🧩 <b><a href=\""
    ++ url listing
    ++ codes "\">"
    ++ escape (or_untitled (strip listing.title))
    ++ codes "</a></b>"

unfoldable pub budget_lines : Option Budget → List Text
unfolding escape
budget_lines none = []
budget_lines (some budget) = (codes "💰 " ++ escape budget.raw) ∷ []

unfoldable pub meta : Listing → Assessment → Text
unfolding budget_lines
meta listing assessment = join (10 ∷ []) (
    budget_lines listing.budget
    ++ (codes "🎯 Соответствие: " ++ decimal assessment.suitability_score ++ codes "/100") ∷ [])

-- What the header, the meta lines and two separators take.
unfoldable pub overhead : Listing → Assessment → ℕ
overhead listing assessment =
    tg_len (header listing) + tg_len (meta listing assessment) + tg_len separator * 2

unfoldable pub cut_summary : Listing → Assessment → Text
unfolding escape truncate overhead
cut_summary listing assessment =
    truncate (escape (strip assessment.summary)) (max_text_length - overhead listing assessment)

unfoldable pub parts : Listing → Assessment → List Text
unfolding cut_summary header meta
parts listing assessment =
    let summary = cut_summary listing assessment in
    if is_empty summary
    then header listing ∷ meta listing assessment ∷ []
    else header listing ∷ summary ∷ meta listing assessment ∷ []

unfoldable pub build_notification : Listing → Assessment → NotificationCommand
unfolding parts truncate
build_notification listing assessment = record {
  text = truncate (join separator (parts listing assessment)) max_text_length;
  parse_mode = html;
  disable_web_page_preview = true;
}

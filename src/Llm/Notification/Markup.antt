-- ===== src/Llm/Notification/Markup.antt =====
-- The tags in the text of a notification. The url in the header is put in as it is, so that the id of an
-- order may bring in a tag.
use profi_notifications.Llm.Domain.{Assessment}
use profi_notifications.Llm.Listing.{Budget, Listing, url}
use profi_notifications.Prelude.{
  none, some, codes, Option, strip, ℕ, ◌+◌, ◌-◌, ◌≤◌, ◌≡◌, ◌%◌, ◌/◌, [], ◌∷◌, ◌++◌, Text, arith,
  zero, suc, ◌==◌, is_empty, join, rstrip, decimal, decimal_of, if◌then◌else◌,
}
use profi_notifications.Llm.Notification.{
  some, codes, Option, max_text_length, Assessment, url, budget_lines, cut_summary, Listing, meta,
  header, parts, build_notification, escape, escape_char, keep, truncate, separator, width,
  ellipsis, tg_len, overhead, or_untitled,
}

-- How many characters `<` a text has.
abbrev pub tags : Text → ℕ
tags [] = 0
tags (c ∷ t) = let rest = tags t in if c == 60 then rest + 1 else rest

tags-append : (s t : Text) → tags (s ++ t) ≡ tags s + tags t
tags-append [] t = omega arith
tags-append (c ∷ s) t = ground (arith, tags-append s t)

tags-escape_char : (c : ℕ) → tags (escape_char c) ≡ 0
unfolding escape_char
tags-escape_char c = ground arith

tags-escape : (t : Text) → tags (escape t) ≡ 0
unfolding escape
tags-escape [] = omega arith
tags-escape (c ∷ t) =
    ground (arith, tags-escape_char c, tags-escape t, tags-append (escape_char c) (escape t))

tags-rstrip : (t : Text) → tags (rstrip t) ≤ tags t
unfolding rstrip
tags-rstrip [] = omega arith
tags-rstrip (c ∷ t) = ground (arith, tags-rstrip t)

tags-keep : (budget used : ℕ) (t : Text) → tags (keep budget used t) ≤ tags t
unfolding keep
tags-keep budget used [] = omega arith
tags-keep budget used (c ∷ t) = ground (arith, tags-keep budget (used + width c) t)

tags-truncate : (t : Text) (limit : ℕ) → tags (truncate t limit) ≤ tags t
unfolding truncate
tags-truncate t limit =
    let kept = keep (limit - tg_len ellipsis) 0 t in
    ground (
      arith,
      tags-rstrip kept,
      tags-keep (limit - tg_len ellipsis) 0 t,
      tags-append (rstrip kept) ellipsis,
    )

tags-decimal_of : (fuel n : ℕ) → tags (decimal_of fuel n) ≡ 0
unfolding decimal_of
tags-decimal_of zero n = omega arith
tags-decimal_of (suc fuel) n = ground (
  arith,
  tags-decimal_of fuel (n / 10),
  tags-append (decimal_of fuel (n / 10)) ((48 + n % 10) ∷ []),
)

tags-decimal : (n : ℕ) → tags (decimal n) ≡ 0
unfolding decimal
tags-decimal n = tags-decimal_of (suc n) n

joined :
    (h s m : Text)
    → tags (join separator (if is_empty s then h ∷ m ∷ [] else h ∷ s ∷ m ∷ []))
      ≡ tags h + tags s + tags m
unfolding join
joined h [] m = ground (arith, tags-append (h ++ separator) m, tags-append h separator)
joined h (c ∷ s) m = ground (
  arith,
  tags-append (h ++ separator) ((c ∷ s) ++ separator ++ m),
  tags-append h separator,
  tags-append ((c ∷ s) ++ separator) m,
  tags-append (c ∷ s) separator,
)

tags-header : (listing : Listing) → tags (header listing) ≡ 4 + tags listing.id
unfolding header url
tags-header listing =
    let title = escape (or_untitled (strip listing.title)) in
    let open_end = listing.id ++ codes "\">" in
    ground (
      arith,
      tags-append (open_end ++ title) (codes "</a></b>"),
      tags-append open_end title,
      tags-append listing.id (codes "\">"),
      tags-escape (or_untitled (strip listing.title)),
    )

score_line : ℕ → Text
score_line score = codes "🎯 Соответствие: " ++ decimal score ++ codes "/100"

tags-score_line : (score : ℕ) → tags (score_line score) ≡ 0
unfolding score_line
tags-score_line score =
    ground (arith, tags-append (decimal score) (codes "/100"), tags-decimal score)

tags-meta : (listing : Listing) (a : Assessment) → tags (meta listing a) ≡ 0
unfolding meta budget_lines join score_line
tags-meta listing a = go listing.budget
  where
    go :
        (b : Option Budget)
        → tags (join (10 ∷ []) (budget_lines b ++ score_line a.suitability_score ∷ [])) ≡ 0
    go none = tags-score_line a.suitability_score
    go (some budget) =
        let line = codes "💰 " ++ escape budget.raw in
        let score = score_line a.suitability_score in
        ground (
          arith,
          tags-append (line ++ 10 ∷ []) score,
          tags-append line (10 ∷ []),
          tags-escape budget.raw,
          tags-score_line a.suitability_score,
        )

tags-parts :
    (listing : Listing) (a : Assessment)
    → tags (join separator (parts listing a)) ≤ 4 + tags listing.id
unfolding parts cut_summary
tags-parts listing a =
    let summary = escape (strip a.summary) in
    let limit = max_text_length - overhead listing a in
    omega (
      arith,
      joined (header listing) (truncate summary limit) (meta listing a),
      tags-header listing,
      tags-meta listing a,
      tags-truncate summary limit,
      tags-escape (strip a.summary),
    )

-- The text of a notification has at most the four `<` of the two tags around its title, and those in
-- the id of the order: none from the title, the price or the summary.
pub notification_tags :
    (listing : Listing) (assessment : Assessment)
    → tags (build_notification listing assessment).text ≤ 4 + tags listing.id
unfolding build_notification
notification_tags listing assessment = omega (
  arith,
  tags-truncate (join separator (parts listing assessment)) max_text_length,
  tags-parts listing assessment,
)

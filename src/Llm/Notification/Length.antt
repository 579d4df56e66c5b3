-- ===== src/Llm/Notification/Length.antt =====
-- The limit of Telegram on the text of a message.
use profi_notifications.Prelude.{if◌then◌else◌, strip}
use profi_notifications.Llm.Domain.{Assessment}
use profi_notifications.Llm.Listing.{Listing}
use profi_notifications.Prelude.{[], ◌-◌, ◌∷◌, ◌+◌, arith, ◌++◌, ℕ, ◌≤◌, join, rstrip}
use profi_notifications.Llm.Notification.{
  is_empty, strip, escape, width, meta, ellipsis, max_text_length, ◌∷◌, header, cut_summary,
  separator, Assessment, ℕ, overhead, Text, keep, join, Listing, rstrip, build_notification, parts,
  tg_len, truncate,
}
use profi_notifications.Prelude.{Text, ◌≡◌}

pub tg_len-append : (s t : Text) → tg_len (s ++ t) ≡ tg_len s + tg_len t
unfolding tg_len
tg_len-append [] t = omega arith
tg_len-append (c ∷ s) t = omega (arith, tg_len-append s t)

tg_len-rstrip : (t : Text) → tg_len (rstrip t) ≤ tg_len t
unfolding tg_len rstrip
tg_len-rstrip [] = omega arith
tg_len-rstrip (c ∷ t) = ground (arith, tg_len-rstrip t)

tg_len-keep :
    (budget used : ℕ) (t : Text) → used ≤ budget → used + tg_len (keep budget used t) ≤ budget
unfolding tg_len keep
tg_len-keep budget used [] h = omega (arith, h)
tg_len-keep budget used (c ∷ t) h = ground (arith, tg_len-keep budget (used + width c) t)

pub tg_len-truncate : (t : Text) (limit : ℕ) → tg_len (truncate t limit) ≤ limit
unfolding truncate tg_len
tg_len-truncate t limit = ground (
  arith,
  tg_len-rstrip (keep (limit - 1) 0 t),
  tg_len-keep (limit - 1) 0 t,
  tg_len-append (rstrip (keep (limit - 1) 0 t)) ellipsis,
)

pub truncate-fits : (t : Text) (limit : ℕ) → tg_len t ≤ limit → truncate t limit ≡ t
unfolding truncate tg_len
truncate-fits [] limit h = ground arith
truncate-fits (c ∷ t) limit h = ground (arith, h)

-- No text of a notification has more than 4096 UTF-16 code units.
pub notification_fits :
    (listing : Listing) (assessment : Assessment)
    → tg_len (build_notification listing assessment).text ≤ 4096
unfolding build_notification
notification_fits listing assessment =
    tg_len-truncate (join separator (parts listing assessment)) max_text_length

joined_fit :
    (h s m : Text) (limit : ℕ)
    → tg_len h + tg_len m + 4 ≤ limit
    → tg_len s ≤ limit - (tg_len h + tg_len m + 4)
    → tg_len (join separator (if is_empty s then h ∷ m ∷ [] else h ∷ s ∷ m ∷ [])) ≤ limit
unfolding join tg_len
joined_fit h [] m limit a b =
    ground (arith, tg_len-append (h ++ separator) m, tg_len-append h separator)
joined_fit h (c ∷ s) m limit a b = ground (
  arith,
  tg_len-append (h ++ separator) ((c ∷ s) ++ separator ++ m),
  tg_len-append h separator,
  tg_len-append ((c ∷ s) ++ separator) m,
  tg_len-append (c ∷ s) separator,
)

parts_fit :
    (listing : Listing) (assessment : Assessment)
    → overhead listing assessment ≤ 4096
    → tg_len (join separator (parts listing assessment)) ≤ 4096
unfolding parts overhead cut_summary tg_len
parts_fit listing assessment h =
    joined_fit (header listing) (cut_summary listing assessment) (meta listing assessment) 4096 h
      (tg_len-truncate (escape (strip assessment.summary)) (4096 - overhead listing assessment))

-- If the header, the meta lines and two separators fit into 4096 code units, then the text is the
-- header, the summary cut to the rest, if any of it is left, and the meta lines: neither the header
-- nor the meta lines are cut.
pub notification_whole :
    (listing : Listing) (assessment : Assessment)
    → overhead listing assessment ≤ 4096
    → (build_notification listing assessment).text ≡ join separator (parts listing assessment)
unfolding build_notification
notification_whole listing assessment h =
    truncate-fits (join separator (parts listing assessment)) max_text_length
      (parts_fit listing assessment h)

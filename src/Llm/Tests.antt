-- ===== src/Llm/Tests.antt =====
-- Runs of llm on small orders.
pub mod Configured
use profi_notifications.Llm.Listing.Amount.{amount_spaced, IsSpaced, EndsNumber, only_digits}
use profi_notifications.Llm.Notification.Markup.{notification_tags, tags}
use profi_notifications.Llm.Domain.Policy.{notify-decide}
use profi_notifications.Llm.Assess.Batch.{
  batch_asked, batch_published, prompts, transient_ids, verdicts,
}
use profi_notifications.Llm.Subscriber.Retry.{
  message_again, IsAnswered, assessed_batch, requests_settled, unsent_verdict_lost,
  transient_orders,
}
use profi_notifications.Llm.Notification.Length.{notification_whole, notification_fits}
use profi_notifications.Prelude.Json.{pos}
use profi_notifications.Llm.Profile.{default_profile}
use profi_notifications.Llm.Mapping.{price_raises, budget_of, order_to_listing}
use profi_notifications.Prelude.Members.{In}
use profi_notifications.Llm.Subscriber.{listing_raises, retry_message, on_assess_requests}
use profi_notifications.Llm.Assess.{
  next_confirm, Confirm, refused, rate_limit, answer, raised, World, failure_of,
  LlmAssessmentSchema, handle, read_reply, to_assessment,
}
use profi_notifications.Llm.Notification.{
  escape_char, parts, separator, budget_lines, meta, escape, header, build_notification, overhead,
  tg_len,
}
use profi_notifications.Llm.Domain.{Assessment, decide}
use profi_notifications.Llm.Listing.{
  int_raises, up_to, url, bound_by_prefix, int_of_digits, amount_run, raw_budget, search_amount,
  Listing, amount_of, from_price,
}
use profi_notifications.Prelude.{
  length, ltb, inr, ◌+◌, zero, suc, digit_among, digit_value, arith, is_digit, is_space, rstrip,
  decimal_of, lstrip, strip, ◌≢◌, ◌⊎◌, ◌++◌, refl, false, ◌↔◌, inl, none, decimal, text_eq, ◌∷◌,
  join, some, [], true, ◌≡◌, map, ◌≤◌, lower_letter, Bool, codes, ◌==◌, List, Text, any, lower, ℕ,
}
use profi_notifications.Llm.Wire.{dump_message, ParseResultMessage, Order}

abbrev an_order : Text → Order
an_order id = record {
  id = id;
  title = codes "Bot <b>";
  description = codes "telegram";
  price = some (record { prefix = codes "до"; value = codes "15 000"; suffix = codes "₽" });
  geo = record { remote = none; order_location = none; client_may_come = none };
  client = record { name = codes "A"; tags = [] };
  badges = [];
  schedule = none;
  last_update = pos 17;
  score = 0;
  is_fresh = true;
  is_viewed = false;
  coordinates = none;
}

abbrev a_message : List Order → ParseResultMessage
a_message orders = record {
  request_id = codes "r1";
  fetched_at = pos 17;
  total_count = pos 2;
  next_cursor = none;
  orders = orders;
}

abbrev two_orders : List Order
two_orders = an_order (codes "41") ∷ an_order (codes "42") ∷ []

abbrev a_schema : ℕ → LlmAssessmentSchema
a_schema score = record {
  summary = codes "A bot";
  detected_skills = [];
  matched_strong = [];
  matched_working = [];
  unsupported_hits = [];
  is_rejected_type = false;
  suitability_score = score;
  rationale = [];
}

-- The first order fails transiently, the second is assessed.
abbrev a_world : List Confirm → World
a_world confirms = record {
  replies = raised rate_limit ∷ answer (a_schema 80) ∷ [];
  confirms = confirms;
  requests = [];
  results = [];
  retries = [];
  log = [];
}

abbrev assessed_world : List Confirm → World
assessed_world confirms = record {
  replies = answer (a_schema 80) ∷ [];
  confirms = confirms;
  requests = [];
  results = [];
  retries = [];
  log = [];
}

abbrev two_listings : List Listing
two_listings = map order_to_listing two_orders

abbrev a_listing : Listing
a_listing = order_to_listing (an_order (codes "41"))

abbrev an_assessment : Assessment
an_assessment = to_assessment (a_schema 80)

budget_read :
    from_price (codes "до") (codes "15 000") (codes "₽")
    ≡ some (record {
      raw = codes "до 15 000 ₽";
      amount = some 15000;
      currency = some (codes "₽");
      bound = some up_to;
    })
unfolding from_price raw_budget amount_of search_amount amount_run int_of_digits bound_by_prefix
    strip lstrip rstrip join lower lower_letter is_space is_digit digit_value digit_among text_eq
budget_read = refl

abbrev knows : List Text → Text → Bool
knows skills skill = any (λ s. text_eq (lower s) (lower skill)) skills

-- No unsupported skill stands among those of the profile, and no rejected project among the
-- preferred ones.
profile_disjoint :
    (any
        (knows (default_profile.strong_skills ++ default_profile.working_skills))
        default_profile.unsupported_skills
      ≡ false)
    × (any (knows default_profile.preferred_projects) default_profile.rejected_projects ≡ false)
unfolding lower lower_letter text_eq
profile_disjoint = (refl, refl)

notification_fits_example : tg_len (build_notification a_listing an_assessment).text ≤ 4096
notification_fits_example = notification_fits a_listing an_assessment

overhead_small : overhead a_listing an_assessment ≤ 4096
unfolding overhead header meta budget_lines escape escape_char tg_len url decimal decimal_of join
    strip lstrip rstrip is_space order_to_listing budget_of from_price raw_budget to_assessment
overhead_small = omega (arith)

notification_whole_example :
    (build_notification a_listing an_assessment).text
    ≡ join separator (parts a_listing an_assessment)
notification_whole_example = notification_whole a_listing an_assessment overhead_small

notification_tags_example :
    tags (build_notification a_listing an_assessment).text ≤ 4 + tags a_listing.id
notification_tags_example = notification_tags a_listing an_assessment

-- "до 15 000 ₽", with a no-break space in the number
spaces_read : IsSpaced (53 ∷ 160 ∷ codes "000")
unfolding is_space is_digit digit_value digit_among
spaces_read = (
  inl (omega arith, omega arith),
  (
    inr (refl, refl, refl),
    (
      inl (omega arith, omega arith),
      (inl (omega arith, omega arith), (inl (omega arith, omega arith), tt)),
    ),
  ),
)

no_digit : any is_digit (codes "до ") ≡ false
unfolding is_digit digit_value digit_among
no_digit = refl

number_ends : EndsNumber (codes "₽")
unfolding is_space is_digit digit_value digit_among
number_ends = (refl, refl)

fifteen_thousand : only_digits (49 ∷ 53 ∷ 160 ∷ codes "000") ≡ decimal 15000
unfolding decimal decimal_of
fifteen_thousand = refl

amount_spaced_example :
    let found = search_amount (codes "до " ++ (49 ∷ 53 ∷ 160 ∷ codes "000") ++ codes "₽") in
    (int_raises found ≡ ltb 4300 (length (decimal 15000))) × (amount_of found ≡ some 15000)
amount_spaced_example =
    amount_spaced 15000 (codes "до ") (53 ∷ 160 ∷ codes "000") (codes "₽") 49 no_digit
      (omega arith, omega arith) spaces_read fifteen_thousand number_ends

batch_asked_example :
    let (ids, w') = handle default_profile 70 two_listings (a_world []) in
    (ids ≡ transient_ids two_listings (a_world []).replies)
    × (w'.requests ≡ prompts default_profile two_listings)
    × (w'.retries ≡ [])
batch_asked_example = batch_asked default_profile 70 two_listings (a_world [])

batch_published_example :
    let w' = (handle default_profile 70 two_listings (a_world [])).1 in
    (w'.confirms ≡ []) × (w'.results ≡ verdicts 70 two_listings (a_world []).replies)
batch_published_example = batch_published default_profile 70 two_listings (a_world []) refl

requests_settled_example :
    let message = a_message two_orders in
    let out = on_assess_requests default_profile 70 message (a_world []) in
    let failed = transient_orders two_orders (a_world []).replies in
    ((listing_raises two_orders ≡ true) × (out ≡ (false, a_world [])))
    ⊎ ((listing_raises two_orders ≡ false)
        × (failed ≡ [])
        × (out ≡ (true, assessed_batch default_profile 70 message (a_world [])))
        × (out.1.retries ≡ []))
    ⊎ ((listing_raises two_orders ≡ false)
        × (failed ≢ [])
        × IsAnswered
            (dump_message (message_again message failed))
            (a_world [])
            (next_confirm (assessed_batch default_profile 70 message (a_world [])).confirms)
            out)
requests_settled_example = requests_settled default_profile 70 (a_message two_orders) (a_world [])

digits : ℕ → Text
digits zero = []
digits (suc n) = 55 ∷ digits n

-- 4301 digits are too many for `int`.
price_limit : (int_raises (some (digits 4300)) ≡ false) × (int_raises (some (digits 4301)) ≡ true)
unfolding int_raises is_digit digit_value digit_among digits
price_limit = (refl, refl)

price_read : price_raises (an_order (codes "41")).price ≡ false
unfolding price_raises int_raises search_amount amount_run is_digit digit_value digit_among is_space
price_read = refl

lets_through : (decide an_assessment 70).notify ≡ true
unfolding decide to_assessment
lets_through = refl

unsent_verdict_lost_example :
    let (acked, w') =
      on_assess_requests default_profile 70
        (a_message (an_order (codes "41") ∷ []))
        (assessed_world (refused ∷ [])) in
    (acked ≡ true) × (w'.results ≡ []) × (w'.retries ≡ [])
unsent_verdict_lost_example =
    unsent_verdict_lost default_profile 70 (a_message (an_order (codes "41") ∷ []))
      (an_order (codes "41")) (a_schema 80) (assessed_world (refused ∷ [])) refl price_read refl
      lets_through refl

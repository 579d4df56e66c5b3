-- ===== src/OrderCore/Guard/Accounts.antt =====
-- What has become of a message that `guard` acknowledges.
use profi_notifications.OrderCore.Guard.{
  [], Exc, permanent, inr, inl, err, Parsed-cases, ok, Result, World, Fields, Parsed, valid,
  invalid, guard, bury, after_handle, invalid_payload, permanent_category,
}
use profi_notifications.OrderCore.Effects.{publish_message, dead_letter, Message}
use profi_notifications.OrderCore.Effects.Publish.{
  sent-publish_any, committed-publish, sent-publish,
}
use profi_notifications.Prelude.{
  append-nil, sym, ◌∙◌, [], ◌∷◌, ◌≢◌, arith, ◌++◌, refl, inr, inl, ◌⊎◌, List, ◌≡◌, Text,
}
use profi_notifications.Prelude.Members.{Extends}

-- What a dead letter of the message may do to what was sent.
abbrev pub Letters : Fields → List Message → List Message → Type 0
Letters raw sent sent' =
    (sent' ≡ sent)
    ⊎ ((category reason : Text) × (sent' ≡ sent ++ dead_letter category reason raw ∷ []))

pub Letters-Extends :
    (raw : Fields) (sent sent' : List Message) → Letters raw sent sent' → Extends sent sent'
Letters-Extends raw sent sent' (inl e) = ([], e ∙ sym (append-nil sent))
Letters-Extends raw sent sent' (inr (category, reason, e)) =
    (dead_letter category reason raw ∷ [], e)

module _ {D M : Type 0} (queue : Text) (parse : Fields → Parsed M)
    (handle : M → World D → Result Unit × World D) (raw : Fields) where
  -- The raw message is the last one that the broker took, in a dead letter of the category.
  abbrev pub Buried : Text → World D → Type 0
  Buried category w' =
      (reason : Text) × (before : List Message) × (w'.sent
        ≡ before ++ dead_letter category reason raw ∷ [])

  -- An acknowledged message went through its handler, or stands in a dead letter: as
  -- "invalid-payload" if it does not parse, as "permanent" if its handler said so.
  abbrev pub Accounted : World D → World D → Type 0
  Accounted w w' =
      ((m : M) × (parse raw ≡ valid m) × (handle m w ≡ (ok tt, w')))
      ⊎ ((reason : Text) × (parse raw ≡ invalid reason) × Buried invalid_payload w')
      ⊎ ((m : M) × (reason : Text) × (parse raw ≡ valid m)
          × ((handle m w).0 ≡ err (permanent reason))
          × Buried permanent_category w')

  sent-bury :
      (category reason : Text) (w : World D)
      → (bury queue category reason raw w).0 ≡ ok tt
      → (bury queue category reason raw w).1.sent ≡ w.sent ++ dead_letter category reason raw ∷ []
  unfolding bury
  sent-bury category reason w h = ground (arith, sent-publish (dead_letter category reason raw) w)

  bury-Buried :
      (category reason : Text) (w w' : World D)
      → bury queue category reason raw w ≡ (ok tt, w')
      → Buried category w'
  bury-Buried category reason w w' e =
      (reason, w.sent, ground (arith, sent-bury category reason w, e))

  after_handle-fate :
      (out : Result Unit × World D) (w' : World D)
      → after_handle queue raw out ≡ (ok tt, w')
      → (out ≡ (ok tt, w'))
        ⊎ ((reason : Text) × (out.0 ≡ err (permanent reason)) × Buried permanent_category w')
  unfolding after_handle
  after_handle-fate (ok u, w) w' e = inl e
  after_handle-fate (err (permanent reason), w) w' e =
      inr (reason, refl, bury-Buried permanent_category reason w w' e)
  after_handle-fate (err _, w) w' e = cc

  -- If guard acknowledges a raw message, then either it parsed and its handler returned in
  -- the state that is left; or it did not parse and the last message that the broker took is
  -- its dead letter of category invalid-payload; or it parsed, its handler raised a
  -- PermanentError, and the last message that the broker took is its dead letter of category
  -- permanent.
  pub guard_accounts :
      (w w' : World D) → guard queue parse handle raw w ≡ (ok tt, w') → Accounted w w'
  unfolding guard
  guard_accounts w w' e = elim (Parsed-cases (parse raw)) [
    | inl (m, p) ↦ elim (after_handle-fate (handle m w) w' (rw (p, guard) at e)) [
      | inl done ↦ inl (m, p, done)
      | inr (reason, q, b) ↦ inr (inr (m, reason, p, q, b))
    ]
    | inr (reason, p) ↦
        inr (inl (reason, p, bury-Buried invalid_payload reason w w' (rw (p, guard) at e)))
  ]

  -- If a raw message parses and its handler raises an error that is no PermanentError, then
  -- guard raises this error, in the state that the handler left.
  pub guard_returns :
      (w w' : World D) (m : M) (e : Exc)
      → parse raw ≡ valid m
      → handle m w ≡ (err e, w')
      → ((reason : Text) → e ≢ permanent reason)
      → guard queue parse handle raw w ≡ (err e, w')
  unfolding guard after_handle
  guard_returns w w' m (permanent reason) p h n = absurd (n reason refl)
  guard_returns w w' m _ p h n = rw (p, guard) (rw h refl)

  after_handle_permanent :
      (out : Result Unit × World D) (reason : Text)
      → out.0 ≡ err (permanent reason)
      → out.1.confirms ≡ []
      → let (r, w') = after_handle queue raw out in
        (r ≡ ok tt)
        × (w'.committed ≡ out.1.committed)
        × (w'.sent ≡ out.1.sent ++ dead_letter permanent_category reason raw ∷ [])
  unfolding after_handle bury publish_message
  after_handle_permanent out reason h c = ground arith

  -- A `PermanentError` is dead-lettered with its text, if the broker takes the letter.
  pub guard_permanent :
      (w : World D) (m : M) (reason : Text)
      → parse raw ≡ valid m
      → (handle m w).0 ≡ err (permanent reason)
      → (handle m w).1.confirms ≡ []
      → let (r, w') = guard queue parse handle raw w in
        (r ≡ ok tt)
        × (w'.committed ≡ (handle m w).1.committed)
        × (w'.sent ≡ (handle m w).1.sent ++ dead_letter permanent_category reason raw ∷ [])
  unfolding guard
  guard_permanent w m reason p h c = rw (p, guard) (after_handle_permanent (handle m w) reason h c)

  bury_keeps :
      (category reason : Text) (w : World D)
      → let w' = (bury queue category reason raw w).1 in
        (w'.committed ≡ w.committed) × Letters raw w.sent w'.sent
  unfolding bury
  bury_keeps category reason w =
      let m = dead_letter category reason raw in
      (
        ground (arith, committed-publish m w),
        elim (sent-publish_any m w) [
          | inl e ↦ inl (ground (arith, e))
          | inr e ↦ inr (category, reason, ground (arith, e))
        ],
      )

  -- A property of worlds that the handler of a parsed message keeps, and that no dead letter of it
  -- breaks, is kept.
  module _ (P : World D → Type 0)
      (letters : (w w' : World D)
        → w'.committed ≡ w.committed
        → Letters raw w.sent w'.sent
        → P w
        → P w')
      (handles : (m : M) → parse raw ≡ valid m → (w : World D) → P w → P (handle m w).1) where
    bury_inv : (category reason : Text) (w : World D) → P w → P (bury queue category reason raw w).1
    bury_inv category reason w h =
        let (c, sent) = bury_keeps category reason w in
        letters w (bury queue category reason raw w).1 c sent h

    after_handle_inv : (out : Result Unit × World D) → P out.1 → P (after_handle queue raw out).1
    unfolding after_handle
    after_handle_inv (ok u, w) h = h
    after_handle_inv (err (permanent reason), w) h = bury_inv permanent_category reason w h
    after_handle_inv (err _, w) h = h

    pub guard_inv : (w : World D) → P w → P (guard queue parse handle raw w).1
    unfolding guard
    guard_inv w h = elim (Parsed-cases (parse raw)) [
      | inl (m, p) ↦ rw (p, guard) (after_handle_inv (handle m w) (handles m p w h))
      | inr (reason, p) ↦ rw (p, guard) (bury_inv invalid_payload reason w h)
    ]

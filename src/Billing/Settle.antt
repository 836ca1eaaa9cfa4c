-- ===== src/Billing/Settle.antt =====
-- internal/billing/stripe.go: the retries of failed events come to an end.
use secure_gateway.Common.{
  ℕ, zero, suc, ◌+◌, ◌-◌, ◌≤◌, ◌<◌, ◌≡◌, ◌≢◌, ◌⊎◌, refl, sym, ap, ◌∙◌, subst, String, str_eq,
  eq_iff, arith, true, Option, none, some, List, [], ◌∷◌, All, Bool-cases, inl, inr, length, leb,
  if◌then◌else◌, string_key,
}
use secure_gateway.Common.Table.{Table, get, put, values, get-put, put-Distinct}
use secure_gateway.AuthStore.{
  WebhookEvent, WebhookStatus, webhook_failed, webhook_dead, webhook_processed,
}
use secure_gateway.AuthStore.Webhooks.{set_webhook_status, list_webhook_events_by_status}
use secure_gateway.Billing.Objects.{Event}
use secure_gateway.Billing.Run.{Processor, World, Run, failed, going}
use secure_gateway.Billing.Events.{dispatch}
use secure_gateway.Billing.Retry.{
  max_attempts, mark, Tally, retried, retry_parsed, retry_one, retry_each, retry_failed,
}
use secure_gateway.Billing.Leaves.{Leaves}
use secure_gateway.Billing.Steady.{dispatch-steady}
use secure_gateway.Billing.Listing.{
  NoDup, IsKeyed, Stands, is_failed, listed-Stands, listed-is_failed, listed-NoDup, listed-empty,
  empty-listed,
}

-- The tries that a failed event has left, at least one; any other event has none.
abbrev pub tries_left : WebhookEvent → ℕ
tries_left e = if is_failed e then suc (max_attempts - e.attempts) else 0

abbrev pub total : List WebhookEvent → ℕ
total [] = 0
total (e ∷ es) = tries_left e + total es

abbrev pub all_tries : World → ℕ
all_tries w = total (values w.store.webhook_events)

total-put :
    (k : String) (v old : WebhookEvent) (m : Table String WebhookEvent)
    → get k m ≡ some old
    → total (values (put k v m)) + tries_left old ≡ total (values m) + tries_left v
unfolding get put
total-put k v old [] h = ground arith
total-put k v old ((i, w) ∷ m) h = ground (arith, total-put k v old m)

-- The event of an id has changed to one with fewer tries left.
record IsTried (e : WebhookEvent) (m m' : Table String WebhookEvent) : Type 0 where
  next : WebhookEvent
  same_id : next.id ≡ e.id
  fewer : tries_left next < tries_left e
  written : m' ≡ put e.id next m

mark-events :
    (e : WebhookEvent) (status : WebhookStatus) (attempts at : ℕ) (w : World)
    → get e.id w.store.webhook_events ≡ some e
    → (mark e.id status attempts at w).store.webhook_events
      ≡ put e.id
          (record e { status = status; attempts = attempts; processed_at = at })
          w.store.webhook_events
unfolding set_webhook_status
mark-events e status attempts at w h = ground (arith, h)

mark-IsTried :
    (e : WebhookEvent) (status : WebhookStatus) (attempts at : ℕ) (w : World)
    (m : Table String WebhookEvent)
    → w.store.webhook_events ≡ m
    → Stands m e
    → tries_left (record e { status = status; attempts = attempts; processed_at = at })
      < tries_left e
    → IsTried e m (mark e.id status attempts at w).store.webhook_events
mark-IsTried e status attempts at w m same h less = record {
  next = record e { status = status; attempts = attempts; processed_at = at };
  same_id = refl;
  fewer = less;
  written =
      mark-events e status attempts at w (rw same h)
      ∙ ap (λ x. put e.id (record e { status = status; attempts = attempts; processed_at = at }) x)
          same;
}

abbrev Has : Table String WebhookEvent → World → Type 0
Has m w = w.store.webhook_events ≡ m

retried-IsTried :
    (e : WebhookEvent) (now : ℕ) (r : Run World) (t : Tally) (m : Table String WebhookEvent)
    → Leaves (Has m) (Has m) r
    → Stands m e
    → is_failed e ≡ true
    → IsTried e m (retried e now r t).0.store.webhook_events
retried-IsTried e now (failed w err) t m h st f =
    elim (Bool-cases (leb max_attempts (suc e.attempts))) [
      | inl last ↦
          rw last (mark-IsTried e webhook_dead (suc e.attempts) 0 w m h.ends st (ground (arith, f)))
      | inr again ↦ rw again (
          mark-IsTried e webhook_failed (suc e.attempts) 0 w m h.ends st (ground (arith, f, again)))
    ]
retried-IsTried e now (going w) t m h st f =
    mark-IsTried e webhook_processed 0 now w m h.ends st (ground (arith, f))

parsed-IsTried :
    (p : Processor) (now : ℕ) (e : WebhookEvent) (o : Option Event) (w : World) (t : Tally)
    → Stands w.store.webhook_events e
    → is_failed e ≡ true
    → IsTried e w.store.webhook_events (retry_parsed p now e o w t).0.store.webhook_events
parsed-IsTried p now e none w t st f =
    mark-IsTried e webhook_dead e.attempts now w w.store.webhook_events refl st (ground (arith, f))
parsed-IsTried p now e (some ev) w t st f =
    retried-IsTried e now (dispatch p now ev w) t w.store.webhook_events
      (dispatch-steady w.store.webhook_events p now ev w refl) st f

put-IsKeyed :
    (id : String) (v : WebhookEvent) (m : Table String WebhookEvent)
    → v.id ≡ id
    → IsKeyed m
    → IsKeyed (put id v m)
put-IsKeyed id v m own k = record {
  distinct = put-Distinct id v m k.distinct;
  keyed = λ j e f. elim (Bool-cases (str_eq id j)) [
    | inl same ↦ ground (arith, own, get-put id j v m, eq_iff id j, f)
    | inr other ↦ k.keyed j e (ground (arith, get-put id j v m, f))
  ];
}

-- The others stand as they stood.
rest-Stands :
    (id : String) (v : WebhookEvent) (m : Table String WebhookEvent) (es : List WebhookEvent)
    → All (λ y. y.id ≢ id) es
    → All (Stands m) es
    → All (Stands (put id v m)) es
rest-Stands id v m [] i h = tt
rest-Stands id v m (e ∷ es) i h =
    (ground (arith, get-put id e.id v m, eq_iff id e.id, i.0, h.0), rest-Stands id v m es i.1 h.1)

-- A pass over the listed events takes at least one try from each, and keeps the table in order.
retry_each-tries :
    (p : Processor) (now : ℕ) (es : List WebhookEvent) (w : World) (t : Tally)
    → IsKeyed w.store.webhook_events
    → NoDup es
    → All (Stands w.store.webhook_events) es
    → All (λ e. is_failed e ≡ true) es
    → (all_tries (retry_each p now es (w, t)).0 + length es ≤ all_tries w)
      × IsKeyed (retry_each p now es (w, t)).0.store.webhook_events
unfolding retry_each retry_one
retry_each-tries p now [] w t k n st f = (omega arith, k)
retry_each-tries p now (e ∷ es) w t k n st f =
    let r = retry_parsed p now e (p.parse.event e.payload) w t in
    let m = w.store.webhook_events in
    let tried = parsed-IsTried p now e (p.parse.event e.payload) w t st.0 f.0 in
    let k1 : IsKeyed r.0.store.webhook_events =
      subst IsKeyed (sym tried.written) (put-IsKeyed e.id tried.next m tried.same_id k) in
    let st1 : All (Stands r.0.store.webhook_events) es =
      subst (λ x. All (Stands x) es) (sym tried.written)
        (rest-Stands e.id tried.next m es n.0 st.1) in
    let (later, kept) = retry_each-tries p now es r.0 r.1 k1 n.1 st1 f.1 in
    let less : all_tries r.0 < all_tries w =
      subst (λ x. total (values x) < total (values m)) (sym tried.written)
        (omega (arith, total-put e.id tried.next e m st.0, tried.fewer)) in
    (omega (arith, later, less), kept)

-- RetryFailed again and again; the clock and the limit may differ from round to round.
unfoldable pub rounds : Processor → (ℕ → ℕ) → (ℕ → ℕ) → ℕ → World → World
rounds p clock limit zero w = w
rounds p clock limit (suc n) w = rounds p clock limit n (retry_failed p (clock n) (limit n) w).0

abbrev pub failed_events : ℕ → World → List WebhookEvent
failed_events limit w = list_webhook_events_by_status webhook_failed limit w.store

retry_failed-tries :
    (p : Processor) (now limit : ℕ) (w : World)
    → IsKeyed w.store.webhook_events
    → (all_tries (retry_failed p now limit w).0 + length (failed_events limit w) ≤ all_tries w)
      × IsKeyed (retry_failed p now limit w).0.store.webhook_events
unfolding retry_failed
retry_failed-tries p now limit w k =
    retry_each-tries p now (failed_events limit w) w (record { processed = 0; dead = 0 }) k
      (listed-NoDup limit w.store k) (listed-Stands limit w.store k)
      (listed-is_failed limit w.store)

retry_failed-empty :
    (p : Processor) (now limit : ℕ) (w : World)
    → failed_events limit w ≡ []
    → (retry_failed p now limit w).0 ≡ w
unfolding retry_failed retry_each
retry_failed-empty p now limit w h = rw h refl

rounds-settled :
    (p : Processor) (clock limit : ℕ → ℕ) (n : ℕ) (w : World)
    → failed_events 0 w ≡ []
    → failed_events 0 (rounds p clock limit n w) ≡ []
unfolding rounds
rounds-settled p clock limit zero w h = h
rounds-settled p clock limit (suc n) w h =
    rounds-settled p clock limit n (retry_failed p (clock n) (limit n) w).0 (
      subst (λ v. failed_events 0 v ≡ [])
        (sym (retry_failed-empty p (clock n) (limit n) w (empty-listed (limit n) w.store h))) h)

List-cases {ℓ} : {A : Type ℓ} (xs : List A) → (xs ≡ []) ⊎ (1 ≤ length xs)
List-cases [] = inl refl
List-cases (x ∷ xs) = inr (omega arith)

-- The retries end: when recorded events stand under their own ids, each once, as many calls of
-- RetryFailed as the failed events have tries left in all (at most six for each event), with any clocks
-- and limits, leave no event in the failed state.
pub retries_end :
    (p : Processor) (clock limit : ℕ → ℕ) (n : ℕ) (w : World)
    → IsKeyed w.store.webhook_events
    → all_tries w ≤ n
    → failed_events 0 (rounds p clock limit n w) ≡ []
unfolding rounds
retries_end p clock limit zero w k h = elim (List-cases (failed_events 0 w)) [
  | inl e ↦ e
  | inr busy ↦ absurd (omega (arith, (retry_failed-tries p (clock 0) 0 w k).0, h, busy))
]
retries_end p clock limit (suc n) w k h =
    let (tries, kept) = retry_failed-tries p (clock n) (limit n) w k in
    elim (List-cases (failed_events (limit n) w)) [
      | inl e ↦ rounds-settled p clock limit n (retry_failed p (clock n) (limit n) w).0 (
          subst (λ v. failed_events 0 v ≡ []) (sym (retry_failed-empty p (clock n) (limit n) w e))
            (listed-empty (limit n) w.store e))
      | inr busy ↦
          retries_end p clock limit n (retry_failed p (clock n) (limit n) w).0 kept
            (omega (arith, tries, busy, h))
    ]

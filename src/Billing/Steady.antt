-- ===== src/Billing/Steady.antt =====
-- internal/billing/stripe.go: the handlers leave the recorded events alone.
use secure_gateway.Common.{
  ℕ, ◌≡◌, refl, ap, ◌∙◌, String, str_eq, Bool, true, false, ◌||◌, Option, none, some, arith,
  Bool-cases, inl, inr, if◌then◌else◌, string_key,
}
use secure_gateway.Common.Table.{Table, get}
use secure_gateway.AuthStore.{WebhookEvent, Account, Subscription}
use secure_gateway.AuthStore.State.{Store, Outcome, ok, fail}
use secure_gateway.AuthStore.Accounts.{upsert_account, get_account_by_customer}
use secure_gateway.AuthStore.Licenses.{upsert_subscription, get_subscription}
use secure_gateway.AuthStore.Checkout.{mark_checkout_claim_ready}
use secure_gateway.License.{revoked}
use secure_gateway.Billing.Objects.{StripeSubscription, Event, id_of}
use secure_gateway.Billing.Run.{
  Processor, World, Run, with_store, parse_subscription, parse_invoice, parse_checkout_session,
  fetch_subscription,
}
use secure_gateway.Billing.Sync.{
  resolve_account, account_or_new, sync_subscription, mirror_of, enforce, reactivate,
}
use secure_gateway.Billing.Events.{
  checkout_account, bind_claim, handle_checkout_completed, handle_subscription_upsert,
  handle_subscription_deleted, handle_invoice_payment_failed, handle_invoice_paid,
  invoice_subscription_id, fall_late, clear_grace, paid_mirror, canceled_mirror, dispatch,
}
use secure_gateway.Billing.Leaves.{Leaves, Leaves-bind, Leaves-need, Leaves-map}
use secure_gateway.Billing.Frame.{Framed, enforce-Framed, reactivate-Framed}
use secure_gateway.Billing.Mirror.{sync-Framed}

module _ (t : Table String WebhookEvent) where
  abbrev P : World → Type 0
  P w = w.store.webhook_events ≡ t

  Framed-events : (s : Store) (v : World) → s.webhook_events ≡ t → Framed s v.store → P v
  Framed-events s v h (ls, ps, e) = ap (λ u. u.webhook_events) e ∙ h

  subscription_events :
      (m : Subscription) (s : Store) → (upsert_subscription m s).webhook_events ≡ s.webhook_events
  unfolding upsert_subscription
  subscription_events m s = refl

  sync-steady :
      (p : Processor) (now : ℕ) (sub : StripeSubscription) (account : String) (w : World)
      → P w
      → Leaves P P (sync_subscription p now sub account w)
  sync-steady p now sub account w h =
      let m = mirror_of p now sub account w in
      let s = upsert_subscription m w.store in
      let keep : (v : World) → Framed s v.store → P v =
        λ v f. Framed-events s v (subscription_events m w.store ∙ h) f in
      Leaves-map P P (sync_subscription p now sub account w) keep keep
        (sync-Framed p now sub account w)

  account_or_new-steady :
      (p : Processor) (now : ℕ) (customer : String) (w : World) (o : Outcome Account)
      → P w
      → P (account_or_new p now customer w o).0
  unfolding upsert_account
  account_or_new-steady p now customer w (ok a) h = h
  account_or_new-steady p now customer w (fail e) h = h

  resolve-steady :
      (p : Processor) (now : ℕ) (customer : String) (w : World)
      → P w
      → Leaves P (λ r. P r.0) (resolve_account p now customer w)
  unfolding resolve_account
  resolve-steady p now customer w h = elim (Bool-cases (str_eq customer "")) [
    | inl e ↦ rw e (record { ends = h })
    | inr e ↦ rw e (record {
      ends = account_or_new-steady p now customer w (get_account_by_customer customer w.store) h;
    })
  ]

  upsert-steady :
      (p : Processor) (now : ℕ) (ev : Event) (w : World)
      → P w
      → Leaves P P (handle_subscription_upsert p now ev w)
  unfolding handle_subscription_upsert
  upsert-steady p now ev w h =
      Leaves-need P (λ x. Unit {0}) P w (p.parse.subscription ev.raw) parse_subscription _ h
        (λ sub _.
          Leaves-bind P (λ r. P r.0) P (resolve_account p now (id_of sub.customer) w) _
            (resolve-steady p now _ w h)
            (λ (w1, account) _ h1. sync-steady p now sub account w1 h1))

  deleted-steady :
      (p : Processor) (now : ℕ) (ev : Event) (w : World)
      → P w
      → Leaves P P (handle_subscription_deleted p now ev w)
  unfolding handle_subscription_deleted
  deleted-steady p now ev w h =
      Leaves-need P (λ x. Unit {0}) P w (p.parse.subscription ev.raw) parse_subscription _ h
        (λ sub _.
          Leaves-bind P (λ r. P r.0) P (resolve_account p now (id_of sub.customer) w) _
            (resolve-steady p now _ w h)
            (λ (w1, account) _ h1.
              let m = canceled_mirror p now sub account in
              let s = upsert_subscription m w1.store in
              let keep : (v : World) → Framed s v.store → P v =
                λ v f. Framed-events s v (subscription_events m w1.store ∙ h1) f in
              Leaves-map P P (enforce sub.id revoked (with_store w1 s)) keep keep
                (enforce-Framed s sub.id revoked (with_store w1 s) (s.licenses, s.pairings, refl))))

  invoice-steady :
      (p : Processor) (ev : Event) (w : World)
      → P w
      → Leaves P (λ id. Unit {0}) (invoice_subscription_id p ev w)
  unfolding invoice_subscription_id
  invoice-steady p ev w h =
      Leaves-need P (λ x. Unit {0}) (λ id. Unit {0}) w (p.parse.invoice ev.raw) parse_invoice _ h
        (λ inv _. elim (Bool-cases (str_eq (id_of inv.parent_subscription) "")) [
          | inl e ↦ rw e (record { ends = h })
          | inr e ↦ rw e (record { ends = tt })
        ])

  fall_late-steady :
      (p : Processor) (now : ℕ) (w : World) (o : Outcome Subscription)
      → P w
      → Leaves P P (fall_late p now w o)
  unfolding upsert_subscription
  fall_late-steady p now w (ok m) h = record { ends = h }
  fall_late-steady p now w (fail e) h = record { ends = h }

  late-steady :
      (p : Processor) (now : ℕ) (ev : Event) (w : World)
      → P w
      → Leaves P P (handle_invoice_payment_failed p now ev w)
  unfolding handle_invoice_payment_failed
  late-steady p now ev w h =
      Leaves-bind P (λ id. Unit {0}) P (invoice_subscription_id p ev w) _ (invoice-steady p ev w h)
        (λ id _ _. fall_late-steady p now w (get_subscription id w.store) h)

  clear_grace-steady :
      (now : ℕ) (id : String) (w : World) (o : Outcome Subscription)
      → P w
      → Leaves P P (clear_grace now id w o)
  clear_grace-steady now id w (fail e) h = record { ends = h }
  clear_grace-steady now id w (ok m) h =
      let s = upsert_subscription (paid_mirror now m) w.store in
      let keep : (v : World) → Framed s v.store → P v =
        λ v f. Framed-events s v (subscription_events (paid_mirror now m) w.store ∙ h) f in
      Leaves-map P P (reactivate id (with_store w s)) keep keep
        (reactivate-Framed s id (with_store w s) (s.licenses, s.pairings, refl))

  paid-steady :
      (p : Processor) (now : ℕ) (ev : Event) (w : World)
      → P w
      → Leaves P P (handle_invoice_paid p now ev w)
  unfolding handle_invoice_paid
  paid-steady p now ev w h =
      Leaves-bind P (λ id. Unit {0}) P (invoice_subscription_id p ev w) _ (invoice-steady p ev w h)
        (λ id _ _. clear_grace-steady now id w (get_subscription id w.store) h)

  mark_events :
      (nonce account license sub session : String) (s : Store)
      → (mark_checkout_claim_ready nonce account license sub session s).webhook_events
        ≡ s.webhook_events
  unfolding mark_checkout_claim_ready
  mark_events nonce account license sub session s = ground arith

  bind_claim-steady :
      (o : Option String) (account sub session : String) (w : World)
      → P w
      → P (bind_claim o account sub session w)
  bind_claim-steady none account sub session w h = h
  bind_claim-steady (some nonce) account sub session w h = elim (Bool-cases (str_eq nonce "")) [
    | inl e ↦ rw e h
    | inr e ↦ rw e (mark_events nonce account _ sub session w.store ∙ h)
  ]

  checkout_account-steady :
      (p : Processor) (now : ℕ) (reference customer : String) (w : World)
      → P w
      → Leaves P (λ r. P r.0) (checkout_account p now reference customer w)
  checkout_account-steady p now reference customer w h = elim (Bool-cases (str_eq reference "")) [
    | inl e ↦ rw e (resolve-steady p now customer w h)
    | inr e ↦ rw e (record { ends = h })
  ]

  account_events :
      (a : Account) (s : Store) → (upsert_account a s).webhook_events ≡ s.webhook_events
  unfolding upsert_account
  account_events a s = refl

  completed-steady :
      (p : Processor) (now : ℕ) (ev : Event) (w : World)
      → P w
      → Leaves P P (handle_checkout_completed p now ev w)
  unfolding handle_checkout_completed
  completed-steady p now ev w h =
      Leaves-need P (λ x. Unit {0}) P w (p.parse.checkout_session ev.raw) parse_checkout_session _ h
        (λ cs _. elim (Bool-cases (str_eq (id_of cs.customer) "")) [
          | inl e ↦ rw e (record { ends = h })
          | inr e ↦ rw e (
              Leaves-bind P (λ r. P r.0) P
                (checkout_account p now cs.client_reference_id (id_of cs.customer) w) _
                (checkout_account-steady p now cs.client_reference_id (id_of cs.customer) w h)
                (λ (w1, account) _ h1.
                  let a : Account = record {
                    id = account;
                    stripe_customer_id = id_of cs.customer;
                    secret_hash = "";
                    created_at = now;
                  } in
                  let w2 = with_store w1 (upsert_account a w1.store) in
                  let h2 : P w2 = account_events a w1.store ∙ h1 in
                  elim (Bool-cases (str_eq (id_of cs.subscription) "")) [
                    | inl f ↦ rw f (record { ends = h2 })
                    | inr f ↦ rw f (
                        Leaves-need P (λ x. Unit {0}) P w2
                          (p.get_subscription (id_of cs.subscription)) fetch_subscription _ h2
                          (λ sub _.
                            Leaves-bind P P P (sync_subscription p now sub account w2) _
                              (sync-steady p now sub account w2 h2)
                              (λ w3 _ h3. record {
                                ends =
                                    bind_claim-steady (get "nonce" cs.metadata) account
                                      (id_of cs.subscription) cs.id w3 h3;
                              })))
                  ]))
        ])

  -- However the handling of an event ends, the recorded events are as they were.
  pub dispatch-steady :
      (p : Processor) (now : ℕ) (ev : Event) (w : World) → P w → Leaves P P (dispatch p now ev w)
  unfolding dispatch
  dispatch-steady p now ev w h =
      if-Leaves (str_eq ev.type "checkout.session.completed") _ _ (completed-steady p now ev w h) (
        if-Leaves
          (str_eq ev.type "customer.subscription.created"
            || str_eq ev.type "customer.subscription.updated")
          _ _ (upsert-steady p now ev w h)
          (if-Leaves (str_eq ev.type "customer.subscription.deleted") _ _
            (deleted-steady p now ev w h)
            (if-Leaves (str_eq ev.type "invoice.payment_failed") _ _ (late-steady p now ev w h) (
              if-Leaves (str_eq ev.type "invoice.paid") _ _ (paid-steady p now ev w h)
                (record { ends = h })))))
    where
      if-Leaves :
          (b : Bool) (m n : Run World)
          → Leaves P P m
          → Leaves P P n
          → Leaves P P (if b then m else n)
      if-Leaves true m n x y = x
      if-Leaves false m n x y = y

-- ===== src/Billing/Events.antt =====
-- internal/billing/stripe.go: the handlers of Stripe's events, and internal/billing/reconcile.go.
use secure_gateway.Common.{
  ℕ, ◌+◌, String, str_eq, ◌||◌, Option, none, some, List, [], ◌∷◌, if◌then◌else◌, string_key,
}
use secure_gateway.Common.Table.{get}
use secure_gateway.AuthStore.{is_zero, past_due, active, canceled, Account, Subscription, License}
use secure_gateway.AuthStore.State.{Outcome, ok, fail}
use secure_gateway.AuthStore.Accounts.{upsert_account}
use secure_gateway.AuthStore.Licenses.{
  upsert_subscription, get_subscription, list_licenses_by_subscription,
}
use secure_gateway.AuthStore.Checkout.{mark_checkout_claim_ready}
use secure_gateway.License.{revoked}
use secure_gateway.Billing.Objects.{StripeSubscription, Invoice, Event, id_of, max_pairs_for}
use secure_gateway.Billing.Run.{
  Processor, World, Run, failed, going, ◌>>=◌, need, Error, parse_checkout_session,
  parse_subscription, parse_invoice, no_customer, no_subscription, fetch_subscription,
  invoice_without_subscription, unknown_subscription, list_failed, with_store,
}
use secure_gateway.Billing.Sync.{
  resolve_account, sync_subscription, enforce, reactivate, is_past_due,
}

-- The account that the session names, or the one of the customer.
abbrev pub checkout_account : Processor → ℕ → String → String → World → Run (World × String)
checkout_account p now reference customer w =
    if str_eq reference "" then resolve_account p now customer w else going (w, reference)

abbrev first_license_id : List License → String
first_license_id [] = ""
first_license_id (l ∷ rest) = l.id

-- A session that a desktop started carries its nonce.
abbrev pub bind_claim : Option String → String → String → String → World → World
bind_claim none account sub session w = w
bind_claim (some nonce) account sub session w =
    if str_eq nonce ""
    then w
    else with_store w (
        mark_checkout_claim_ready nonce account
          (first_license_id (list_licenses_by_subscription sub w.store)) sub session w.store)

unfoldable pub handle_checkout_completed : Processor → ℕ → Event → World → Run World
handle_checkout_completed p now ev w = do
  cs ← need w (p.parse.checkout_session ev.raw) parse_checkout_session
  let customer = id_of cs.customer
  if str_eq customer "" then failed w no_customer else (do
    (w1, account) ← checkout_account p now cs.client_reference_id customer w
    let a : Account = record {
      id = account;
      stripe_customer_id = customer;
      secret_hash = "";
      created_at = now;
    }
    let w2 = with_store w1 (upsert_account a w1.store)
    let sub_id = id_of cs.subscription
    if str_eq sub_id "" then failed w2 no_subscription else (do
      sub ← need w2 (p.get_subscription sub_id) fetch_subscription
      w3 ← sync_subscription p now sub account w2
      going (bind_claim (get "nonce" cs.metadata) account sub_id cs.id w3)))

unfoldable pub handle_subscription_upsert : Processor → ℕ → Event → World → Run World
handle_subscription_upsert p now ev w = do
  sub ← need w (p.parse.subscription ev.raw) parse_subscription
  (w1, account) ← resolve_account p now (id_of sub.customer) w
  sync_subscription p now sub account w1

abbrev pub canceled_mirror : Processor → ℕ → StripeSubscription → String → Subscription
canceled_mirror p now sub account = record {
  id = sub.id;
  account_id = account;
  status = canceled;
  max_pairs = max_pairs_for p.parse sub;
  current_period_end = 0;
  grace_until = 0;
  updated_at = now;
}

unfoldable pub handle_subscription_deleted : Processor → ℕ → Event → World → Run World
handle_subscription_deleted p now ev w = do
  sub ← need w (p.parse.subscription ev.raw) parse_subscription
  (w1, account) ← resolve_account p now (id_of sub.customer) w
  enforce sub.id revoked
      (with_store w1 (upsert_subscription (canceled_mirror p now sub account) w1.store))

abbrev pub named_subscription : World → Invoice → Run String
named_subscription w inv =
    if str_eq (id_of inv.parent_subscription) ""
    then failed w invoice_without_subscription
    else going (id_of inv.parent_subscription)

unfoldable pub invoice_subscription_id : Processor → Event → World → Run String
invoice_subscription_id p ev w = do
  inv ← need w (p.parse.invoice ev.raw) parse_invoice
  named_subscription w inv

abbrev pub late_mirror : Processor → ℕ → Subscription → Subscription
late_mirror p now mirror = record mirror {
  status = past_due;
  grace_until = if is_zero mirror.grace_until then now + p.grace else mirror.grace_until;
  updated_at = now;
}

abbrev pub fall_late : Processor → ℕ → World → Outcome Subscription → Run World
fall_late p now w (fail e) = failed w unknown_subscription
fall_late p now w (ok mirror) =
    going (with_store w (upsert_subscription (late_mirror p now mirror) w.store))

unfoldable pub handle_invoice_payment_failed : Processor → ℕ → Event → World → Run World
handle_invoice_payment_failed p now ev w = do
  sub_id ← invoice_subscription_id p ev w
  fall_late p now w (get_subscription sub_id w.store)

abbrev pub paid_mirror : ℕ → Subscription → Subscription
paid_mirror now mirror = record mirror {
  status = if is_past_due mirror.status then active else mirror.status;
  grace_until = 0;
  updated_at = now;
}

-- A subscription that is not mirrored yet is left alone.
abbrev pub clear_grace : ℕ → String → World → Outcome Subscription → Run World
clear_grace now sub_id w (fail e) = going w
clear_grace now sub_id w (ok mirror) =
    reactivate sub_id (with_store w (upsert_subscription (paid_mirror now mirror) w.store))

unfoldable pub handle_invoice_paid : Processor → ℕ → Event → World → Run World
handle_invoice_paid p now ev w = do
  sub_id ← invoice_subscription_id p ev w
  clear_grace now sub_id w (get_subscription sub_id w.store)

unfoldable pub dispatch : Processor → ℕ → Event → World → Run World
dispatch p now ev w =
    if str_eq ev.type "checkout.session.completed"
    then handle_checkout_completed p now ev w
    else if str_eq ev.type "customer.subscription.created"
        || str_eq ev.type "customer.subscription.updated"
    then handle_subscription_upsert p now ev w
    else if str_eq ev.type "customer.subscription.deleted"
    then handle_subscription_deleted p now ev w
    else if str_eq ev.type "invoice.payment_failed"
    then handle_invoice_payment_failed p now ev w
    else if str_eq ev.type "invoice.paid"
    then handle_invoice_paid p now ev w
    else going w

-- One subscription of a reconciliation.
unfoldable pub reconcile_one : Processor → ℕ → StripeSubscription → World → Run World
reconcile_one p now sub w = do
  (w1, account) ← resolve_account p now (id_of sub.customer) w
  sync_subscription p now sub account w1

abbrev first_error : Option Error → Error → Option Error
first_error none e = some e
first_error (some e) _ = some e

-- An error does not end the loop; the first one is returned.
unfoldable pub reconcile_each :
    Processor → ℕ → List StripeSubscription → World × Option Error → World × Option Error
reconcile_each p now [] r = r
reconcile_each p now (sub ∷ rest) (w, err) =
    reconcile_each p now rest (elim (reconcile_one p now sub w) [
      | failed w1 e ↦ (w1, first_error err e)
      | going w1 ↦ (w1, err)
    ])

abbrev reconcile_listed :
    Processor → ℕ → World → Option (List StripeSubscription) → World × Option Error
reconcile_listed p now w none = (w, some list_failed)
reconcile_listed p now w (some subs) = reconcile_each p now subs (w, none)

unfoldable pub reconcile : Processor → ℕ → World → World × Option Error
reconcile p now w = reconcile_listed p now w p.list_subscriptions

-- ===== src/Billing/Sync.antt =====
-- internal/billing/stripe.go: the sync of one subscription.
use secure_gateway.Common.{
  ℕ, zero, suc, ◌+◌, ◌-◌, String, str_eq, Bool, true, false, List, [], ◌∷◌, length, if◌then◌else◌,
}
use secure_gateway.AuthStore.{
  is_zero, SubStatus, past_due, license_active, license_revoked, is_license_active, pairing_revoked,
  Account, Subscription, License, Pairing,
}
use secure_gateway.AuthStore.State.{Outcome, ok, fail}
use secure_gateway.AuthStore.Accounts.{upsert_account, get_account_by_customer}
use secure_gateway.AuthStore.Licenses.{
  upsert_subscription, get_subscription, create_license, list_licenses_by_subscription,
  set_license_status,
}
use secure_gateway.AuthStore.Pairings.{list_active_pairings_by_license, set_pairing_status}
use secure_gateway.License.{Behavior, revoked, evaluate, enforced}
use secure_gateway.Billing.Objects.{
  StripeSubscription, max_pairs_for, current_period_end, first_item_id, sub_status,
}
use secure_gateway.Billing.Run.{
  Processor, World, Run, failed, going, ◌>>=◌, no_customer, with_store, stored, draw, new_id,
  publish,
}

abbrev pub account_or_new : Processor → ℕ → String → World → Outcome Account → World × String
account_or_new p now customer w (ok a) = (w, a.id)
account_or_new p now customer w (fail e) =
    let id = new_id p "acct" w in
    let a : Account = record {
      id = id;
      stripe_customer_id = customer;
      secret_hash = "";
      created_at = now;
    } in
    (draw (with_store w (upsert_account a w.store)), id)

unfoldable pub resolve_account : Processor → ℕ → String → World → Run (World × String)
resolve_account p now customer w =
    if str_eq customer ""
    then failed w no_customer
    else going (account_or_new p now customer w (get_account_by_customer customer w.store))

-- So many more licenses.
unfoldable pub provision : Processor → ℕ → Subscription → String → ℕ → World → Run World
provision p now mirror item zero w = going w
provision p now mirror item (suc n) w = do
  let l : License = record {
    id = p.new_key w.drawn;
    account_id = mirror.account_id;
    subscription_id = mirror.id;
    subscription_item_id = item;
    status = license_active;
    created_at = now;
  }
  w1 ← stored (draw w) (create_license l w.store)
  provision p now mirror item n w1

-- The subtraction stops at 0, where the loop of the source makes no round.
unfoldable pub ensure_licenses :
    Processor → ℕ → Subscription → StripeSubscription → World → Run World
ensure_licenses p now mirror sub w =
    provision p now mirror (first_item_id sub.items)
      (mirror.max_pairs - length (list_licenses_by_subscription mirror.id w.store)) w

abbrev pub is_revoked : Behavior → Bool
is_revoked revoked = true
is_revoked _ = false

-- The status is written only where the behavior is Revoked.
abbrev pub revoke_pairing_if : Bool → String → World → Run World
revoke_pairing_if true id w = stored w (set_pairing_status id pairing_revoked w.store)
revoke_pairing_if false id w = going w

abbrev pub revoke_license_if : Bool → String → World → Run World
revoke_license_if true id w = stored w (set_license_status id license_revoked w.store)
revoke_license_if false id w = going w

unfoldable pub cut_pairings : Bool → List Pairing → World → Run World
cut_pairings terminal [] w = going w
cut_pairings terminal (pr ∷ rest) w = do
  w1 ← revoke_pairing_if terminal pr.pair_id w
  cut_pairings terminal rest (publish (record { pair_id = pr.pair_id; account_id = "" }) w1)

unfoldable pub enforce_each : Bool → List License → World → Run World
enforce_each terminal [] w = going w
enforce_each terminal (l ∷ rest) w = do
  w1 ← revoke_license_if terminal l.id w
  w2 ← cut_pairings terminal (list_active_pairings_by_license l.id w1.store) w1
  enforce_each terminal rest w2

unfoldable pub enforce : String → Behavior → World → Run World
enforce sub b w = enforce_each (is_revoked b) (list_licenses_by_subscription sub w.store) w

unfoldable pub reactivate_each : List License → World → Run World
reactivate_each [] w = going w
reactivate_each (l ∷ rest) w = do
  w1 ←
      if is_license_active l.status
      then going w
      else stored w (set_license_status l.id license_active w.store)
  reactivate_each rest w1

unfoldable pub reactivate : String → World → Run World
reactivate sub w = reactivate_each (list_licenses_by_subscription sub w.store) w

abbrev pub is_past_due : SubStatus → Bool
is_past_due past_due = true
is_past_due _ = false

abbrev kept_grace : Outcome Subscription → ℕ
kept_grace (ok existing) = existing.grace_until
kept_grace (fail e) = 0

-- The deadline of a subscription that is past due: the one it has, or a new one.
abbrev grace_for : Processor → ℕ → SubStatus → ℕ → ℕ
grace_for p now status old =
    if is_past_due status then (if is_zero old then now + p.grace else old) else 0

unfoldable pub mirror_of : Processor → ℕ → StripeSubscription → String → World → Subscription
mirror_of p now sub account w = record {
  id = sub.id;
  account_id = account;
  status = sub_status sub.status;
  max_pairs = max_pairs_for p.parse sub;
  current_period_end = current_period_end sub.items;
  grace_until =
      grace_for p now (sub_status sub.status) (kept_grace (get_subscription sub.id w.store));
  updated_at = now;
}

unfoldable pub sync_subscription : Processor → ℕ → StripeSubscription → String → World → Run World
sync_subscription p now sub account w = do
  let mirror = mirror_of p now sub account w
  w1 ← ensure_licenses p now mirror sub (with_store w (upsert_subscription mirror w.store))
  let behavior = evaluate mirror now
  if enforced behavior then enforce sub.id behavior w1 else reactivate sub.id w1

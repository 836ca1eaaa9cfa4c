-- ===== src/Tests/Billing.antt =====
-- Concrete runs of internal/billing on the small account.
use secure_gateway.Common.{
  ℕ, ◌≡◌, ◌≢◌, ◌⊎◌, refl, String, str_eq, true, false, Option, none, some, List, [], ◌∷◌, arith,
  eq_iff, ◌-◌, nat_eq, if◌then◌else◌, string_key,
}
use secure_gateway.Common.Table.{get, put}
use secure_gateway.AuthStore.{License, license_revoked, WebhookEvent, webhook_failed}
use secure_gateway.AuthStore.State.{Store}
use secure_gateway.License.{IsPaying}
use secure_gateway.Backplane.{new_backplane}
use secure_gateway.AuthService.{World as ServiceWorld, going as issued}
use secure_gateway.AuthService.Issue.{TokenReq, TokenResp, handle_issue_token}
use secure_gateway.AuthService.Issue.Entitled.{Entitled}
use secure_gateway.Billing.Objects.{StripeSubscription, Event, Parsers}
use secure_gateway.Billing.Run.{Processor, World, Run, going, failed}
use secure_gateway.Billing.Sync.{sync_subscription, mirror_of}
use secure_gateway.Billing.Events.{handle_subscription_deleted}
use secure_gateway.Billing.Mirror.{sync-gates, deletion-bars}
use secure_gateway.Billing.Lapse.{deletion-revokes}
use secure_gateway.Billing.Listing.{IsKeyed}
use secure_gateway.Billing.Settle.{rounds, failed_events, retries_end}
use secure_gateway.Tests.Auth.{test_env, store_1, license_1, world_1, request_1, outcome}

abbrev plan : String → StripeSubscription
plan id = record {
  id = id;
  customer = some "cus";
  status = "active";
  items =
      some (record {
        id = "item";
        price_metadata = some (("max_pairs", "2") ∷ []);
        current_period_end = 100;
      })
      ∷ [];
  metadata = [];
}

-- The raw bytes are a number that says which subscription is meant.
abbrev parsers : Parsers
parsers = record {
  checkout_session = λ b. none;
  subscription = λ b. elim b [ [] ↦ some (plan "sub") | x ∷ xs ↦ some (plan "old") ];
  invoice = λ b. none;
  event = λ b. none;
  atoi = λ s. if str_eq s "2" then some 2 else none;
}

abbrev processor : Processor
processor = record {
  grace = 50;
  rand = λ n. "r";
  new_key = λ n. "lic_new";
  parse = parsers;
  get_subscription = λ id. some (plan id);
  list_subscriptions = some (plan "sub" ∷ []);
}

abbrev before : World
before = record {
  store = record store_1 { customer_to_acct = ("cus", "acct") ∷ [] };
  bp = new_backplane 60 4;
  drawn = 0;
}

abbrev value : Run World → World
value (going w) = w
value (failed w e) = w

abbrev serve : World → ServiceWorld
serve w = record { store = w.store; bp = some w.bp; drawn = 0 }

abbrev no_token : ServiceWorld × TokenResp
no_token = (world_1, record { token = ""; refresh_token = ""; expires_in = 0 })

abbrev answer : World → ServiceWorld × TokenResp
answer w = outcome (handle_issue_token test_env 100 "acct.s" (some request_1) (serve w)) no_token

abbrev synced : World
synced = value (sync_subscription processor 60 (plan "sub") "acct" before)

-- The deletion of another subscription of the customer.
abbrev old_deleted : Event
old_deleted = record { id = "e1"; type = "customer.subscription.deleted"; raw = 1 ∷ [] }

abbrev without_old : World
without_old = value (handle_subscription_deleted processor 60 old_deleted before)

abbrev sub_deleted : Event
sub_deleted = record { id = "e2"; type = "customer.subscription.deleted"; raw = [] }

abbrev without_sub : World
without_sub = value (handle_subscription_deleted processor 60 sub_deleted before)

-- What these runs give: the second license of the plan is provisioned, and the account still gets a
-- token once another subscription of the customer is deleted.
runs :
    (sync_subscription processor 60 (plan "sub") "acct" before ≡ going synced)
    × (get "lic_new" synced.store.licenses
        ≡ some
            (record license_1 { id = "lic_new"; subscription_item_id = "item"; created_at = 60 }))
    × (handle_issue_token test_env 100 "acct.s" (some request_1) (serve synced)
        ≡ issued (answer synced))
    × (handle_subscription_deleted processor 60 old_deleted before ≡ going without_old)
    × (handle_issue_token test_env 100 "acct.s" (some request_1) (serve without_old)
        ≡ issued (answer without_old))
    × (handle_subscription_deleted processor 60 sub_deleted before ≡ going without_sub)
unfolding sync_subscription handle_subscription_deleted mirror_of get put
    secure_gateway.Billing.Sync.ensure_licenses secure_gateway.Billing.Sync.provision
    secure_gateway.Billing.Sync.enforce secure_gateway.Billing.Sync.enforce_each
    secure_gateway.Billing.Sync.cut_pairings secure_gateway.Billing.Sync.reactivate
    secure_gateway.Billing.Sync.reactivate_each secure_gateway.Billing.Sync.resolve_account
    secure_gateway.Billing.Objects.max_pairs_for secure_gateway.Billing.Objects.max_pairs
    secure_gateway.AuthStore.Licenses.list_licenses_by_subscription
    secure_gateway.AuthStore.Licenses.set_license_status
    secure_gateway.AuthStore.Licenses.create_license
    secure_gateway.AuthStore.Licenses.upsert_subscription secure_gateway.AuthStore.State.sort_by
    secure_gateway.AuthStore.State.insert_by secure_gateway.Common.Lists.select
    secure_gateway.License.evaluate secure_gateway.License.enforced
    secure_gateway.AuthStore.Accounts.get_account_by_customer
    secure_gateway.AuthStore.Accounts.upsert_account
    secure_gateway.AuthStore.Pairings.list_active_pairings_by_license
    secure_gateway.AuthStore.Pairings.set_pairing_status handle_issue_token
    secure_gateway.AuthService.Credentials.authenticate_account_or_pair
    secure_gateway.AuthService.Credentials.authenticate_account
    secure_gateway.AuthService.Credentials.owner_of secure_gateway.AuthService.pairing_has_device
    secure_gateway.AuthService.pairing_issuable secure_gateway.AuthService.license_issuable
    secure_gateway.License.issuable secure_gateway.AuthService.Issue.issue_token_pair
    secure_gateway.AuthService.Issue.mint
runs = (refl, refl, refl, refl, refl, refl)

sync-gates_example :
    (t : Entitled test_env 100 "acct.s" request_1 synced.store) × ((t.lic.subscription_id ≢ "sub")
      ⊎ IsPaying (mirror_of processor 60 (plan "sub") "acct" before) 100)
sync-gates_example =
    sync-gates processor 60 (plan "sub") "acct" before synced test_env 100 "acct.s" request_1
      (serve synced) (answer synced) runs.0 refl refl runs.2

deletion-bars_example :
    (t : Entitled test_env 100 "acct.s" request_1 without_old.store) × (t.lic.subscription_id
      ≢ "old")
deletion-bars_example =
    deletion-bars processor 60 old_deleted (plan "old") before without_old test_env 100 "acct.s"
      request_1 (serve without_old) (answer without_old) refl runs.3 refl refl runs.4

deletion-revokes_example :
    get "lic" without_sub.store.licenses ≡ some (record license_1 { status = license_revoked })
unfolding get
deletion-revokes_example =
    deletion-revokes processor 60 sub_deleted (plan "sub") before without_sub "lic" license_1 refl
      runs.5 refl refl refl

-- An event that fails at each try, as its invoice cannot be parsed.
abbrev stubborn : WebhookEvent
stubborn = record {
  id = "e3";
  type = "invoice.paid";
  status = webhook_failed;
  attempts = 1;
  payload = [];
  received_at = 10;
  processed_at = 0;
}

abbrev waiting : World
waiting = record before { store = record store_1 { webhook_events = ("e3", stubborn) ∷ [] } }

abbrev trying : Processor
trying = record processor {
  parse = record parsers {
    event = λ b. some (record { id = "e3"; type = "invoice.paid"; raw = b });
  };
}

waiting-IsKeyed : IsKeyed waiting.store.webhook_events
unfolding get
waiting-IsKeyed = record {
  distinct = (refl, tt);
  keyed = λ id e h. ground (arith, h, eq_iff "e3" id);
}

retries_end_example : failed_events 0 (rounds trying (λ n. 100 - n) (λ n. 10) 5 waiting) ≡ []
retries_end_example =
    retries_end trying (λ n. 100 - n) (λ n. 10) 5 waiting waiting-IsKeyed (omega arith)

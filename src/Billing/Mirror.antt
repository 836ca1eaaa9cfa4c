-- ===== src/Billing/Mirror.antt =====
-- The record of a subscription after its sync, and what tokens can then be issued.
use secure_gateway.Common.{
  ℕ, ◌≡◌, refl, sym, ap, subst, String, arith, true, some, string_key, Bool-cases, inl, inr, str_eq,
  eq_iff, ◌≢◌, ◌⊎◌,
}
use secure_gateway.Common.Table.{get, get-put_self}
use secure_gateway.AuthStore.{Subscription, canceled}
use secure_gateway.AuthStore.State.{Store}
use secure_gateway.AuthStore.Licenses.{upsert_subscription}
use secure_gateway.License.{IsPaying, on_trial, in_force, late, revoked, evaluate, enforced}
use secure_gateway.AuthService.{Env, World as ServiceWorld, going as issued}
use secure_gateway.AuthService.Issue.{TokenReq, TokenResp, handle_issue_token}
use secure_gateway.AuthService.Issue.Entitled.{Entitled, issue_sound}
use secure_gateway.Billing.Objects.{StripeSubscription, Event, id_of}
use secure_gateway.Billing.Run.{Processor, World, going, with_store, parse_subscription}
use secure_gateway.Billing.Sync.{
  sync_subscription, mirror_of, ensure_licenses, enforce, resolve_account,
}
use secure_gateway.Billing.Events.{handle_subscription_deleted, canceled_mirror}
use secure_gateway.Billing.Leaves.{Leaves, Leaves-bind, Leaves-going, bind-going, need-going}
use secure_gateway.Billing.Frame.{Framed, enforce-Framed, reactivate-Framed, ensure_licenses-Framed}

Framed-subscriptions : (s t : Store) → Framed s t → t.subscriptions ≡ s.subscriptions
Framed-subscriptions s t (ls, ps, e) = ap (λ u. u.subscriptions) e

mirrored :
    (m : Subscription) (s : Store) → get m.id (upsert_subscription m s).subscriptions ≡ some m
unfolding upsert_subscription
mirrored m s = get-put_self m.id m s.subscriptions

mirrored_still :
    (m : Subscription) (s : Store) (t : Store)
    → Framed (upsert_subscription m s) t
    → get m.id t.subscriptions ≡ some m
mirrored_still m s t f = rw (Framed-subscriptions (upsert_subscription m s) t f) (mirrored m s)

-- The store of every end of a sync is that of its mirror, but for licenses and pairings.
pub sync-Framed :
    (p : Processor) (now : ℕ) (sub : StripeSubscription) (account : String) (w : World)
    → Leaves
        (λ v. Framed (upsert_subscription (mirror_of p now sub account w) w.store) v.store)
        (λ v. Framed (upsert_subscription (mirror_of p now sub account w) w.store) v.store)
        (sync_subscription p now sub account w)
unfolding sync_subscription
sync-Framed p now sub account w =
    let m = mirror_of p now sub account w in
    let s = upsert_subscription m w.store in
    let P : World → Type 0 = λ v. Framed s v.store in
    Leaves-bind P P P (ensure_licenses p now m sub (with_store w s)) _
      (ensure_licenses-Framed s p now m sub (with_store w s) (s.licenses, s.pairings, refl))
      (λ w1 _ h. elim (Bool-cases (enforced (evaluate m now))) [
        | inl on ↦ rw on (enforce-Framed s sub.id (evaluate m now) w1 h)
        | inr off ↦ rw off (reactivate-Framed s sub.id w1 h)
      ])

pub sync-mirrors :
    (p : Processor) (now : ℕ) (sub : StripeSubscription) (account : String) (w w' : World)
    → sync_subscription p now sub account w ≡ going w'
    → get sub.id w'.store.subscriptions ≡ some (mirror_of p now sub account w)
unfolding mirror_of
sync-mirrors p now sub account w w' h =
    mirrored_still (mirror_of p now sub account w) w.store w'.store
      (Leaves-going _ _ _ w' (sync-Framed p now sub account w) h)

-- A token is for another subscription than one whose record is known, or that record pays.
Entitled-pays :
    (env : Env) (later : ℕ) (secret : String) (req : TokenReq) (s : Store) (id : String)
    (m : Subscription)
    → env.billing_enabled ≡ true
    → get id s.subscriptions ≡ some m
    → (t : Entitled env later secret req s) → (t.lic.subscription_id ≢ id) ⊎ IsPaying m later
Entitled-pays env later secret req s id m on there t =
    elim (Bool-cases (str_eq t.lic.subscription_id id)) [
      | inl same ↦
          let (sub, e, pays) = t.license_good.paid on in
          inr (subst (λ x. IsPaying x later) (ground (arith, eq_iff t.lic.subscription_id id)) pays)
      | inr other ↦ inl (λ same. ground (arith, eq_iff t.lic.subscription_id id))
    ]

-- When the sync of a subscription succeeds, a service with billing enabled that then works on that
-- store issues, at any instant, tokens only to entitled callers, and the license behind such a token
-- is of another subscription, or the record that the sync wrote pays at that instant.
pub sync-gates :
    (p : Processor) (now : ℕ) (sub : StripeSubscription) (account : String) (w w' : World)
    (env : Env) (later : ℕ) (secret : String) (req : TokenReq) (v : ServiceWorld)
    (r : ServiceWorld × TokenResp)
    → sync_subscription p now sub account w ≡ going w'
    → env.billing_enabled ≡ true
    → v.store ≡ w'.store
    → handle_issue_token env later secret (some req) v ≡ issued r
    → (t : Entitled env later secret req v.store) × ((t.lic.subscription_id ≢ sub.id)
        ⊎ IsPaying (mirror_of p now sub account w) later)
sync-gates p now sub account w w' env later secret req v r h on same i =
    let (t, c, signed, certified) = issue_sound env later secret req v r i in
    (
      t,
      Entitled-pays env later secret req v.store sub.id (mirror_of p now sub account w) on
          (rw same (sync-mirrors p now sub account w w' h)) t,
    )

canceled-lapses : (m : Subscription) (now : ℕ) → m.status ≡ canceled → IsPaying m now → ⊥
canceled-lapses m now h (on_trial e) = ground arith
canceled-lapses m now h (in_force e) = ground arith
canceled-lapses m now h (late e l) = ground arith

-- A deletion that succeeds is the enforcement of a canceled record, after the account is looked up.
pub deleted-steps :
    (p : Processor) (now : ℕ) (ev : Event) (sub : StripeSubscription) (w w' : World)
    → p.parse.subscription ev.raw ≡ some sub
    → handle_subscription_deleted p now ev w ≡ going w'
    → (w1 : World) × (account : String) × (resolve_account p now (id_of sub.customer) w
        ≡ going (w1, account))
      × (enforce sub.id revoked
            (with_store w1 (upsert_subscription (canceled_mirror p now sub account) w1.store))
          ≡ going w')
unfolding handle_subscription_deleted
deleted-steps p now ev sub w w' e h =
    let (named, found, h1) = need-going w (p.parse.subscription ev.raw) parse_subscription _ h in
    let same : named ≡ sub = ground (arith, found) in
    let (r, resolved, h2) = bind-going (resolve_account p now (id_of named.customer) w) _ h1 in
    (r.0, r.1, rw (sym same) resolved, rw (sym same) h2)

-- When the handling of a deletion succeeds, a service with billing enabled that then works on that
-- store issues, at any instant, tokens only to entitled callers whose license is of another
-- subscription.
pub deletion-bars :
    (p : Processor) (now : ℕ) (ev : Event) (sub : StripeSubscription) (w w' : World) (env : Env)
    (later : ℕ) (secret : String) (req : TokenReq) (v : ServiceWorld) (r : ServiceWorld × TokenResp)
    → p.parse.subscription ev.raw ≡ some sub
    → handle_subscription_deleted p now ev w ≡ going w'
    → env.billing_enabled ≡ true
    → v.store ≡ w'.store
    → handle_issue_token env later secret (some req) v ≡ issued r
    → (t : Entitled env later secret req v.store) × (t.lic.subscription_id ≢ sub.id)
deletion-bars p now ev sub w w' env later secret req v r e h on same i =
    let (w1, account, _, h1) = deleted-steps p now ev sub w w' e h in
    let m = canceled_mirror p now sub account in
    let s = upsert_subscription m w1.store in
    let framed : Framed s w'.store =
      Leaves-going _ _ _ w'
        (enforce-Framed s sub.id revoked (with_store w1 s) (s.licenses, s.pairings, refl)) h1 in
    let (t, c, signed, certified) = issue_sound env later secret req v r i in
    (
      t,
      elim (Entitled-pays env later secret req v.store sub.id m on
          (rw same (mirrored_still m w1.store w'.store framed)) t) [
            | inl other ↦ other
            | inr pays ↦ absurd (canceled-lapses m later refl pays)
          ],
    )

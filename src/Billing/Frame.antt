-- ===== src/Billing/Frame.antt =====
-- What the sync of a subscription leaves as it was: every part of the store that does not depend on
-- licenses and pairings.
use secure_gateway.Common.{
  ℕ, zero, suc, ◌≡◌, String, arith, Bool, true, false, List, [], ◌∷◌, string_key, if◌then◌else◌,
}
use secure_gateway.Common.Table.{Table}
use secure_gateway.AuthStore.{
  License, Pairing, Subscription, license_active, license_revoked, pairing_revoked, LicenseStatus,
  is_license_active, PairingStatus,
}
use secure_gateway.AuthStore.State.{Store, Outcome, ok}
use secure_gateway.AuthStore.Licenses.{create_license, set_license_status}
use secure_gateway.AuthStore.Pairings.{list_active_pairings_by_license, set_pairing_status}
use secure_gateway.License.{Behavior}
use secure_gateway.Billing.Objects.{StripeSubscription}
use secure_gateway.Billing.Run.{Processor, World, going, stored, draw, publish}
use secure_gateway.Billing.Sync.{
  provision, ensure_licenses, revoke_pairing_if, revoke_license_if, cut_pairings, enforce_each,
  enforce, reactivate_each, reactivate, is_revoked,
}
use secure_gateway.Billing.Leaves.{Leaves, Leaves-bind, Leaves-stored}

-- One store is another but for licenses and pairings.
abbrev pub Framed : Store → Store → Type 0
Framed s t =
    (l : Table String License) × (p : Table String Pairing) × (t
      ≡ record s { licenses = l; pairings = p })

create_license-Framed :
    (l : License) (s t t' : Store) → create_license l t ≡ ok t' → Framed s t → Framed s t'
unfolding create_license
create_license-Framed l s t t' h (ls, ps, e) = (t'.licenses, ps, ground arith)

set_license_status-Framed :
    (id : String) (st : LicenseStatus) (s t t' : Store)
    → set_license_status id st t ≡ ok t'
    → Framed s t
    → Framed s t'
unfolding set_license_status
set_license_status-Framed id st s t t' h (ls, ps, e) = (t'.licenses, ps, ground arith)

set_pairing_status-Framed :
    (id : String) (st : PairingStatus) (s t t' : Store)
    → set_pairing_status id st t ≡ ok t'
    → Framed s t
    → Framed s t'
unfolding set_pairing_status
set_pairing_status-Framed id st s t t' h (ls, ps, e) = (ls, t'.pairings, ground arith)

module _ (s : Store) where
  abbrev P : World → Type 0
  P w = Framed s w.store

  stored-Framed :
      (w : World) (o : Outcome Store)
      → P w
      → ((t : Store) → o ≡ ok t → Framed s t)
      → Leaves P P (stored w o)
  stored-Framed w o h k = Leaves-stored P w o h k

  provision-Framed :
      (p : Processor) (now : ℕ) (mirror : Subscription) (item : String) (n : ℕ) (w : World)
      → P w
      → Leaves P P (provision p now mirror item n w)
  unfolding provision
  provision-Framed p now mirror item zero w h = record { ends = h }
  provision-Framed p now mirror item (suc n) w h =
      let l : License = record {
        id = p.new_key w.drawn;
        account_id = mirror.account_id;
        subscription_id = mirror.id;
        subscription_item_id = item;
        status = license_active;
        created_at = now;
      } in
      Leaves-bind P P P (stored (draw w) (create_license l w.store)) _
        (stored-Framed (draw w) _ h (λ t e. create_license-Framed l s w.store t e h))
        (λ w1 _ h1. provision-Framed p now mirror item n w1 h1)

  revoke_pairing_if-Framed :
      (b : Bool) (id : String) (w : World) → P w → Leaves P P (revoke_pairing_if b id w)
  revoke_pairing_if-Framed true id w h =
      stored-Framed w _ h (λ t e. set_pairing_status-Framed id pairing_revoked s w.store t e h)
  revoke_pairing_if-Framed false id w h = record { ends = h }

  revoke_license_if-Framed :
      (b : Bool) (id : String) (w : World) → P w → Leaves P P (revoke_license_if b id w)
  revoke_license_if-Framed true id w h =
      stored-Framed w _ h (λ t e. set_license_status-Framed id license_revoked s w.store t e h)
  revoke_license_if-Framed false id w h = record { ends = h }

  cut_pairings-Framed :
      (b : Bool) (ps : List Pairing) (w : World) → P w → Leaves P P (cut_pairings b ps w)
  unfolding cut_pairings
  cut_pairings-Framed b [] w h = record { ends = h }
  cut_pairings-Framed b (pr ∷ rest) w h =
      Leaves-bind P P P (revoke_pairing_if b pr.pair_id w) _
        (revoke_pairing_if-Framed b pr.pair_id w h)
        (λ w1 _ h1.
          cut_pairings-Framed b rest (publish (record { pair_id = pr.pair_id; account_id = "" }) w1)
            h1)

  enforce_each-Framed :
      (b : Bool) (ls : List License) (w : World) → P w → Leaves P P (enforce_each b ls w)
  unfolding enforce_each
  enforce_each-Framed b [] w h = record { ends = h }
  enforce_each-Framed b (l ∷ rest) w h =
      Leaves-bind P P P (revoke_license_if b l.id w) _ (revoke_license_if-Framed b l.id w h)
        (λ w1 _ h1.
          Leaves-bind P P P (cut_pairings b (list_active_pairings_by_license l.id w1.store) w1) _
            (cut_pairings-Framed b _ w1 h1) (λ w2 _ h2. enforce_each-Framed b rest w2 h2))

  reactivate_each-Framed : (ls : List License) (w : World) → P w → Leaves P P (reactivate_each ls w)
  unfolding reactivate_each
  reactivate_each-Framed [] w h = record { ends = h }
  reactivate_each-Framed (l ∷ rest) w h =
      Leaves-bind P P P
        (if is_license_active l.status
          then going w
          else stored w (set_license_status l.id license_active w.store))
        _ (restored (is_license_active l.status)) (λ w1 _ h1. reactivate_each-Framed rest w1 h1)
    where
      restored :
          (b : Bool)
          → Leaves P P
              (if b then going w else stored w (set_license_status l.id license_active w.store))
      restored true = record { ends = h }
      restored false =
          stored-Framed w _ h (λ t e. set_license_status-Framed l.id license_active s w.store t e h)

  pub enforce-Framed :
      (sub : String) (b : Behavior) (w : World) → P w → Leaves P P (enforce sub b w)
  unfolding enforce
  enforce-Framed sub b w h = enforce_each-Framed (is_revoked b) _ w h

  pub reactivate-Framed : (sub : String) (w : World) → P w → Leaves P P (reactivate sub w)
  unfolding reactivate
  reactivate-Framed sub w h = reactivate_each-Framed _ w h

  pub ensure_licenses-Framed :
      (p : Processor) (now : ℕ) (mirror : Subscription) (sub : StripeSubscription) (w : World)
      → P w
      → Leaves P P (ensure_licenses p now mirror sub w)
  unfolding ensure_licenses
  ensure_licenses-Framed p now mirror sub w h = provision-Framed p now mirror _ _ w h

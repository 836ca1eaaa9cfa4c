-- ===== src/AuthStore/Pairings/Limits.antt =====
-- The pair limit of a license, and what the store's operations do to it.
use secure_gateway.Common.{
  ◌∙◌, sym, subst, ℕ, ◌≤◌, ◌≡◌, refl, String, eq_iff, some, arith, string_key,
}
use secure_gateway.Common.Table.{get}
use secure_gateway.AuthStore.{License, Subscription, Pairing, Device}
use secure_gateway.AuthStore.State.{Store, ok}
use secure_gateway.AuthStore.Devices.{upsert_device}
use secure_gateway.AuthStore.Pairings.{
  active_pair_count, create_pairing_within_capacity, update_pairing_devices,
}
use secure_gateway.AuthStore.Pairings.Count.{create-ok, update-ok, count-create, count-update}

-- Each license stands under its own id, and has at most as many active pairings as its subscription allows.
pub record WithinCapacity (s : Store) : Type 0 where
  pub keyed : (id : String) (lic : License) → get id s.licenses ≡ some lic → lic.id ≡ id
  pub within :
      (id : String) (lic : License) (sub : Subscription)
      → get id s.licenses ≡ some lic
      → get lic.subscription_id s.subscriptions ≡ some sub
      → active_pair_count id s ≤ sub.max_pairs

-- The parts of the store that the limit speaks of are the same.
pub record SameGates (s s' : Store) : Type 0 where
  pub same_licenses : s'.licenses ≡ s.licenses
  pub same_subscriptions : s'.subscriptions ≡ s.subscriptions
  pub same_pairings : s'.pairings ≡ s.pairings

pub SameGates-within : {s s' : Store} → SameGates s s' → WithinCapacity s → WithinCapacity s'
unfolding active_pair_count
SameGates-within {s} {s'} g h = record {
  keyed = λ id lic e. h.keyed id lic (rw g.same_licenses at e);
  within = λ id lic sub e f.
      rw g.same_pairings
        (h.within id lic sub (rw g.same_licenses at e) (rw g.same_subscriptions at f));
}

pub create-within :
    (p : Pairing) (n : ℕ) (s s' : Store) (lic : License) (sub : Subscription)
    → WithinCapacity s
    → get p.license_id s.licenses ≡ some lic
    → get lic.subscription_id s.subscriptions ≡ some sub
    → n ≡ sub.max_pairs
    → create_pairing_within_capacity p n s ≡ ok s'
    → WithinCapacity s'
unfolding active_pair_count
create-within p n s s' lic sub h there paid limit e =
    let (fresh, room, next) = create-ok p n s s' e in
    subst WithinCapacity (sym next) (record {
      keyed = h.keyed;
      within = λ id lic' sub' e f. ground (
        arith,
        count-create p id s.pairings fresh,
        eq_iff p.license_id id,
        room,
        h.within id lic' sub' e f,
      );
    })

pub update-within :
    (id mobile desktop : String) (s s' : Store)
    → WithinCapacity s
    → update_pairing_devices id mobile desktop s ≡ ok s'
    → WithinCapacity s'
unfolding active_pair_count
update-within id mobile desktop s s' h e =
    let (p, there, next) = update-ok id mobile desktop s s' e in
    subst WithinCapacity (sym next) (record {
      keyed = h.keyed;
      within = λ license lic sub e f.
          rw (count-update p id mobile desktop license s.pairings there)
            (h.within license lic sub e f);
    })

pub SameGates-refl : (s : Store) → SameGates s s
SameGates-refl s = record { same_licenses = refl; same_subscriptions = refl; same_pairings = refl }

pub upsert-gates : (d : Device) (s : Store) → SameGates s (upsert_device d s)
unfolding upsert_device
upsert-gates d s = record { same_licenses = refl; same_subscriptions = refl; same_pairings = refl }

pub SameGates-trans : {s t u : Store} → SameGates s t → SameGates t u → SameGates s u
SameGates-trans g k = record {
  same_licenses = k.same_licenses ∙ g.same_licenses;
  same_subscriptions = k.same_subscriptions ∙ g.same_subscriptions;
  same_pairings = k.same_pairings ∙ g.same_pairings;
}

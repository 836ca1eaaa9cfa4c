-- ===== src/AuthService/Pair/Complete/Gates.antt =====
-- What the steps of a completion do to the counts of pairs.
use secure_gateway.Common.{
  ap, ℕ, ◌≡◌, refl, String, str_eq, Bool, true, false, Option, none, some, List, arith, leb,
  string_key, Bool-cases, Option-cases, inl, inr,
}
use secure_gateway.Common.Table.{get, put}
use secure_gateway.Token.{role_mobile}
use secure_gateway.AuthStore.{
  conflict, not_found, capacity_exceeded, License, Subscription, Pairing, Device, PairingToken,
  pairing_active,
}
use secure_gateway.AuthStore.State.{Store, Outcome, ok, fail}
use secure_gateway.AuthStore.Devices.{
  upsert_device, find_device_by_account_role_key, count_devices_by_account,
}
use secure_gateway.AuthStore.Tokens.{
  revoke_refresh_tokens_by_device, put_pair_credential, consume_pairing_token,
}
use secure_gateway.AuthStore.Tokens.Rows.{consume_pairing-ok}
use secure_gateway.AuthStore.Pairings.{create_pairing_within_capacity, update_pairing_devices}
use secure_gateway.AuthService.{
  Env, World, going, ◌>>=◌, with_store, publish_event, register_or_find_device, device_for_role,
  insert_device, existing_or_insert,
}
use secure_gateway.AuthService.Ends.{Leaves, Leaves-need}
use secure_gateway.AuthService.Pair.{capacity_available, gate, gate_unless, is_some, stored}
use secure_gateway.AuthService.Pair.Complete.{
  resolve_mobile, bind_pairing, grant_credential, consumed, created, evict, with_device,
}
use secure_gateway.AuthStore.Pairings.Limits.{
  WithinCapacity, SameGates, SameGates-within, SameGates-refl, create-within, update-within,
}

abbrev pub Capped : World → Type 0
Capped w = WithinCapacity w.store

insert-gates :
    (env : Env) (now : ℕ) (account role : String) (key : Option (List ℕ)) (w : World)
    (r : World × Device)
    → insert_device env now account role key w ≡ some r
    → SameGates w.store r.0.store
unfolding upsert_device
insert-gates env now account role key w r h =
    elim (Bool-cases (leb env.device_cap (count_devices_by_account account w.store))) [
      | inl full ↦ absurd (ground arith)
      | inr free ↦ record {
        same_licenses = ground arith;
        same_subscriptions = ground arith;
        same_pairings = ground arith;
      }
    ]

register-gates :
    (env : Env) (now : ℕ) (account role : String) (key : Option (List ℕ)) (w : World)
    (o : Outcome Device) (r : World × Device)
    → existing_or_insert env now account role key w o ≡ some r
    → SameGates w.store r.0.store
register-gates env now account role key w (ok d) r h = record {
  same_licenses = ground arith;
  same_subscriptions = ground arith;
  same_pairings = ground arith;
}
register-gates env now account role key w (fail e) r h = insert-gates env now account role key w r h

pub resolve-gates :
    (env : Env) (now : ℕ) (account id : String) (key : List ℕ) (w : World)
    → Capped w
    → Leaves Capped (λ r. SameGates w.store r.0.store) (resolve_mobile env now account id key w)
unfolding resolve_mobile register_or_find_device
resolve-gates env now account id key w h = elim (Bool-cases (str_eq id "")) [
  | inl fresh ↦ rw fresh (
      Leaves-need Capped _ w _ 409 "device_limit" h (
        register-gates env now account role_mobile (some key) w
          (find_device_by_account_role_key account role_mobile key w.store)))
  | inr known ↦ rw known (given (device_for_role id account role_mobile w.store))
]
  where
    given : (o : Option Device) → Leaves Capped (λ r. SameGates w.store r.0.store) (with_device w o)
    given none = h
    given (some d) = SameGates-refl w.store

gate-going : (w : World) (o : Option (Bool × ℕ)) (n : ℕ) → gate w o ≡ going n → o ≡ some (true, n)
gate-going w none n h = cc
gate-going w (some (true, m)) n h = ground arith
gate-going w (some (false, m)) n h = cc

-- What the gate of a new pair has seen.
capacity-some :
    (lic : License) (s : Store) (n : ℕ)
    → capacity_available lic s ≡ some (true, n)
    → (sub : Subscription) × (get lic.subscription_id s.subscriptions ≡ some sub)
      × (n ≡ sub.max_pairs)
unfolding capacity_available
capacity-some lic s n h = elim (Option-cases (get lic.subscription_id s.subscriptions)) [
  | inl e ↦ absurd (ground arith)
  | inr (sub, e) ↦ (sub, e, ground arith)
]

evict-gates :
    (now : ℕ) (evicted mobile : String) (s : Store) → SameGates s (evict now evicted mobile s)
unfolding revoke_refresh_tokens_by_device
evict-gates now evicted mobile s = record {
  same_licenses = ground arith;
  same_subscriptions = ground arith;
  same_pairings = ground arith;
}

-- The limit of a new pair is its license's; a pair that is replaced needs none.
abbrev pub Gated : License → ℕ → Option Pairing → Store → Type 0
Gated lic n none s =
    (get lic.id s.licenses ≡ some lic)
    × ((sub : Subscription) × (get lic.subscription_id s.subscriptions ≡ some sub)
        × (n ≡ sub.max_pairs))
Gated lic n (some p) s = Unit {0}

pub bind-Capped :
    (now : ℕ) (pt : PairingToken) (lic : License) (mobile desktop : Device) (pair_id : String)
    (n : ℕ) (old : Option Pairing) (w : World)
    → Capped w
    → Gated lic n old w.store
    → Leaves Capped Capped (bind_pairing now pt lic mobile desktop pair_id n old w)
unfolding bind_pairing publish_event
bind-Capped now pt lic mobile desktop pair_id n (some p) w h g =
    next (update_pairing_devices pair_id mobile.id desktop.id w.store)
      (λ s e. update-within pair_id mobile.id desktop.id w.store s h e)
  where
    next :
        (o : Outcome Store)
        → ((s : Store) → o ≡ ok s → WithinCapacity s)
        → Leaves Capped Capped (
            stored w o >>= λ s. going (
              publish_event
                (record { pair_id = pair_id; account_id = "" })
                (with_store w (evict now p.mobile_device_id mobile.id s))))
    next (fail e) k = h
    next (ok s) k = SameGates-within (evict-gates now p.mobile_device_id mobile.id s) (k s refl)
bind-Capped now pt lic mobile desktop pair_id n none w h g =
    next (create_pairing_within_capacity row n w.store)
      (λ s e. create-within row n w.store s lic g.1.0 h g.0 g.1.1 g.1.2 e)
  where
    row : Pairing
    row = record {
      pair_id = pair_id;
      license_id = lic.id;
      account_id = pt.account_id;
      mobile_device_id = mobile.id;
      desktop_device_id = desktop.id;
      status = pairing_active;
      created_at = now;
    }

    next :
        (o : Outcome Store)
        → ((s : Store) → o ≡ ok s → WithinCapacity s)
        → Leaves Capped Capped (created w o >>= λ s. going (with_store w s))
    next (fail conflict) k = h
    next (fail not_found) k = h
    next (fail capacity_exceeded) k = h
    next (ok s) k = k s refl

pub gate_unless-Gated :
    (lic : License) (old : Option Pairing) (w : World)
    → Capped w
    → get lic.id w.store.licenses ≡ some lic
    → Leaves Capped
        (λ n. Gated lic n old w.store)
        (gate_unless w (is_some old) (capacity_available lic w.store))
gate_unless-Gated lic (some p) w h there = tt
gate_unless-Gated lic none w h there =
    gated (capacity_available lic w.store) (capacity-some lic w.store)
  where
    gated :
        (o : Option (Bool × ℕ))
        → ((n : ℕ)
            → o ≡ some (true, n)
            → (sub : Subscription) × (get lic.subscription_id w.store.subscriptions ≡ some sub)
              × (n ≡ sub.max_pairs))
        → Leaves Capped (λ n. Gated lic n none w.store) (gate w o)
    gated none k = h
    gated (some (true, n)) k = (there, k n refl)
    gated (some (false, n)) k = h

pub consumed-gates :
    (id pair_id : String) (now : ℕ) (w : World)
    → Capped w
    → Leaves Capped (SameGates w.store) (consumed w (consume_pairing_token id pair_id now w.store))
consumed-gates id pair_id now w h =
    next (consume_pairing_token id pair_id now w.store) (consume_pairing-ok id pair_id now w.store)
  where
    next :
        (o : Outcome Store)
        → ((s : Store)
            → o ≡ ok s
            → (pt : PairingToken) × (get id w.store.pairing_tokens ≡ some pt)
              × (pt.consumed_at ≡ 0)
              × (s ≡ record w.store {
                pairing_tokens =
                    put id
                      (record pt { consumed_at = now; result_pair_id = pair_id })
                      w.store.pairing_tokens;
              }))
        → Leaves Capped (SameGates w.store) (consumed w o)
    next (fail conflict) k = h
    next (fail not_found) k = h
    next (fail capacity_exceeded) k = h
    next (ok s) k =
        let same = (k s refl).3 in
        record {
          same_licenses = ap (λ s. s.licenses) same;
          same_subscriptions = ap (λ s. s.subscriptions) same;
          same_pairings = ap (λ s. s.pairings) same;
        }

pub Gated-same :
    (lic : License) (n : ℕ) (old : Option Pairing) {s s' : Store}
    → SameGates s s'
    → Gated lic n old s
    → Gated lic n old s'
Gated-same lic n (some p) g h = tt
Gated-same lic n none g h = (rw g.same_licenses h.0, (h.1.0, rw g.same_subscriptions h.1.1, h.1.2))

pub grant-gates :
    (env : Env) (now : ℕ) (pt : PairingToken) (lic : License) (mobile desktop : Device)
    (pair_id : String) (w : World)
    → SameGates w.store (grant_credential env now pt lic mobile desktop pair_id w).0.store
unfolding grant_credential put_pair_credential
grant-gates env now pt lic mobile desktop pair_id w = record {
  same_licenses = refl;
  same_subscriptions = refl;
  same_pairings = refl;
}

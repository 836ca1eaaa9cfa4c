-- ===== src/AuthService/Pair/Complete/Tokens.antt =====
-- What the steps of a completion do to the table of pairing tokens.
use secure_gateway.Common.{
  ◌∙◌, ap, ℕ, ◌<◌, ◌≡◌, refl, sym, String, str_eq, Option, none, some, List, arith, string_key,
  Bool-cases, inl, inr, leb,
}
use secure_gateway.Common.Table.{get, put}
use secure_gateway.Token.{role_mobile}
use secure_gateway.AuthStore.{
  License, Pairing, Device, PairingToken, pairing_active, conflict, not_found, capacity_exceeded,
}
use secure_gateway.AuthStore.State.{Store, Outcome, ok, fail}
use secure_gateway.AuthStore.Devices.{
  upsert_device, find_device_by_account_role_key, count_devices_by_account,
}
use secure_gateway.AuthStore.Tokens.{put_pair_credential, revoke_refresh_tokens_by_device}
use secure_gateway.AuthStore.Pairings.{
  active_pair_count, create_pairing_within_capacity, update_pairing_devices,
}
use secure_gateway.AuthStore.Pairings.Count.{create-ok, update-ok}
use secure_gateway.AuthService.{
  Env, World, going, ◌>>=◌, need, with_store, publish_event, register_or_find_device,
  existing_or_insert, device_for_role,
}
use secure_gateway.AuthService.Ends.{going-injective}
use secure_gateway.AuthService.Pair.{stored}
use secure_gateway.AuthService.Pair.Complete.{
  resolve_mobile, bind_pairing, grant_credential, created, evict, with_device,
}

-- The table of pairing tokens.
abbrev pub Same : World → World → Type 0
Same w v = v.store.pairing_tokens ≡ w.store.pairing_tokens

insert-Same :
    (env : Env) (now : ℕ) (account role : String) (key : Option (List ℕ)) (w : World)
    (o : Outcome Device) (r : World × Device)
    → existing_or_insert env now account role key w o ≡ some r
    → Same w r.0
unfolding upsert_device
insert-Same env now account role key w (ok d) r h = ground arith
insert-Same env now account role key w (fail e) r h =
    elim (Bool-cases (leb env.device_cap (count_devices_by_account account w.store))) [
      | inl full ↦ absurd (ground arith)
      | inr free ↦ ground arith
    ]

pub resolve-Same :
    (env : Env) (now : ℕ) (account id : String) (key : List ℕ) (w : World) (r : World × Device)
    → resolve_mobile env now account id key w ≡ going r
    → Same w r.0
unfolding resolve_mobile register_or_find_device
resolve-Same env now account id key w r h = elim (Bool-cases (str_eq id "")) [
  | inl fresh ↦
      fresh_device (register_or_find_device env now account role_mobile (some key) w) refl
        (rw fresh at h)
  | inr known ↦ given (device_for_role id account role_mobile w.store) (rw known at h)
]
  where
    fresh_device :
        (o : Option (World × Device))
        → register_or_find_device env now account role_mobile (some key) w ≡ o
        → need w o 409 "device_limit" ≡ going r
        → Same w r.0
    fresh_device none e g = cc
    fresh_device (some q) e g =
        insert-Same env now account role_mobile (some key) w
          (find_device_by_account_role_key account role_mobile key w.store) r
          (e ∙ ap some (going-injective g))

    given : (o : Option Device) → with_device w o ≡ going r → Same w r.0
    given none g = cc
    given (some d) g =
        sym (ap (λ (x : World × Device). x.0.store.pairing_tokens) (going-injective g))

evict-tokens :
    (now : ℕ) (old mobile : String) (s : Store)
    → (evict now old mobile s).pairing_tokens ≡ s.pairing_tokens
unfolding revoke_refresh_tokens_by_device
evict-tokens now old mobile s = ground arith

pub bind-Same :
    (now : ℕ) (pt : PairingToken) (lic : License) (mobile desktop : Device) (pair_id : String)
    (n : ℕ) (old : Option Pairing) (w v : World)
    → bind_pairing now pt lic mobile desktop pair_id n old w ≡ going v
    → Same w v
unfolding bind_pairing publish_event
bind-Same now pt lic mobile desktop pair_id n (some p) w v h =
    next (update_pairing_devices pair_id mobile.id desktop.id w.store)
      (update-ok pair_id mobile.id desktop.id w.store) h
  where
    next :
        (o : Outcome Store)
        → ((s : Store)
            → o ≡ ok s
            → (q : Pairing) × (get pair_id w.store.pairings ≡ some q)
              × (s ≡ record w.store {
                pairings =
                    put pair_id
                      (record q { mobile_device_id = mobile.id; desktop_device_id = desktop.id })
                      w.store.pairings;
              }))
        → (stored w o >>= λ s. going (
            publish_event
              (record { pair_id = pair_id; account_id = "" })
              (with_store w (evict now p.mobile_device_id mobile.id s))))
          ≡ going v
        → Same w v
    next (fail e) k g = cc
    next (ok s) k g =
        sym (ap (λ x. x.store.pairing_tokens) (going-injective g))
        ∙ evict-tokens now p.mobile_device_id mobile.id s
        ∙ ap (λ x. x.pairing_tokens) (k s refl).2
bind-Same now pt lic mobile desktop pair_id n none w v h =
    next (create_pairing_within_capacity row n w.store) (create-ok row n w.store) h
  where
    row : Pairing
    row = record {
      pair_id = pair_id;
      license_id = lic.id;
      account_id = pt.account_id;
      mobile_device_id = mobile.id;
      desktop_device_id = desktop.id;
      status = pairing_active;
      created_at = now;
    }

    next :
        (o : Outcome Store)
        → ((s : Store)
            → o ≡ ok s
            → (get pair_id w.store.pairings ≡ none)
              × (active_pair_count lic.id w.store < n)
              × (s ≡ record w.store { pairings = put pair_id row w.store.pairings }))
        → (created w o >>= λ s. going (with_store w s)) ≡ going v
        → Same w v
    next (fail conflict) k g = cc
    next (fail not_found) k g = cc
    next (fail capacity_exceeded) k g = cc
    next (ok s) k g =
        sym (ap (λ x. x.store.pairing_tokens) (going-injective g))
        ∙ ap (λ x. x.pairing_tokens) (k s refl).2

pub grant-tokens :
    (env : Env) (now : ℕ) (pt : PairingToken) (lic : License) (mobile desktop : Device)
    (pair_id : String) (w : World)
    → Same w (grant_credential env now pt lic mobile desktop pair_id w).0
unfolding grant_credential put_pair_credential
grant-tokens env now pt lic mobile desktop pair_id w = refl

pub upsert-tokens : (d : Device) (s : Store) → (upsert_device d s).pairing_tokens ≡ s.pairing_tokens
unfolding upsert_device
upsert-tokens d s = refl

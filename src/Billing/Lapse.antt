-- ===== src/Billing/Lapse.antt =====
-- What the enforcement of a canceled subscription writes to its licenses.
use Prim.Native.String.{compare}
use text.Mathlib.Text.{is_lt}
use secure_gateway.Common.{
  ℕ, ◌≡◌, refl, ◌∙◌, sym, ap, subst, String, arith, Bool, true, false, none, some, List, [], ◌∷◌,
  All, ◌⊎◌, inl, inr, string_key, str_eq, eq_iff, Bool-cases, Option-cases,
}
use secure_gateway.Common.Lists.{select}
use secure_gateway.Common.Table.{Table, get, put, values, get-put}
use secure_gateway.AuthStore.{License, license_revoked, pairing_revoked, Pairing, Account}
use secure_gateway.AuthStore.State.{Store, Outcome, ok, fail, sort_by, insert_by}
use secure_gateway.AuthStore.Accounts.{upsert_account, get_account_by_customer}
use secure_gateway.AuthStore.Licenses.{
  upsert_subscription, list_licenses_by_subscription, set_license_status,
}
use secure_gateway.AuthStore.Pairings.{list_active_pairings_by_license, set_pairing_status}
use secure_gateway.Billing.Objects.{StripeSubscription, Event, id_of}
use secure_gateway.Billing.Run.{Processor, World, failed, going, stored, publish}
use secure_gateway.Billing.Sync.{
  revoke_pairing_if, revoke_license_if, cut_pairings, enforce_each, enforce, resolve_account,
  account_or_new,
}
use secure_gateway.Billing.Events.{handle_subscription_deleted}
use secure_gateway.Billing.Leaves.{Leaves, Leaves-bind, Leaves-stored, Leaves-going, bind-going}
use secure_gateway.Billing.Mirror.{deleted-steps}

-- What is true of all of a sorted list is true of all of the list.
All-insert_by {ℓ κ} :
    {A : Type ℓ} (Q : A → Type κ) (key : A → String) (x : A) (xs : List A)
    → All Q (insert_by key x xs)
    → Q x × All Q xs
unfolding insert_by
All-insert_by Q key x [] h = h
All-insert_by Q key x (y ∷ ys) h = elim (Bool-cases (is_lt (compare (key y) (key x)))) [
  | inl after ↦
      let k = rw after at h in let (q, rest) = All-insert_by Q key x ys k.1 in (q, (k.0, rest))
  | inr before ↦ let k = rw before at h in (k.0, k.1)
]

All-sort_by {ℓ κ} :
    {A : Type ℓ} (Q : A → Type κ) (key : A → String) (xs : List A)
    → All Q (sort_by key xs)
    → All Q xs
unfolding sort_by
All-sort_by Q key [] h = tt
All-sort_by Q key (x ∷ xs) h =
    let (first, rest) = All-insert_by Q key x (sort_by key xs) h in
    (first, All-sort_by Q key xs rest)

some-injective : (a b : License) → some a ≡ some b → a ≡ b
some-injective a b h = ap (λ o. elim o [ none ↦ a | some x ↦ x ]) h

-- What is true of all the selected values is true of one that a key finds and the test passes.
All-select {κ} :
    (Q : License → Type κ) (p : License → Bool) (id : String) (l : License)
    (m : Table String License)
    → All Q (select p (values m))
    → get id m ≡ some l
    → p l ≡ true
    → Q l
unfolding select get
All-select Q p id l [] h there passes = cc
All-select Q p id l ((i, x) ∷ m) h there passes = elim (Bool-cases (p x)) [
  | inl kept ↦
      let k = rw kept at h in
      elim (Bool-cases (str_eq i id)) [
        | inl same ↦ subst Q (some-injective x l (rw same at there)) k.0
        | inr other ↦ All-select Q p id l m k.1 (rw other at there) passes
      ]
  | inr dropped ↦ elim (Bool-cases (str_eq i id)) [
    | inl same ↦
        let is_it = some-injective x l (rw same at there) in
        absurd (ground (arith, passes, dropped, ap p is_it))
    | inr other ↦ All-select Q p id l m (rw dropped at h) (rw other at there) passes
  ]
]

-- The license of an id is as it was, or revoked.
abbrev IsCut : String → License → Table String License → Type 0
IsCut id l m = get id m ≡ some (record l { status = license_revoked })

abbrev IsKept : String → License → Table String License → Type 0
IsKept id l m = (get id m ≡ some l) ⊎ IsCut id l m

-- A revocation of a license keeps the predicate.
abbrev IsStable : (Table String License → Type 0) → Type 0
IsStable P =
    (at : String) (s t : Store)
    → set_license_status at license_revoked s ≡ ok t
    → P s.licenses
    → P t.licenses

set_pairing_status-licenses :
    (id : String) (s t : Store)
    → set_pairing_status id pairing_revoked s ≡ ok t
    → t.licenses ≡ s.licenses
unfolding set_pairing_status
set_pairing_status-licenses id s t h = ground arith

cut_pairings-keeps :
    (P : Table String License → Type 0) (b : Bool) (ps : List Pairing) (w : World)
    → P w.store.licenses
    → Leaves (λ v. P v.store.licenses) (λ v. P v.store.licenses) (cut_pairings b ps w)
unfolding cut_pairings
cut_pairings-keeps P b [] w h = record { ends = h }
cut_pairings-keeps P b (pr ∷ rest) w h =
    let Q : World → Type 0 = λ v. P v.store.licenses in
    Leaves-bind Q Q Q (revoke_pairing_if b pr.pair_id w) _ (step b) (λ w1 _ h1.
      cut_pairings-keeps P b rest (publish (record { pair_id = pr.pair_id; account_id = "" }) w1)
        h1)
  where
    step :
        (b : Bool)
        → Leaves
            (λ v. P v.store.licenses)
            (λ v. P v.store.licenses)
            (revoke_pairing_if b pr.pair_id w)
    step true =
        Leaves-stored (λ v. P v.store.licenses) w
          (set_pairing_status pr.pair_id pairing_revoked w.store) h
          (λ t e. subst P (sym (set_pairing_status-licenses pr.pair_id w.store t e)) h)
    step false = record { ends = h }

revoke-steps :
    (at : String) (s t : Store)
    → set_license_status at license_revoked s ≡ ok t
    → (x : License) × (get at s.licenses ≡ some x)
      × (t.licenses ≡ put at (record x { status = license_revoked }) s.licenses)
unfolding set_license_status
revoke-steps at s t h = elim (Option-cases (get at s.licenses)) [
  | inl e ↦ absurd (ground arith)
  | inr (x, e) ↦ (x, e, ground arith)
]

revoke-IsKept : (id : String) (l : License) → IsStable (IsKept id l)
revoke-IsKept id l at s t h k =
    let (x, e, same) = revoke-steps at s t h in
    ground (arith, eq_iff at id, get-put at id (record x { status = license_revoked }) s.licenses)

IsCut-stable : (id : String) (l : License) → IsStable (IsCut id l)
IsCut-stable id l at s t h k =
    let (x, e, same) = revoke-steps at s t h in
    ground (arith, eq_iff at id, get-put at id (record x { status = license_revoked }) s.licenses)

revoke-IsCut :
    (id : String) (l : License) (s t : Store)
    → set_license_status id license_revoked s ≡ ok t
    → IsKept id l s.licenses
    → IsCut id l t.licenses
revoke-IsCut id l s t h k =
    let (x, e, same) = revoke-steps id s t h in
    ground (arith, eq_iff id id, get-put id id (record x { status = license_revoked }) s.licenses)

stored-steps : (w w' : World) (o : Outcome Store) → stored w o ≡ going w' → (o ≡ ok w'.store)
stored-steps w w' (ok s) h = ap (λ r. elim r [ going v ↦ ok v.store | failed v e ↦ ok s ]) h
stored-steps w w' (fail e) h = cc

-- The rounds of the loop keep what a revocation keeps.
enforce_each-keeps :
    (P : Table String License → Type 0) (ls : List License) (w w' : World)
    → IsStable P
    → enforce_each true ls w ≡ going w'
    → P w.store.licenses
    → P w'.store.licenses
unfolding enforce_each
enforce_each-keeps P [] w w' k h p =
    subst (λ r. elim r [ going v ↦ P v.store.licenses | failed v e ↦ Unit ]) h p
enforce_each-keeps P (x ∷ rest) w w' k h p =
    let (w1, h1, t1) = bind-going (revoke_license_if true x.id w) _ h in
    let (w2, h2, t2) =
      bind-going (cut_pairings true (list_active_pairings_by_license x.id w1.store) w1) _ t1 in
    enforce_each-keeps P rest w2 w' k t2 (
      Leaves-going _ _ _ w2
        (cut_pairings-keeps P true _ w1 (k x.id w.store w1.store (stored-steps w w1 _ h1) p)) h2)

-- Every license of the list is revoked.
enforce_each-IsCut :
    (id : String) (l : License) (ls : List License) (w w' : World)
    → enforce_each true ls w ≡ going w'
    → IsKept id l w.store.licenses
    → All (λ x. x.id ≡ id → IsCut id l w'.store.licenses) ls
unfolding enforce_each
enforce_each-IsCut id l [] w w' h k = tt
enforce_each-IsCut id l (x ∷ rest) w w' h k =
    let (w1, h1, t1) = bind-going (revoke_license_if true x.id w) _ h in
    let (w2, h2, t2) =
      bind-going (cut_pairings true (list_active_pairings_by_license x.id w1.store) w1) _ t1 in
    let set = stored-steps w w1 _ h1 in
    let cut = λ (P : Table String License → Type 0) (p : P w1.store.licenses).
      Leaves-going _ _ _ w2 (cut_pairings-keeps P true _ w1 p) h2 in
    (
      λ same. enforce_each-keeps (IsCut id l) rest w2 w' (IsCut-stable id l) t2 (
          cut (IsCut id l) (
            revoke-IsCut id l w.store w1.store
              (ap (λ i. set_license_status i license_revoked w.store) (sym same) ∙ set) k)),
      enforce_each-IsCut id l rest w2 w' t2
          (cut (IsKept id l) (revoke-IsKept id l x.id w.store w1.store set k)),
    )

account_or_new-licenses :
    (p : Processor) (now : ℕ) (customer : String) (w : World) (o : Outcome Account)
    → (account_or_new p now customer w o).0.store.licenses ≡ w.store.licenses
unfolding upsert_account
account_or_new-licenses p now customer w (ok a) = refl
account_or_new-licenses p now customer w (fail e) = refl

resolve_account-licenses :
    (p : Processor) (now : ℕ) (customer : String) (w w1 : World) (account : String)
    → resolve_account p now customer w ≡ going (w1, account)
    → w1.store.licenses ≡ w.store.licenses
unfolding resolve_account
resolve_account-licenses p now customer w w1 account h =
    ground
      (arith, account_or_new-licenses p now customer w (get_account_by_customer customer w.store))

-- When the handling of a deletion succeeds, every license that the store has for the subscription is
-- still there, with its status revoked and all else as it was. It is supposed that licenses stand
-- under their own ids.
pub deletion-revokes :
    (p : Processor) (now : ℕ) (ev : Event) (sub : StripeSubscription) (w w' : World) (id : String)
    (l : License)
    → p.parse.subscription ev.raw ≡ some sub
    → handle_subscription_deleted p now ev w ≡ going w'
    → get id w.store.licenses ≡ some l
    → l.id ≡ id
    → l.subscription_id ≡ sub.id
    → get id w'.store.licenses ≡ some (record l { status = license_revoked })
unfolding enforce list_licenses_by_subscription upsert_subscription
deletion-revokes p now ev sub w w' id l e h there keyed mine =
    let (w1, account, resolved, h1) = deleted-steps p now ev sub w w' e h in
    let there1 : get id w1.store.licenses ≡ some l =
      rw (resolve_account-licenses p now (id_of sub.customer) w w1 account resolved) there in
    let Q : License → Type 0 = λ x. x.id ≡ id → IsCut id l w'.store.licenses in
    All-select Q (λ x. str_eq x.subscription_id sub.id) id l w1.store.licenses
      (All-sort_by Q (λ x. x.id) _ (enforce_each-IsCut id l _ _ w' h1 (inl there1))) there1
      ((eq_iff l.subscription_id sub.id).1 mine) keyed

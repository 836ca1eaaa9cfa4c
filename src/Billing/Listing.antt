-- ===== src/Billing/Listing.antt =====
-- internal/authstore/memory/memory.go: what a listing of failed events holds.
use secure_gateway.Common.{
  ℕ, zero, suc, ◌≡◌, ◌≢◌, refl, sym, subst, String, eq_iff, arith, Bool, true, ◌&&◌, some, List, [],
  ◌∷◌, All, Bool-cases, inl, inr, ltb, length, take, if◌then◌else◌, string_key,
}
use secure_gateway.Common.Lists.{select}
use secure_gateway.Common.Table.{Table, get, values, Distinct}
use secure_gateway.AuthStore.{WebhookEvent, webhook_failed, same_webhook_status}
use secure_gateway.AuthStore.State.{Store}
use secure_gateway.AuthStore.Webhooks.{
  insert_received, sort_received, list_webhook_events_by_status,
}

abbrev Ids : String → List WebhookEvent → Type 0
Ids id xs = All (λ y. y.id ≢ id) xs

-- No id stands twice.
abbrev pub NoDup : List WebhookEvent → Type 0
NoDup [] = Unit
NoDup (x ∷ xs) = Ids x.id xs × NoDup xs

-- The events stand under their own ids, each once.
pub record IsKeyed (m : Table String WebhookEvent) : Type 0 where
  pub distinct : Distinct m
  pub keyed : (id : String) (e : WebhookEvent) → get id m ≡ some e → e.id ≡ id

module _ {κ} (Q : WebhookEvent → Type κ) where
  All-values :
      (m : Table String WebhookEvent)
      → Distinct m
      → ((k : String) (e : WebhookEvent) → get k m ≡ some e → Q e)
      → All Q (values m)
  unfolding get
  All-values [] d h = tt
  All-values ((i, x) ∷ m) d h = (
    h i x (ground (arith, eq_iff i i)),
    All-values m d.1 (λ k e f. h k e (ground (arith, eq_iff i k, d.0))),
  )

  select-All : (p : WebhookEvent → Bool) (xs : List WebhookEvent) → All Q xs → All Q (select p xs)
  unfolding select
  select-All p [] h = tt
  select-All p (x ∷ xs) h = elim (Bool-cases (p x)) [
    | inl e ↦ rw e (h.0, select-All p xs h.1)
    | inr e ↦ rw e (select-All p xs h.1)
  ]

  insert-All :
      (e : WebhookEvent) (xs : List WebhookEvent) → Q e → All Q xs → All Q (insert_received e xs)
  unfolding insert_received
  insert-All e [] q h = (q, tt)
  insert-All e (x ∷ xs) q h = elim (Bool-cases (ltb x.received_at e.received_at)) [
    | inl f ↦ rw f (h.0, insert-All e xs q h.1)
    | inr f ↦ rw f (q, h)
  ]

  sort-All : (xs : List WebhookEvent) → All Q xs → All Q (sort_received xs)
  unfolding sort_received
  sort-All [] h = tt
  sort-All (x ∷ xs) h = insert-All x (sort_received xs) h.0 (sort-All xs h.1)

  take-All : (n : ℕ) (xs : List WebhookEvent) → All Q xs → All Q (take n xs)
  take-All zero xs h = tt
  take-All (suc n) [] h = tt
  take-All (suc n) (x ∷ xs) h = (h.0, take-All n xs h.1)

passes-select :
    (p : WebhookEvent → Bool) (xs : List WebhookEvent) → All (λ e. p e ≡ true) (select p xs)
unfolding select
passes-select p [] = tt
passes-select p (x ∷ xs) = elim (Bool-cases (p x)) [
  | inl e ↦ rw e (e, passes-select p xs)
  | inr e ↦ rw e (passes-select p xs)
]

values-NoDup : (m : Table String WebhookEvent) → IsKeyed m → NoDup (values m)
unfolding get
values-NoDup [] k = tt
values-NoDup ((i, x) ∷ m) k =
    let own : x.id ≡ i = k.keyed i x (ground (arith, eq_iff i i)) in
    let rest : IsKeyed m = record {
      distinct = k.distinct.1;
      keyed = λ id e f. k.keyed id e (ground (arith, eq_iff i id, k.distinct.0));
    } in
    (
      All-values (λ y. y.id ≢ x.id) m k.distinct.1
          (λ id e f same. ground (arith, rest.keyed id e f, own, same, k.distinct.0)),
      values-NoDup m rest,
    )

select-NoDup : (p : WebhookEvent → Bool) (xs : List WebhookEvent) → NoDup xs → NoDup (select p xs)
unfolding select
select-NoDup p [] h = tt
select-NoDup p (x ∷ xs) h = elim (Bool-cases (p x)) [
  | inl e ↦ rw e (select-All (λ y. y.id ≢ x.id) p xs h.0, select-NoDup p xs h.1)
  | inr e ↦ rw e (select-NoDup p xs h.1)
]

insert-NoDup :
    (e : WebhookEvent) (xs : List WebhookEvent)
    → Ids e.id xs
    → NoDup xs
    → NoDup (insert_received e xs)
unfolding insert_received
insert-NoDup e [] i h = (tt, tt)
insert-NoDup e (x ∷ xs) i h = elim (Bool-cases (ltb x.received_at e.received_at)) [
  | inl f ↦
      rw f
        (insert-All (λ y. y.id ≢ x.id) e xs (λ same. i.0 (sym same)) h.0, insert-NoDup e xs i.1 h.1)
  | inr f ↦ rw f (i, h)
]

sort-NoDup : (xs : List WebhookEvent) → NoDup xs → NoDup (sort_received xs)
unfolding sort_received
sort-NoDup [] h = tt
sort-NoDup (x ∷ xs) h =
    insert-NoDup x (sort_received xs) (sort-All (λ y. y.id ≢ x.id) xs h.0) (sort-NoDup xs h.1)

take-NoDup : (n : ℕ) (xs : List WebhookEvent) → NoDup xs → NoDup (take n xs)
take-NoDup zero xs h = tt
take-NoDup (suc n) [] h = tt
take-NoDup (suc n) (x ∷ xs) h = (take-All (λ y. y.id ≢ x.id) n xs h.0, take-NoDup n xs h.1)

abbrev pub is_failed : WebhookEvent → Bool
is_failed e = same_webhook_status e.status webhook_failed

abbrev pub Stands : Table String WebhookEvent → WebhookEvent → Type 0
Stands m e = get e.id m ≡ some e

abbrev failing : Store → List WebhookEvent
failing s = sort_received (select is_failed (values s.webhook_events))

module _ (limit : ℕ) (s : Store) where
  -- A property of lists that a shorter list keeps.
  listed :
      (R : List WebhookEvent → Type 0)
      → R (failing s)
      → R (take limit (failing s))
      → R (list_webhook_events_by_status webhook_failed limit s)
  unfolding list_webhook_events_by_status
  listed R h k = elim (Bool-cases (ltb 0 limit && ltb limit (length (failing s)))) [
    | inl e ↦ rw e k
    | inr e ↦ rw e h
  ]

  pub listed-Stands :
      IsKeyed s.webhook_events
      → All (Stands s.webhook_events) (list_webhook_events_by_status webhook_failed limit s)
  listed-Stands k =
      let m = s.webhook_events in
      let all : All (Stands m) (failing s) = sort-All (Stands m) _ (
        select-All (Stands m) is_failed _ (
          All-values (Stands m) m k.distinct
            (λ id e f. subst (λ i. get i m ≡ some e) (sym (k.keyed id e f)) f))) in
      listed (All (Stands m)) all (take-All (Stands m) limit (failing s) all)

  pub listed-is_failed :
      All (λ e. is_failed e ≡ true) (list_webhook_events_by_status webhook_failed limit s)
  listed-is_failed =
      let Q : WebhookEvent → Type 0 = λ e. is_failed e ≡ true in
      let all : All Q (failing s) =
        sort-All Q _ (passes-select is_failed (values s.webhook_events)) in
      listed (All Q) all (take-All Q limit (failing s) all)

  pub listed-NoDup :
      IsKeyed s.webhook_events → NoDup (list_webhook_events_by_status webhook_failed limit s)
  listed-NoDup k =
      let all : NoDup (failing s) =
        sort-NoDup _ (select-NoDup is_failed _ (values-NoDup s.webhook_events k)) in
      listed NoDup all (take-NoDup limit (failing s) all)

  -- A limited listing is empty only if the whole one is.
  pub listed-empty :
      list_webhook_events_by_status webhook_failed limit s ≡ []
      → list_webhook_events_by_status webhook_failed 0 s ≡ []
  unfolding list_webhook_events_by_status
  listed-empty h = shown (failing s) h
    where
      shown :
          (out : List WebhookEvent)
          → (if ltb 0 limit && ltb limit (length out) then take limit out else out) ≡ []
          → out ≡ []
      shown [] h = refl
      shown (x ∷ xs) h = taken limit h
        where
          taken :
              (n : ℕ)
              → (if ltb 0 n && ltb n (length (x ∷ xs)) then take n (x ∷ xs) else x ∷ xs) ≡ []
              → x ∷ xs ≡ []
          taken zero h = h
          taken (suc n) h = ground arith

  -- With nothing failed, every listing is empty.
  pub empty-listed :
      list_webhook_events_by_status webhook_failed 0 s ≡ []
      → list_webhook_events_by_status webhook_failed limit s ≡ []
  unfolding list_webhook_events_by_status
  empty-listed h = ground (arith, h)

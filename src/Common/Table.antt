-- ===== src/Common/Table.antt =====
-- A Go map as an association list with distinct keys: `m[k]`, `m[k] = v`, `delete(m, k)`, `range`.
use Prim.Native.Nat.{◌+◌}
use mathlib.Core.Path.{◌≡◌, refl}
use mathlib.Core.Bool.{Bool, true, false}
use mathlib.Core.List.{List, [], ◌∷◌}
use mathlib.Core.Option.{Option, none, some}
use native.Mathlib.Omega.{arith}
use secure_gateway.Common.Tests.{if◌then◌else◌}
use secure_gateway.Common.Lists.{count}
use secure_gateway.Common.Keys.{Key, same, same_refl}

abbrev pub Table {ℓ κ} : Type ℓ → Type κ → Type (ℓ ⊔ κ)
Table K V = List (K × V)

-- What a range over the table visits.
abbrev pub values {ℓ κ} : {K : Type ℓ} {V : Type κ} → Table K V → List V
values [] = []
values ((k, v) ∷ m) = v ∷ values m

-- What is left of an entry after a delete by a test.
abbrev pub unless {κ} : {V : Type κ} → (V → Bool) → Option V → Option V
unless p none = none
unless p (some v) = if p v then none else some v

module _ {ℓ κ} {K : Type ℓ} {V : Type κ} ⦃e : Key K⦄ where
  unfoldable pub get : K → Table K V → Option V
  get k [] = none
  get k ((j, v) ∷ m) = if same j k then some v else get k m

  unfoldable pub put : K → V → Table K V → Table K V
  put k v [] = (k, v) ∷ []
  put k v ((j, w) ∷ m) = if same j k then (k, v) ∷ m else (j, w) ∷ put k v m

  unfoldable pub remove : K → Table K V → Table K V
  remove k [] = []
  remove k ((j, v) ∷ m) = let rest = remove k m in if same j k then rest else (j, v) ∷ rest

  pub get-put :
      (k j : K) (v : V) (m : Table K V) → get j (put k v m) ≡ (if same k j then some v else get j m)
  unfolding get put
  get-put k j v [] = refl
  get-put k j v ((i, w) ∷ m) =
      ground (arith, e.same_iff k j, e.same_iff i k, e.same_iff i j, get-put k j v m)

  pub get-put_self : (k : K) (v : V) (m : Table K V) → get k (put k v m) ≡ some v
  get-put_self k v m = rw (get-put, same_refl k)

  pub get-remove :
      (k j : K) (m : Table K V) → get j (remove k m) ≡ (if same k j then none else get j m)
  unfolding get remove
  get-remove k j [] = ground arith
  get-remove k j ((i, w) ∷ m) =
      ground (arith, e.same_iff k j, e.same_iff i k, e.same_iff i j, get-remove k j m)

  -- A fresh key adds one value to what a range counts.
  pub count-put_fresh :
      (p : V → Bool) (k : K) (v : V) (m : Table K V)
      → get k m ≡ none
      → count p (values (put k v m)) ≡ (if p v then 1 else 0) + count p (values m)
  unfolding get put count
  count-put_fresh p k v [] h = refl
  count-put_fresh p k v ((i, w) ∷ m) h = ground (arith, count-put_fresh p k v m)

  -- A write to a key in use exchanges one value for another.
  pub count-put_old :
      (p : V → Bool) (k : K) (v old : V) (m : Table K V)
      → get k m ≡ some old
      → count p (values (put k v m)) + (if p old then 1 else 0)
        ≡ count p (values m) + (if p v then 1 else 0)
  unfolding get put count
  count-put_old p k v old [] h = ground arith
  count-put_old p k v old ((i, w) ∷ m) h = ground (arith, count-put_old p k v old m)

  -- `for k, v := range m { if p(v) { delete(m, k) } }`.
  unfoldable pub discard : (V → Bool) → Table K V → Table K V
  discard p [] = []
  discard p ((k, v) ∷ m) = let rest = discard p m in if p v then rest else (k, v) ∷ rest

  -- No key stands twice.
  abbrev pub Distinct : Table K V → Type κ
  Distinct [] = Unit
  Distinct ((k, v) ∷ m) = (get k m ≡ none) × Distinct m

  pub put-Distinct : (k : K) (v : V) (m : Table K V) → Distinct m → Distinct (put k v m)
  unfolding get put
  put-Distinct k v [] d = (refl, tt)
  put-Distinct k v ((i, w) ∷ m) d =
      ground (arith, e.same_iff i k, e.same_iff k i, get-put k i v m, put-Distinct k v m d.1)

  pub get-discard :
      (p : V → Bool) (k : K) (m : Table K V) → Distinct m → get k (discard p m) ≡ unless p (get k m)
  unfolding get discard
  get-discard p k [] d = refl
  get-discard p k ((i, w) ∷ m) d = ground (arith, e.same_iff i k, get-discard p k m d.1)

  pub discard-Distinct : (p : V → Bool) (m : Table K V) → Distinct m → Distinct (discard p m)
  unfolding discard
  discard-Distinct p [] d = tt
  discard-Distinct p ((i, w) ∷ m) d =
      ground (arith, discard-Distinct p m d.1, get-discard p i m d.1)

  pub count-discard :
      (p q : V → Bool) (m : Table K V)
      → ((v : V) → q v ≡ true → p v ≡ false)
      → count p (values (discard q m)) ≡ count p (values m)
  unfolding discard count
  count-discard p q [] h = refl
  count-discard p q ((i, w) ∷ m) h = ground (arith, h w, count-discard p q m h)

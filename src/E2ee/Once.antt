-- ===== src/E2ee/Once.antt =====
-- internal/e2ee/e2ee.go: what the replay guard refuses.
use secure_gateway.Common.{
  ℕ, ◌+◌, ◌-◌, ◌≤◌, ◌<◌, ◌≡◌, refl, ◌⊎◌, inl, inr, String, true, false, none, some, ltb, lt→ltb,
  arith, eq_iff, string_key, Bool-cases, Option-cases, if◌then◌else◌,
}
use secure_gateway.Common.Table.{
  Table, get, put, discard, Distinct, get-put, get-put_self, put-Distinct, get-discard,
  discard-Distinct,
}
use secure_gateway.Common.Words.{Int64, two_64, behind}
use secure_gateway.E2ee.Guard.{ReplayGuard, admit, check, is_stale, floor, Refusal, stale, replay}

-- What the calls keep of a guard.
pub record IsSound (g : ReplayGuard) : Type 0 where
  pub window-le : g.window ≤ 300000
  pub last-lt : g.last_ts < two_64
  pub distinct : Distinct g.seen

-- The guard has admitted (id, ts), and refuses it from then on.
pub record IsSpent (id : String) (ts : Int64) (g : ReplayGuard) : Type 0 where
  pub primed : g.primed ≡ true
  pub not_after : ts ≤ g.last_ts
  pub kept_or_old : (get id g.seen ≡ some ts) ⊎ (ts < floor g)

pub admit-IsSound :
    (g : ReplayGuard) (id : String) (ts : Int64) → ts < two_64 → IsSound g → IsSound (admit g id ts)
unfolding admit
admit-IsSound g id ts h s = record {
  window-le = s.window-le;
  last-lt = ground (arith, s.last-lt);
  distinct =
      discard-Distinct (λ v. ltb v (floor (admit g id ts))) (put id ts g.seen)
        (put-Distinct id ts g.seen s.distinct);
}

-- A subtraction that stays above the least integer, and one that wraps around.
behind_near : (l w : ℕ) → w ≤ l → l < two_64 → behind l w ≡ l - w
behind_near l w h k = omega arith

behind_wrap : (l w : ℕ) → l < w → w ≤ 300000 → behind l w ≡ l + two_64 - w
behind_wrap l w h k = omega arith

-- What lies below the floor stays below it.
floor_mono :
    (w l ts old : ℕ)
    → w ≤ 300000
    → l < two_64
    → ts < two_64
    → old ≤ l
    → old < behind l w
    → behind l w ≤ ts
    → old < behind (if ltb l ts then ts else l) w
floor_mono w l ts old hw hl ht ho hf hs =
    ground (arith, behind_near l w, behind_wrap l w, behind_near ts w, behind_wrap ts w)

-- An entry of the table with the key, once those below the floor are gone.
kept_or_below :
    (f : ℕ) (id : String) (ts : Int64) (m : Table String Int64)
    → Distinct m
    → get id m ≡ some ts
    → (get id (discard (λ v. ltb v f) m) ≡ some ts) ⊎ (ts < f)
kept_or_below f id ts m d h = ground (arith, get-discard (λ v. ltb v f) id m d)

pub admit-spends :
    (g : ReplayGuard) (id : String) (ts : Int64) → IsSound g → IsSpent id ts (admit g id ts)
unfolding admit
admit-spends g id ts s = record {
  primed = refl;
  not_after = ground arith;
  kept_or_old =
      kept_or_below (floor (admit g id ts)) id ts (put id ts g.seen)
        (put-Distinct id ts g.seen s.distinct) (get-put_self id ts g.seen);
}

-- An admission of another envelope leaves it spent.
pub admit-IsSpent :
    (g : ReplayGuard) (id other : String) (ts now : Int64)
    → IsSound g
    → now < two_64
    → is_stale g now ≡ false
    → get other g.seen ≡ none
    → IsSpent id ts g
    → IsSpent id ts (admit g other now)
unfolding admit
admit-IsSpent g id other ts now s h fresh unseen p = record {
  primed = refl;
  not_after = ground (arith, p.primed, p.not_after);
  kept_or_old = elim p.kept_or_old [
    | inl k ↦
        kept_or_below (floor (admit g other now)) id ts (put other now g.seen)
          (put-Distinct other now g.seen s.distinct)
          (ground (arith, eq_iff other id, get-put other id now g.seen))
    | inr old ↦ inr (
        ground (
          arith,
          p.primed,
          floor_mono g.window g.last_ts now ts s.window-le s.last-lt h p.not_after old,
        ))
  ];
}

-- A property that an admission keeps is kept by a call.
check-keeps :
    (P : ReplayGuard → Type 0) (g : ReplayGuard) (id : String) (ts : Int64)
    → (is_stale g ts ≡ false → get id g.seen ≡ none → P (admit g id ts))
    → P g
    → P (check g id ts).0
unfolding check
check-keeps P g id ts k h = elim (Bool-cases (is_stale g ts)) [
  | inl old ↦ rw old h
  | inr fresh ↦ elim (Option-cases (get id g.seen)) [
    | inl unseen ↦ rw (fresh, unseen) (k fresh unseen)
    | inr (v, seen) ↦ rw (fresh, seen) h
  ]
]

pub check-IsSound :
    (g : ReplayGuard) (id : String) (ts : Int64)
    → ts < two_64
    → IsSound g
    → IsSound (check g id ts).0
check-IsSound g id ts h s =
    check-keeps IsSound g id ts (λ fresh unseen. admit-IsSound g id ts h s) s

pub check-IsSpent :
    (g : ReplayGuard) (id other : String) (ts now : Int64)
    → IsSound g
    → now < two_64
    → IsSpent id ts g
    → IsSpent id ts (check g other now).0
check-IsSpent g id other ts now s h p =
    check-keeps (IsSpent id ts) g other now
      (λ fresh unseen. admit-IsSpent g id other ts now s h fresh unseen p) p

pub check-spends :
    (g : ReplayGuard) (id : String) (ts : Int64)
    → IsSound g
    → (check g id ts).1 ≡ none
    → IsSpent id ts (check g id ts).0
unfolding check
check-spends g id ts s h = ground (arith, admit-spends g id ts s)

pub check-refuses :
    (g : ReplayGuard) (id : String) (ts : Int64)
    → IsSpent id ts g
    → (r : Refusal) × (check g id ts ≡ (g, some r))
unfolding check
check-refuses g id ts p = elim (Bool-cases (is_stale g ts)) [
  | inl old ↦ (stale, rw old refl)
  | inr fresh ↦ elim p.kept_or_old [
    | inl k ↦ (replay, rw (fresh, k) refl)
    | inr old ↦ ground (arith, p.primed, lt→ltb ts (floor g))
  ]
]

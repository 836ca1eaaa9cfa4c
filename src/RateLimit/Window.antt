-- ===== src/RateLimit/Window.antt =====
-- How many strikes within one window earn a ban, and how long it lasts.
use secure_gateway.Common.{
  ◌∙◌, ap, ℕ, suc, ◌+◌, ◌-◌, ◌≤◌, ◌<◌, ◌≡◌, inl, inr, String, true, false, none, some, List, [],
  ◌∷◌, arith, if◌then◌else◌, ltb, string_key, same, eq_iff, Bool-cases,
}
use secure_gateway.Common.Table.{get, get-put, get-put_self}
use secure_gateway.RateLimit.{BanEntry, BanTracker, strike_entry, strike, ban_left, banned}

-- Strikes in turn: each is a key and its instant.
unfoldable pub strike_all : List (String × ℕ) → BanTracker → BanTracker
strike_all [] b = b
strike_all ((k, t) ∷ ss) b = strike_all ss (strike k t b).0

-- How many of the strikes are the key's.
abbrev pub strikes_of : String → List (String × ℕ) → ℕ
strikes_of k [] = 0
strikes_of k ((j, t) ∷ ss) = (if same j k then 1 else 0) + strikes_of k ss

-- No strike of the key comes later than `last`.
abbrev pub NoneAfter : String → ℕ → List (String × ℕ) → Type 0
NoneAfter k last [] = Unit {0}
NoneAfter k last ((j, t) ∷ ss) = (j ≡ k → t ≤ last) × NoneAfter k last ss

pub strike_keeps_config :
    (k : String) (t : ℕ) (b : BanTracker)
    → let c = (strike k t b).0 in
      (c.threshold ≡ b.threshold)
      × (c.strike_window ≡ b.strike_window)
      × (c.ban_window ≡ b.ban_window)
unfolding strike
strike_keeps_config k t b = ground arith

-- Another key's strike leaves the entry alone.
strike_other :
    (j k : String) (t : ℕ) (b : BanTracker)
    → same j k ≡ false
    → get k (strike j t b).0.entries ≡ get k b.entries
unfolding strike
strike_other j k t b h =
    ground (arith, get-put j k (strike_entry b t (get j b.entries)).0 b.entries)

-- A strike within the window, not the last one allowed, is counted.
strike_counts :
    (k : String) (t start n : ℕ) (b : BanTracker)
    → get k b.entries ≡ some (record { strikes = n; window_start = start; banned_until = 0 })
    → t ≤ start + b.strike_window
    → suc n < b.threshold
    → get k (strike k t b).0.entries
      ≡ some (record { strikes = suc n; window_start = start; banned_until = 0 })
unfolding strike strike_entry
strike_counts k t start n b h w lim =
    ground (arith, get-put_self k (strike_entry b t (get k b.entries)).0 b.entries)

-- The first strike opens the window.
strike_opens :
    (k : String) (t : ℕ) (b : BanTracker)
    → get k b.entries ≡ none
    → 1 < b.threshold
    → get k (strike k t b).0.entries
      ≡ some (record { strikes = 1; window_start = t; banned_until = 0 })
unfolding strike strike_entry
strike_opens k t b h lim =
    ground (arith, get-put_self k (strike_entry b t (get k b.entries)).0 b.entries)

strike_all_counts :
    (ss : List (String × ℕ)) (k : String) (start n : ℕ) (b : BanTracker)
    → get k b.entries ≡ some (record { strikes = n; window_start = start; banned_until = 0 })
    → NoneAfter k (start + b.strike_window) ss
    → n + strikes_of k ss < b.threshold
    → let c = strike_all ss b in
      (get k c.entries
        ≡ some (record { strikes = n + strikes_of k ss; window_start = start; banned_until = 0 }))
      × (c.threshold ≡ b.threshold)
      × (c.strike_window ≡ b.strike_window)
      × (c.ban_window ≡ b.ban_window)
unfolding strike_all
strike_all_counts [] k start n b h w lim = ground arith
strike_all_counts ((j, t) ∷ ss) k start n b h w lim = elim (Bool-cases (same j k)) [
  | inl hit ↦ ground (
    arith,
    eq_iff j k,
    strike_keeps_config j t b,
    w.0 ((eq_iff j k).0 hit),
    strike_counts k t start n b h,
    strike_all_counts ss k start (suc n) (strike j t b).0,
  )
  | inr miss ↦ ground (
    arith,
    strike_keeps_config j t b,
    strike_other j k t b miss,
    strike_all_counts ss k start n (strike j t b).0,
  )
]

-- The strike that reaches the threshold bans.
strike_bans :
    (k : String) (t start n : ℕ) (b : BanTracker)
    → get k b.entries ≡ some (record { strikes = n; window_start = start; banned_until = 0 })
    → t ≤ start + b.strike_window
    → suc n ≡ b.threshold
    → ((strike k t b).1 ≡ true)
      × (get k (strike k t b).0.entries
          ≡ some (record { strikes = 0; window_start = t; banned_until = t + b.ban_window }))
unfolding strike strike_entry
strike_bans k t start n b h w lim =
    ground (arith, get-put_self k (strike_entry b t (get k b.entries)).0 b.entries)

banned_of_entry :
    (k : String) (now : ℕ) (e : BanEntry) (b : BanTracker)
    → 0 < b.threshold
    → get k b.entries ≡ some e
    → banned k now b ≡ ban_left now (some e)
unfolding banned
banned_of_entry k now e b p h = rw h (ground arith)

-- With a threshold of 2 or more: a key with no entry strikes at `start`; then come strikes of any
-- keys, those of this key no later than the end of the window, one less than the threshold with the
-- first; up to here the key is not banned. The next strike of the key, at `t` within the window,
-- bans it, and the ban holds until exactly `t` plus the ban window.
pub ban_at_threshold :
    (k : String) (start t : ℕ) (ss : List (String × ℕ)) (b : BanTracker)
    → get k b.entries ≡ none
    → NoneAfter k (start + b.strike_window) ss
    → t ≤ start + b.strike_window
    → strikes_of k ss + 2 ≡ b.threshold
    → let c = strike_all ((k, start) ∷ ss) b in
      ((now : ℕ) → banned k now c ≡ none)
      × ((strike k t c).1 ≡ true)
      × ((now : ℕ)
          → banned k now (strike k t c).0
            ≡ (if ltb now (t + b.ban_window) then some (t + b.ban_window - now) else none))
unfolding strike_all
ban_at_threshold k start t ss b fresh w last n =
    let opened = strike_opens k start b fresh (omega arith) in
    let config = strike_keeps_config k start b in
    let counted =
      strike_all_counts ss k start 1 (strike k start b).0 opened (rw config.1 w)
        (omega (arith, config.0)) in
    let c = strike_all ss (strike k start b).0 in
    let bans =
      strike_bans k t start (1 + strikes_of k ss) c counted.0 (omega (arith, config.1, counted.2))
        (omega (arith, config.0, counted.1)) in
    let kept = strike_keeps_config k t c in
    (
      λ now.
          banned_of_entry k now _ c (omega (arith, config.0, counted.1)) counted.0 ∙ ground arith,
      bans.0,
      λ now.
          banned_of_entry k now _ (strike k t c).0 (omega (arith, config.0, counted.1, kept.0))
            bans.1
          ∙ ap (λ bw. if ltb now (t + bw) then some (t + bw - now) else none)
              (counted.3 ∙ config.2),
    )

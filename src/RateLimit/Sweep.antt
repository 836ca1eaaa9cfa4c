-- ===== src/RateLimit/Sweep.antt =====
-- What a sweep of the ban tracker may forget.
use secure_gateway.Common.{
  ℕ, suc, ◌-◌, ◌≤◌, ◌<◌, ◌≡◌, refl, ap, ◌⊎◌, inl, inr, String, Bool, true, false, Option, none,
  some, List, [], ◌∷◌, arith, ltb, string_key, same, Bool-cases,
}
use secure_gateway.Common.Table.{get, put, get-put, unless, Distinct, get-discard, count-discard}
use secure_gateway.RateLimit.{
  BanEntry, BanTracker, bans_disabled, entry_or_new, restart, score, strike_entry, strike, ban_left,
  banned, is_stale, sweep, active_bans,
}

pub data Call : Type 0 where
  strikes asks : String → Call

pub data Answer : Type 0 where
  struck : Bool → Answer
  left : Option ℕ → Answer

-- One call at an instant, and its answer.
unfoldable pub step : ℕ → Call → BanTracker → BanTracker × Answer
step t (strikes k) b = let (b', hit) = strike k t b in (b', struck hit)
step t (asks k) b = (b, left (banned k t b))

unfoldable pub answers : List (ℕ × Call) → BanTracker → List Answer
answers [] b = []
answers ((t, c) ∷ cs) b = (step t c b).1 ∷ answers cs (step t c b).0

-- The calls come in the order of time, none before `t`.
abbrev pub From : ℕ → List (ℕ × Call) → Type 0
From t [] = Unit {0}
From t ((t', c) ∷ cs) = (t ≤ t') × From t' cs

-- Forgotten: no call from `t` on can tell the entry from a missing one.
abbrev Gone : ℕ → ℕ → Option BanEntry → Type 0
Gone window t none = Unit {0}
Gone window t (some e) = (e.banned_until < t) × (window < t - e.window_start)

abbrev Same : ℕ → BanEntry → BanEntry → Type 0
Same t e e' =
    (e.strikes ≡ e'.strikes)
    × (e.window_start ≡ e'.window_start)
    × ((e.banned_until ≡ e'.banned_until) ⊎ ((e.banned_until < t) × (e'.banned_until < t)))

data Alike (window t : ℕ) (o o' : Option BanEntry) : Type 0 where
  gone : Gone window t o → Gone window t o' → Alike window t o o'
  kept : (e e' : BanEntry) → o ≡ some e → o' ≡ some e' → Same t e e' → Alike window t o o'

-- A missing or stale entry is scored as a new one.
restart-Gone :
    (window t t' : ℕ) (o : Option BanEntry)
    → t ≤ t'
    → 0 < t
    → Gone window t o
    → let e = restart window t' (entry_or_new t' o) in
      (e.strikes ≡ 0) × (e.window_start ≡ t') × (e.banned_until < t)
restart-Gone window t t' none h p g = ground arith
restart-Gone window t t' (some e) h p g = ground arith

restart-Same :
    (window t t' : ℕ) (e e' : BanEntry)
    → t ≤ t'
    → Same t e e'
    → Same t' (restart window t' e) (restart window t' e')
restart-Same window t t' e e' h s = ground arith

score-Same :
    (threshold bw t : ℕ) (e e' : BanEntry)
    → Same t e e'
    → ((score threshold bw t e).1 ≡ (score threshold bw t e').1)
      × Same t (score threshold bw t e).0 (score threshold bw t e').0
score-Same threshold bw t e e' s = ground arith

strike_entry-Alike :
    (b : BanTracker) (t t' : ℕ) (o o' : Option BanEntry)
    → t ≤ t'
    → 0 < t
    → Alike b.strike_window t o o'
    → ((strike_entry b t' o).1 ≡ (strike_entry b t' o').1)
      × Same t' (strike_entry b t' o).0 (strike_entry b t' o').0
unfolding strike_entry
strike_entry-Alike b t t' o o' h p (gone g g') = score-Same b.threshold b.ban_window t' _ _ (
    omega (
      arith,
      restart-Gone b.strike_window t t' o h p g,
      restart-Gone b.strike_window t t' o' h p g',
    ))
strike_entry-Alike b t t' o o' h p (kept e e' q q' s) =
    rw (q, q')
      (score-Same b.threshold b.ban_window t' _ _ (restart-Same b.strike_window t t' e e' h s))

ban_left-Alike :
    (window t t' : ℕ) (o o' : Option BanEntry)
    → t ≤ t'
    → Alike window t o o'
    → ban_left t' o ≡ ban_left t' o'
ban_left-Alike window t t' none none h (gone g g') = refl
ban_left-Alike window t t' none (some e') h (gone g g') = ground arith
ban_left-Alike window t t' (some e) none h (gone g g') = ground arith
ban_left-Alike window t t' (some e) (some e') h (gone g g') = ground arith
ban_left-Alike window t t' o o' h (kept e e' q q' s) = rw (q, q') (ground arith)

Alike-later :
    (window t t' : ℕ) (o o' : Option BanEntry) → t ≤ t' → Alike window t o o' → Alike window t' o o'
Alike-later window t t' none none h (gone g g') = gone tt tt
Alike-later window t t' none (some e') h (gone g g') = gone tt (omega arith)
Alike-later window t t' (some e) none h (gone g g') = gone (omega arith) tt
Alike-later window t t' (some e) (some e') h (gone g g') = gone (omega arith) (omega arith)
Alike-later window t t' o o' h (kept e e' q q' s) = kept e e' q q' (ground arith)

record Twins (t : ℕ) (b b' : BanTracker) : Type 0 where
  same_threshold : b.threshold ≡ b'.threshold
  same_window : b.strike_window ≡ b'.strike_window
  same_ban : b.ban_window ≡ b'.ban_window
  alike : (k : String) → Alike b.strike_window t (get k b.entries) (get k b'.entries)

strike-disabled :
    (k : String) (t : ℕ) (b : BanTracker) → bans_disabled b ≡ true → strike k t b ≡ (b, false)
unfolding strike
strike-disabled k t b h = rw h

strike-enabled :
    (k : String) (t : ℕ) (b : BanTracker)
    → bans_disabled b ≡ false
    → let r = strike_entry b t (get k b.entries) in
      strike k t b ≡ (record b { entries = put k r.0 b.entries }, r.1)
unfolding strike
strike-enabled k t b h = rw h

Twins-later : {t t' : ℕ} {b b' : BanTracker} → t ≤ t' → Twins t b b' → Twins t' b b'
Twins-later {t} {t'} {b} {b'} h w = record {
  same_threshold = w.same_threshold;
  same_window = w.same_window;
  same_ban = w.same_ban;
  alike = λ k. Alike-later b.strike_window t t' _ _ h (w.alike k);
}

strike_entry-config :
    (t : ℕ) (o : Option BanEntry) {u : ℕ} {b b' : BanTracker}
    → Twins u b b'
    → strike_entry b t o ≡ strike_entry b' t o
unfolding strike_entry
strike_entry-config t o w = cc (w.same_threshold, w.same_window, w.same_ban)

put-Alike :
    (k j : String) (e e' : BanEntry) (window t t' : ℕ) (b b' : BanTracker)
    → t ≤ t'
    → Same t' e e'
    → Alike window t (get j b.entries) (get j b'.entries)
    → Alike window t' (get j (put k e b.entries)) (get j (put k e' b'.entries))
put-Alike k j e e' window t t' b b' h s a = elim (Bool-cases (same k j)) [
  | inl hit ↦ rw (get-put, hit) (rw (get-put, hit) (kept e e' refl refl s))
  | inr miss ↦ rw (get-put, miss) (rw (get-put, miss) (Alike-later window t t' _ _ h a))
]

strike-Twins :
    (k : String) (t t' : ℕ) (b b' : BanTracker)
    → t ≤ t'
    → 0 < t
    → Twins t b b'
    → Twins t' (strike k t' b).0 (strike k t' b').0 × ((strike k t' b).1 ≡ (strike k t' b').1)
strike-Twins k t t' b b' h p w = elim (Bool-cases (bans_disabled b)) [
  | inl off ↦
      rw (strike-disabled k t' b off, strike-disabled k t' b' (rw w.same_threshold at off))
        (Twins-later h w, refl)
  | inr on ↦
      let r = strike_entry-Alike b t t' _ _ h p (w.alike k) in
      rw
        (
          strike-enabled k t' b on,
          strike-enabled k t' b' (rw w.same_threshold at on),
          ← strike_entry-config t' (get k b'.entries) w,
        )
        (
          record {
            same_threshold = w.same_threshold;
            same_window = w.same_window;
            same_ban = w.same_ban;
            alike = λ j. put-Alike k j _ _ b.strike_window t t' b b' h r.1 (w.alike j);
          },
          r.0,
        )
]

banned-Twins :
    (k : String) (t t' : ℕ) (b b' : BanTracker)
    → t ≤ t'
    → Twins t b b'
    → banned k t' b ≡ banned k t' b'
unfolding banned
banned-Twins k t t' b b' h w =
    ground (arith, w.same_threshold, ban_left-Alike b.strike_window t t' _ _ h (w.alike k))

step-Twins :
    (c : Call) (t t' : ℕ) (b b' : BanTracker)
    → t ≤ t'
    → 0 < t
    → Twins t b b'
    → Twins t' (step t' c b).0 (step t' c b').0 × ((step t' c b).1 ≡ (step t' c b').1)
unfolding step
step-Twins (strikes k) t t' b b' h p w =
    let r = strike-Twins k t t' b b' h p w in (r.0, ap struck r.1)
step-Twins (asks k) t t' b b' h p w = (Twins-later h w, ap left (banned-Twins k t t' b b' h w))

answers-Twins :
    (cs : List (ℕ × Call)) (t : ℕ) (b b' : BanTracker)
    → 0 < t
    → From t cs
    → Twins t b b'
    → answers cs b ≡ answers cs b'
unfolding answers
answers-Twins [] t b b' p f w = refl
answers-Twins ((t', c) ∷ cs) t b b' p f w =
    let r = step-Twins c t t' b b' f.0 p w in
    cc (r.1, answers-Twins cs t' (step t' c b).0 (step t' c b').0 (omega arith) f.1 r.0)

Same-refl : (t : ℕ) (e : BanEntry) → Same t e e
Same-refl t e = (refl, refl, inl refl)

Alike-refl : (window t : ℕ) (o : Option BanEntry) → Alike window t o o
Alike-refl window t none = gone tt tt
Alike-refl window t (some e) = kept e e refl refl (Same-refl t e)

unless-Alike :
    (window now : ℕ) (o : Option BanEntry)
    → Alike window (suc now) (unless (is_stale window now) o) o
unless-Alike window now none = gone tt tt
unless-Alike window now (some e) = elim (Bool-cases (is_stale window now e)) [
  | inl old ↦ rw old (gone tt (ground arith))
  | inr new ↦ rw new (kept e e refl refl (Same-refl (suc now) e))
]

sweep-Twins : (b : BanTracker) (now : ℕ) → Distinct b.entries → Twins (suc now) (sweep now b) b
unfolding sweep
sweep-Twins b now d = elim (Bool-cases (bans_disabled b)) [
  | inl off ↦ rw off (record {
    same_threshold = refl;
    same_window = refl;
    same_ban = refl;
    alike = λ k. Alike-refl b.strike_window (suc now) (get k b.entries);
  })
  | inr on ↦ rw on (record {
    same_threshold = refl;
    same_window = refl;
    same_ban = refl;
    alike = λ k.
        rw (get-discard (is_stale b.strike_window now) k b.entries d)
          (unless-Alike b.strike_window now (get k b.entries));
  })
]

-- Sweeping is invisible: whatever strikes and questions follow it, at later instants and in the
-- order of time, their answers are those of the tracker that was not swept.
pub answers-sweep :
    (cs : List (ℕ × Call)) (now : ℕ) (b : BanTracker)
    → Distinct b.entries
    → From (suc now) cs
    → answers cs (sweep now b) ≡ answers cs b
answers-sweep cs now b d f = answers-Twins cs (suc now) _ _ (omega arith) f (sweep-Twins b now d)

-- Nor does it change the number of bans in force.
pub active_bans-sweep :
    (now : ℕ) (b : BanTracker) → active_bans now (sweep now b) ≡ active_bans now b
unfolding active_bans sweep
active_bans-sweep now b = ground (
  arith,
  count-discard (λ e. ltb now e.banned_until) (is_stale b.strike_window now) b.entries
      (λ e h. ground arith),
)

-- ===== src/Relay/Hub/Evolution.antt =====
-- What an operation of the hub leaves as it is.
use secure_gateway.Common.{
  ℕ, suc, ◌≡◌, ◌∙◌, refl, sym, ap, inl, inr, String, Bool, Option, none, some, List, arith, nat_key,
  nat_eq_iff, subst, Option-cases, Bool-cases, nat_eq,
}
use secure_gateway.Common.Table.{get, get-put}
use secure_gateway.Backplane.{BackplaneError, slot_key}
use secure_gateway.Relay.Session.{Session, enqueue, close_with, renew}
use secure_gateway.Relay.Hub.{
  Env, Hub, set_session, close_at, enqueue_at, send_sys, send_error, send_encoded,
}

-- A session keeps its identity, and the first close that it has seen.
pub record Evolves (s s' : Session) : Type 0 where
  pub same_id : s'.id ≡ s.id
  pub same_claims : s'.claims ≡ s.claims
  pub closed_kept : (c : ℕ × String) → s.closed ≡ some c → s'.closed ≡ some c

pub Evolves-refl : (s : Session) → Evolves s s
Evolves-refl s = record { same_id = refl; same_claims = refl; closed_kept = λ c e. e }

pub Evolves-trans : {a b c : Session} → Evolves a b → Evolves b c → Evolves a c
Evolves-trans f g = record {
  same_id = g.same_id ∙ f.same_id;
  same_claims = g.same_claims ∙ f.same_claims;
  closed_kept = λ c e. g.closed_kept c (f.closed_kept c e);
}

pub close_with-Evolves :
    (code : ℕ) (reason : String) (s : Session) → Evolves s (close_with code reason s)
unfolding close_with
close_with-Evolves code reason s = record {
  same_id = ground arith;
  same_claims = ground arith;
  closed_kept = λ c e. ground arith;
}

pub enqueue-Evolves :
    (pick : Bool) (frame : List ℕ) (s : Session) → Evolves s (enqueue pick frame s).0
unfolding enqueue
enqueue-Evolves pick frame s = record {
  same_id = ground arith;
  same_claims = ground arith;
  closed_kept = λ c e. ground arith;
}

pub renew-Evolves : (answer : Option BackplaneError) (s : Session) → Evolves s (renew answer s)
unfolding renew close_with
renew-Evolves answer s = record {
  same_id = ground arith;
  same_claims = ground arith;
  closed_kept = λ c e. ground arith;
}

-- The index and the backplane are as before, every session has evolved, and only the sessions of P
-- can differ.
pub record Touches (P : ℕ → Type 0) (h h' : Hub) : Type 0 where
  pub same_local : h'.local ≡ h.local
  pub same_bp : h'.bp ≡ h.bp
  pub evolves :
      (q : ℕ) (s : Session)
      → get q h.sessions ≡ some s
      → (s' : Session) × (get q h'.sessions ≡ some s') × Evolves s s'
  pub untouched : (q : ℕ) → ¬ P q → get q h'.sessions ≡ get q h.sessions

module _ (P : ℕ → Type 0) where
  pub Touches-refl : (h : Hub) → Touches P h h
  Touches-refl h = record {
    same_local = refl;
    same_bp = refl;
    evolves = λ q s e. (s, e, Evolves-refl s);
    untouched = λ q n. refl;
  }

  pub Touches-trans : {a b c : Hub} → Touches P a b → Touches P b c → Touches P a c
  Touches-trans f g = record {
    same_local = g.same_local ∙ f.same_local;
    same_bp = g.same_bp ∙ f.same_bp;
    evolves = λ q s e.
        let (s1, e1, v1) = f.evolves q s e in
        let (s2, e2, v2) = g.evolves q s1 e1 in (s2, e2, Evolves-trans v1 v2);
    untouched = λ q n. g.untouched q n ∙ f.untouched q n;
  }

  -- A counter that moves on touches nothing.
  pub Touches-drawn : {a b : Hub} → Touches P a b → (n : ℕ) → Touches P (record a { drawn = n }) b
  Touches-drawn f n = record {
    same_local = f.same_local;
    same_bp = f.same_bp;
    evolves = f.evolves;
    untouched = f.untouched;
  }

  pub set_session-Touches :
      (p : ℕ) (s s' : Session) (n : ℕ) (h : Hub)
      → P p
      → get p h.sessions ≡ some s
      → Evolves s s'
      → Touches P h (set_session p s' (record h { drawn = n }))
  set_session-Touches p s s' n h hp there v = record {
    same_local = refl;
    same_bp = refl;
    evolves = λ q t e. elim (Bool-cases (nat_eq p q)) [
      | inl hit ↦
          let at : p ≡ q = (nat_eq_iff p q).0 hit in
          let same : s ≡ t = ground (arith, sym there ∙ ap (λ i. get i h.sessions) at ∙ e) in
          (s', ground (arith, get-put p q s' h.sessions), subst (λ x. Evolves x s') same v)
      | inr miss ↦ (t, ground (arith, get-put p q s' h.sessions), Evolves-refl t)
    ];
    untouched = λ q away. elim (Bool-cases (nat_eq p q)) [
      | inl hit ↦ absurd (away (subst P ((nat_eq_iff p q).0 hit) hp))
      | inr miss ↦ ground (arith, get-put p q s' h.sessions)
    ];
  }

  pub close_at-Touches :
      (code : ℕ) (reason : String) (p : ℕ) (h : Hub) → P p → Touches P h (close_at code reason p h)
  unfolding close_at
  close_at-Touches code reason p h hp = elim (Option-cases (get p h.sessions)) [
    | inl e ↦ rw e (Touches-refl h)
    | inr (s, e) ↦ rw e (
        set_session-Touches p s (close_with code reason s) h.drawn h hp e
          (close_with-Evolves code reason s))
  ]

  pub enqueue_at-Touches :
      (env : Env) (frame : List ℕ) (p : ℕ) (h : Hub)
      → P p
      → Touches P h (enqueue_at env frame p h).0
  unfolding enqueue_at
  enqueue_at-Touches env frame p h hp = elim (Option-cases (get p h.sessions)) [
    | inl e ↦ rw e (Touches-refl h)
    | inr (s, e) ↦ rw e (
        set_session-Touches p s (enqueue (env.pick h.drawn) frame s).0 (suc h.drawn) h hp e
          (enqueue-Evolves (env.pick h.drawn) frame s))
  ]

  send_encoded-Touches :
      (env : Env) (o : Option (List ℕ)) (p : ℕ) (h : Hub)
      → P p
      → Touches P h (send_encoded env o p h)
  send_encoded-Touches env none p h hp = record {
    same_local = refl;
    same_bp = refl;
    evolves = λ q s e. (s, e, Evolves-refl s);
    untouched = λ q n. refl;
  }
  send_encoded-Touches env (some frame) p h hp =
      let h1 : Hub = record h { drawn = suc h.drawn } in
      Touches-drawn (enqueue_at-Touches env frame p h1 hp) h.drawn

  pub send_sys-Touches :
      (env : Env) (kind detail : String) (p : ℕ) (h : Hub)
      → P p
      → Touches P h (send_sys env kind detail p h)
  unfolding send_sys
  send_sys-Touches env kind detail p h hp = send_encoded-Touches env _ p h hp

  pub send_error-Touches :
      (env : Env) (code detail : String) (p : ℕ) (h : Hub)
      → P p
      → Touches P h (send_error env code detail p h)
  unfolding send_error
  send_error-Touches env code detail p h hp = send_encoded-Touches env _ p h hp

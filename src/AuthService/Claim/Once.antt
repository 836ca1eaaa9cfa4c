-- ===== src/AuthService/Claim/Once.antt =====
-- internal/authservice/checkout.go: a credential is claimed at most once.
use secure_gateway.Common.{
  ℕ, ◌≡◌, ◌≢◌, refl, sym, ap, subst, String, arith, str_eq, eq_iff, Bool, true, false, not, ◌&&◌,
  some, string_key, Option-cases, inl, inr, if◌then◌else◌, ltb,
}
use secure_gateway.Common.Table.{get, get-put, get-put_self}
use secure_gateway.AuthStore.{
  not_found, conflict, capacity_exceeded, CheckoutClaim, claim_consumed, claim_ready,
  is_claim_consumed, is_claim_pending,
}
use secure_gateway.AuthStore.State.{Store, Outcome, ok, fail}
use secure_gateway.AuthStore.Accounts.{upsert_account}
use secure_gateway.AuthStore.Checkout.{
  create_checkout_claim, mark_checkout_claim_ready, set_checkout_claim_code, consume_checkout_claim,
}
use secure_gateway.AuthService.{Env, World, Flow, done, going, ◌>>=◌}
use secure_gateway.AuthService.Ends.{need-going, require-going, going-injective}
use secure_gateway.AuthService.Claim.{
  ClaimReq, ClaimResp, ClaimAnswer, pending, claimed, handle_claim_account, claim_of, redeem,
  consumed_or, value_of,
}

-- The stores that later calls lead to: any writes to the claims but the purge of expired ones, and any
-- writes beside the claims.
pub data Later (s : Store) : Store → Type 0 where
  now_on : Later s s
  created :
      (c : CheckoutClaim) (t u : Store) → Later s t → create_checkout_claim c t ≡ ok u → Later s u
  marked :
      (nonce account license sub session : String) (t : Store)
      → Later s t
      → Later s (mark_checkout_claim_ready nonce account license sub session t)
  coded :
      (nonce code : String) (t u : Store)
      → Later s t
      → set_checkout_claim_code nonce code t ≡ ok u
      → Later s u
  redeemed :
      (nonce : String) (at : ℕ) (c : CheckoutClaim) (t u : Store)
      → Later s t
      → consume_checkout_claim nonce at t ≡ ok (u, c)
      → Later s u
  beside : (t u : Store) → Later s t → u.checkout_claims ≡ t.checkout_claims → Later s u

-- The claim of the nonce is consumed.
abbrev IsUsed : String → Store → Type 0
IsUsed nonce s =
    (c : CheckoutClaim) × (get nonce s.checkout_claims ≡ some c) × (c.status ≡ claim_consumed)

created-IsUsed :
    (nonce : String) (c : CheckoutClaim) (t u : Store)
    → create_checkout_claim c t ≡ ok u
    → IsUsed nonce t
    → IsUsed nonce u
unfolding create_checkout_claim
created-IsUsed nonce c t u h (x, there, spent) =
    (x, ground (arith, eq_iff c.nonce nonce, get-put c.nonce nonce c t.checkout_claims), spent)

marked-IsUsed :
    (nonce at account license sub session : String) (t : Store)
    → IsUsed nonce t
    → IsUsed nonce (mark_checkout_claim_ready at account license sub session t)
unfolding mark_checkout_claim_ready
marked-IsUsed nonce at account license sub session t (x, there, spent) =
    elim (Option-cases (get at t.checkout_claims)) [
      | inl e ↦ (x, ground (arith, e), spent)
      | inr (c, e) ↦
          let d = record c {
            account_id = account;
            license_id = license;
            subscription_id = sub;
            stripe_session_id = if str_eq session "" then c.stripe_session_id else session;
            status = claim_ready;
          } in
          (x, ground (arith, eq_iff at nonce, get-put at nonce d t.checkout_claims), spent)
    ]

coded-IsUsed :
    (nonce at code : String) (t u : Store)
    → set_checkout_claim_code at code t ≡ ok u
    → IsUsed nonce t
    → IsUsed nonce u
unfolding set_checkout_claim_code
coded-IsUsed nonce at code t u h (x, there, spent) =
    elim (Option-cases (get at t.checkout_claims)) [
      | inl e ↦ absurd (ground arith)
      | inr (c, e) ↦
          let d = record c { claim_code_hash = code } in
          (x, ground (arith, eq_iff at nonce, get-put at nonce d t.checkout_claims), spent)
    ]

consumption-IsUsed :
    (nonce at : String) (instant : ℕ) (c : CheckoutClaim) (t u : Store)
    → consume_checkout_claim at instant t ≡ ok (u, c)
    → IsUsed nonce t
    → IsUsed nonce u
unfolding consume_checkout_claim
consumption-IsUsed nonce at instant c t u h (x, there, spent) =
    elim (Option-cases (get at t.checkout_claims)) [
      | inl e ↦ absurd (ground arith)
      | inr (old, e) ↦
          let d = record old { status = claim_consumed; consumed_at = instant } in
          (x, ground (arith, eq_iff at nonce, get-put at nonce d t.checkout_claims), spent)
    ]

Later-IsUsed :
    (nonce : String) (s : Store) {t : Store} → Later s t → IsUsed nonce s → IsUsed nonce t
Later-IsUsed nonce s now_on h = h
Later-IsUsed nonce s (created c t u l e) h = created-IsUsed nonce c t u e (Later-IsUsed nonce s l h)
Later-IsUsed nonce s (marked n a li sub se t l) h =
    marked-IsUsed nonce n a li sub se t (Later-IsUsed nonce s l h)
Later-IsUsed nonce s (coded n code t u l e) h =
    coded-IsUsed nonce n code t u e (Later-IsUsed nonce s l h)
Later-IsUsed nonce s (redeemed n at c t u l e) h =
    consumption-IsUsed nonce n at c t u e (Later-IsUsed nonce s l h)
Later-IsUsed nonce s (beside t u l e) h =
    let (x, there, spent) = Later-IsUsed nonce s l h in (x, rw e there, spent)

consumed_or-going {ℓ} :
    {A : Type ℓ} {B : Type ℓ} (w : World) (o : Outcome A) (f : A → Flow B) {b : B}
    → (consumed_or w o >>= f) ≡ going b
    → (a : A) × (o ≡ ok a) × (f a ≡ going b)
consumed_or-going w (ok a) f h = (a, refl, h)
consumed_or-going w (fail conflict) f h = cc
consumed_or-going w (fail not_found) f h = cc
consumed_or-going w (fail capacity_exceeded) f h = cc

consume-IsUsed :
    (nonce : String) (now : ℕ) (s t : Store) (c : CheckoutClaim)
    → consume_checkout_claim nonce now s ≡ ok (t, c)
    → (c.status ≡ claim_consumed) × (get nonce t.checkout_claims ≡ some c)
unfolding consume_checkout_claim
consume-IsUsed nonce now s t c h = elim (Option-cases (get nonce s.checkout_claims)) [
  | inl e ↦ absurd (ground arith)
  | inr (old, e) ↦
      let d = record old { status = claim_consumed; consumed_at = now } in
      ground (arith, get-put_self nonce d s.checkout_claims)
]

-- A redeemed claim was ready, and is consumed.
redeem-IsUsed :
    (env : Env) (now : ℕ) (nonce : String) (w : World) (r : World × ClaimAnswer)
    → redeem env now nonce w ≡ going r
    → IsUsed nonce r.0.store
unfolding redeem upsert_account
redeem-IsUsed env now nonce w r h =
    let ((s, c), e, h1) = consumed_or-going w (consume_checkout_claim nonce now w.store) _ h in
    let (spent, there) = consume-IsUsed nonce now w.store s c e in
    let kept : r.0.store.checkout_claims ≡ s.checkout_claims =
      sym (ap (λ q. q.0.store.checkout_claims) (going-injective h1)) in
    (c, subst (λ m. get nonce m ≡ some c) (sym kept) there, spent)

-- The claim that a redeemed request is about.
pub record Redeemable (env : Env) (now : ℕ) (req : ClaimReq) (s : Store) : Type 0 where
  pub claim : CheckoutClaim
  pub there : claim_of env req s ≡ ok claim
  pub unused : is_claim_consumed claim.status ≡ false
  pub unexpired : ltb claim.expires_at now ≡ false

value_of-some {ℓ} : {A : Type ℓ} (o : Outcome A) (a : A) → value_of o ≡ some a → o ≡ ok a
value_of-some (ok b) a h = cc
value_of-some (fail e) a h = cc

if_claimed :
    (b : Bool) (w w' : World) (resp : ClaimResp) (m : Flow (World × ClaimAnswer))
    → (if b then going (w, pending) else m) ≡ going (w', claimed resp)
    → m ≡ going (w', claimed resp)
if_claimed true w w' resp m h = ground arith
if_claimed false w w' resp m h = h

claim_steps :
    (env : Env) (now : ℕ) (req : ClaimReq) (w w' : World) (resp : ClaimResp)
    → handle_claim_account env now (some req) w ≡ going (w', claimed resp)
    → (t : Redeemable env now req w.store) × (redeem env now t.claim.nonce w
        ≡ going (w', claimed resp))
unfolding handle_claim_account
claim_steps env now req w w' resp h =
    let (formed, h1) =
      require-going w (not (str_eq req.claim_code "" && str_eq req.nonce "")) 400 "bad_request" _
        h in
    let (c, there, h2) =
      need-going w (value_of (claim_of env req w.store)) 404 "claim_not_found" _ h1 in
    let (unused, h3) =
      require-going w (not (is_claim_consumed c.status)) 409 "claim_consumed" _ h2 in
    let (unexpired, h4) = require-going w (not (ltb c.expires_at now)) 410 "claim_expired" _ h3 in
    (
      record {
        claim = c;
        there = value_of-some (claim_of env req w.store) c there;
        unused = ground arith;
        unexpired = ground arith;
      },
      if_claimed (is_claim_pending c.status) w w' resp (redeem env now c.nonce w) h4,
    )

-- A claim with a nonce that is used is refused.
used-refused :
    (env : Env) (now : ℕ) (nonce : String) (w : World)
    → nonce ≢ ""
    → IsUsed nonce w.store
    → handle_claim_account env now (some (record { claim_code = ""; nonce = nonce })) w
      ≡ done w 409 "claim_consumed"
unfolding handle_claim_account claim_of
used-refused env now nonce w named (c, there, spent) =
    let given : str_eq nonce "" ≡ false = ground (arith, eq_iff nonce "", named) in
    rw (given, there, spent) refl

-- A credential is given out only for a claim that the request names, by its code or by its nonce, that
-- is neither consumed nor expired; and whatever is written afterwards, other than a purge of expired
-- claims, a request with the nonce of that claim is refused with 409 claim_consumed and changes
-- nothing. It is supposed that the nonce of the claim is not empty, as a checkout's start has checked.
pub claim_once :
    (env : Env) (now later : ℕ) (req : ClaimReq) (w w' v : World) (resp : ClaimResp)
    → ((c : CheckoutClaim) → claim_of env req w.store ≡ ok c → c.nonce ≢ "")
    → handle_claim_account env now (some req) w ≡ going (w', claimed resp)
    → Later w'.store v.store
    → (t : Redeemable env now req w.store) × (handle_claim_account env later
          (some (record { claim_code = ""; nonce = t.claim.nonce }))
          v
        ≡ done v 409 "claim_consumed")
claim_once env now later req w w' v resp named h l =
    let (t, paid) = claim_steps env now req w w' resp h in
    (
      t,
      used-refused env later t.claim.nonce v (named t.claim t.there) (
          Later-IsUsed t.claim.nonce w'.store l
            (redeem-IsUsed env now t.claim.nonce w (w', claimed resp) paid)),
    )

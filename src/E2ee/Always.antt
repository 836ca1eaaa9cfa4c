-- ===== src/E2ee/Always.antt =====
-- internal/e2ee/e2ee.go: what holds of every session that NewSession returns.
use secure_gateway.Common.{
  ◌≡◌, refl, sym, subst, ◌∙◌, String, str_eq, Bool, ◌||◌, not, ◌++◌, some, Option, arith, inl, inr,
  Bool-cases, none,
}
use secure_gateway.Token.{role_mobile, role_desktop}
use secure_gateway.E2ee.Session.{
  Bytes, Crypto, Session, Result, ok, fail, Error, ◌>>=◌, or_fail, public_from_private,
  derive_session, new_session, session_of, ecdh_ss, ecdh_ee, cross_secrets, salt_for, derive_key,
  dir_m2d, dir_d2m, hkdf_failed,
}

abbrev pub IfOk {ℓ κ} : {A : Type ℓ} → (A → Type κ) → Result A → Type κ
IfOk P (ok a) = P a
IfOk P (fail e) = Unit

-- What holds of every value that a result can have; a record, so that the result can be read off a
-- goal.
record Always {ℓ κ} {A : Type ℓ} (P : A → Type κ) (m : Result A) : Type κ where
  always : IfOk P m

module _ {ℓ λ' κ} {A : Type ℓ} {B : Type λ'} (P : B → Type κ) where
  Always-bind :
      (m : Result A) (f : A → Result B) → ((a : A) → m ≡ ok a → Always P (f a)) → Always P (m >>= f)
  Always-bind (ok a) f h = h a refl
  Always-bind (fail e) f h = record { always = tt }

or_fail-ok {ℓ} : {A : Type ℓ} (o : Option A) (e : Error) (a : A) → or_fail o e ≡ ok a → o ≡ some a
or_fail-ok none e a h = cc
or_fail-ok (some b) e a h = cc

-- A key that HKDF yields.
abbrev pub IsDerived : Crypto → Bytes → Type 0
IsDerived c key =
    (ikm : Bytes) × (salt : Bytes) × (info : Bytes) × (c.hkdf ikm salt info ≡ some key)

module _ {κ} (P : Session → Type κ) (c : Crypto)
    (id_priv peer_id_pub eph_priv peer_eph_pub : Bytes) where
  derive_session-Always :
      (is_mobile : Bool)
      → ((k l : Bytes) → IsDerived c k → IsDerived c l → P (session_of is_mobile k l))
      → Always P (derive_session c is_mobile id_priv peer_id_pub eph_priv peer_eph_pub)
  unfolding derive_session
  derive_session-Always is_mobile h = Always-bind P (public_from_private c eph_priv) _ (λ mine _.
      Always-bind P (or_fail (c.x25519 id_priv peer_id_pub) ecdh_ss) _ (λ ss _.
        Always-bind P (or_fail (c.x25519 eph_priv peer_eph_pub) ecdh_ee) _ (λ ee _.
          Always-bind P (cross_secrets c is_mobile id_priv peer_id_pub eph_priv peer_eph_pub) _
            (λ cross _.
              let salt = salt_for is_mobile mine peer_eph_pub in
              let ikm = ss ++ ee ++ cross.0 ++ cross.1 in
              Always-bind P (derive_key c ikm salt dir_m2d) _ (λ k hk.
                Always-bind P (derive_key c ikm salt dir_d2m) _ (λ l hl. record {
                  always =
                      h k l (ikm, salt, _, or_fail-ok _ hkdf_failed k hk)
                        (ikm, salt, _, or_fail-ok _ hkdf_failed l hl);
                }))))))

  -- What holds of every pair of derived keys holds of a new session.
  pub new_session-holds :
      (my_role : String) (s : Session)
      → ((is_mobile : Bool) (k l : Bytes)
          → IsDerived c k
          → IsDerived c l
          → P (session_of is_mobile k l))
      → new_session c id_priv peer_id_pub eph_priv peer_eph_pub my_role ≡ ok s
      → P s
  unfolding new_session
  new_session-holds my_role s h new =
      elim (Bool-cases (not (str_eq my_role role_mobile || str_eq my_role role_desktop))) [
        | inl bad ↦ ground (arith, bad)
        | inr valid ↦
            subst (IfOk P) (sym (rw valid refl) ∙ new)
              (derive_session-Always (str_eq my_role role_mobile)
                (h (str_eq my_role role_mobile))).always
      ]

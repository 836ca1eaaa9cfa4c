-- ===== src/E2ee/Agreement.antt =====
-- internal/e2ee/e2ee.go: the two sides of a session agree on their keys, and read each other.
use secure_gateway.Common.{
  ℕ, ◌≡◌, refl, sym, ap, String, Bool, true, false, not, some, [], ◌∷◌, ◌++◌, length, take, arith,
  ◌⊎◌, inl, inr, subst, ◌∙◌, zero, suc, eq_iff, length-append,
}
use secure_gateway.Token.{role_mobile, role_desktop, opposite}
use secure_gateway.Common.Words.{Int64}
use secure_gateway.E2ee.Session.{
  Bytes, Crypto, Aead, KeyPair, Session, new_session, derive_session, public_from_private, seal,
  seal_with, decipher, drop, aad, Result, ok, fail,
}
use secure_gateway.E2ee.Always.{new_session-holds}

-- A key pair as GenerateKeyPair makes them.
abbrev pub IsKeyPair : Crypto → KeyPair → Type 0
IsKeyPair c k = c.x25519 k.private c.basepoint ≡ some k.public

-- What the libraries document.
pub record Laws (c : Crypto) : Type 0 where
  -- Both sides of a Diffie-Hellman exchange get the same secret.
  pub commute :
      (a b : KeyPair)
      → IsKeyPair c a
      → IsKeyPair c b
      → c.x25519 a.private b.public ≡ c.x25519 b.private a.public
  -- Keys are 32 bytes, and such a key makes an AEAD with 24-byte nonces that reads what it sealed.
  pub hkdf-length : (ikm salt info key : Bytes) → c.hkdf ikm salt info ≡ some key → length key ≡ 32
  pub new_aead-reads :
      (key : Bytes)
      → length key ≡ 32
      → (a : Aead) × (c.new_aead key ≡ some a)
        × (a.nonce_size ≡ 24)
        × ((nonce text ad : Bytes)
            → length nonce ≡ 24
            → a.decrypt nonce (a.seal nonce text ad) ad ≡ some text)

-- The session of the other side: the two keys change places.
abbrev pub mirror : Session → Session
mirror s = record { send_key = s.recv_key; recv_key = s.send_key; recv = s.recv }

abbrev mirrored : Result Session → Result Session
mirrored (ok s) = ok (mirror s)
mirrored (fail e) = fail e

module _ (c : Crypto) (laws : Laws c) where
  derive_session-mirror :
      (is_mobile : Bool) (my_id my_eph peer_id peer_eph : KeyPair)
      → IsKeyPair c my_id
      → IsKeyPair c my_eph
      → IsKeyPair c peer_id
      → IsKeyPair c peer_eph
      → derive_session c (not is_mobile) peer_id.private my_id.public peer_eph.private my_eph.public
        ≡ mirrored
            (derive_session c is_mobile my_id.private peer_id.public my_eph.private peer_eph.public)
  unfolding derive_session public_from_private
  derive_session-mirror true mi me pi pe hmi hme hpi hpe =
      rw
        (
          hme,
          hpe,
          laws.commute pi mi hpi hmi,
          laws.commute pe me hpe hme,
          laws.commute pi me hpi hme,
          laws.commute pe mi hpe hmi,
        )
        (ground arith)
  derive_session-mirror false mi me pi pe hmi hme hpi hpe =
      rw
        (
          hme,
          hpe,
          laws.commute pi mi hpi hmi,
          laws.commute pe me hpe hme,
          laws.commute pi me hpi hme,
          laws.commute pe mi hpe hmi,
        )
        (ground arith)

pub length-send_key :
    (c : Crypto) (laws : Laws c) (id_priv peer_id_pub eph_priv peer_eph_pub : Bytes)
    (my_role : String) (s : Session)
    → new_session c id_priv peer_id_pub eph_priv peer_eph_pub my_role ≡ ok s
    → length s.send_key ≡ 32
length-send_key c laws id_priv peer_id_pub eph_priv peer_eph_pub my_role s =
    new_session-holds (λ t. length t.send_key ≡ 32) c id_priv peer_id_pub eph_priv peer_eph_pub
      my_role s
      (λ is_mobile k l (i, t, f, hk) (j, u, g, hl).
        ground (arith, laws.hkdf-length i t f k hk, laws.hkdf-length j u g l hl))

take-append : (n : ℕ) (xs ys : Bytes) → length xs ≡ n → take n (xs ++ ys) ≡ xs
take-append zero [] ys h = refl
take-append zero (x ∷ xs) ys h = ground arith
take-append (suc n) [] ys h = ground arith
take-append (suc n) (x ∷ xs) ys h = ap (λ t. x ∷ t) (take-append n xs ys (omega (arith, h)))

drop-append : (n : ℕ) (xs ys : Bytes) → length xs ≡ n → drop n (xs ++ ys) ≡ ys
drop-append zero [] ys h = refl
drop-append zero (x ∷ xs) ys h = ground arith
drop-append (suc n) [] ys h = ground arith
drop-append (suc n) (x ∷ xs) ys h = drop-append n xs ys (omega (arith, h))

-- The wire that a session seals is deciphered with the same key.
pub decipher-seal :
    (c : Crypto) (laws : Laws c) (s : Session) (nonce : Bytes) (id : String) (ts : Int64)
    (plaintext : Bytes)
    → length s.send_key ≡ 32
    → length nonce ≡ 24
    → (wire : Bytes) × (seal c s (some nonce) id ts plaintext ≡ ok wire)
      × (decipher c s.send_key id ts wire ≡ ok plaintext)
unfolding seal seal_with decipher
decipher-seal c laws s nonce id ts plaintext h k =
    let (a, made, size, reads) = laws.new_aead-reads s.send_key h in
    let sealed = a.seal nonce plaintext (aad c id ts) in
    (
      nonce ++ sealed,
      rw (made, size, k) refl,
      rw
          (
            made,
            size,
            take-append 24 nonce sealed k,
            drop-append 24 nonce sealed k,
            reads nonce plaintext (aad c id ts) k,
          )
          (ground (arith, length-append nonce sealed)),
    )

-- A session has one of the two roles.
role-cases :
    (c : Crypto) (id_priv peer_id_pub eph_priv peer_eph_pub : Bytes) (role : String) (s : Session)
    → new_session c id_priv peer_id_pub eph_priv peer_eph_pub role ≡ ok s
    → (role ≡ role_mobile) ⊎ (role ≡ role_desktop)
unfolding new_session
role-cases c id_priv peer_id_pub eph_priv peer_eph_pub role s h =
    ground (arith, eq_iff role role_mobile, eq_iff role role_desktop)

module _ (c : Crypto) (laws : Laws c) (mi me pi pe : KeyPair) (hmi : IsKeyPair c mi)
    (hme : IsKeyPair c me) (hpi : IsKeyPair c pi) (hpe : IsKeyPair c pe) where
  -- The other side of a session that exists has its mirror image.
  pub new_session-opposite :
      (role : String) (s : Session)
      → new_session c mi.private pi.public me.private pe.public role ≡ ok s
      → new_session c pi.private mi.public pe.private me.public (opposite role) ≡ ok (mirror s)
  unfolding new_session
  new_session-opposite role s h =
      let Mirrors : String → Type 0 = λ r.
        new_session c mi.private pi.public me.private pe.public r ≡ ok s
        → new_session c pi.private mi.public pe.private me.public (opposite r) ≡ ok (mirror s) in
      elim (role-cases c mi.private pi.public me.private pe.public role s h) [
        | inl mobile ↦
            subst Mirrors (sym mobile)
              (λ new.
                derive_session-mirror c laws true mi me pi pe hmi hme hpi hpe ∙ ap mirrored new)
              h
        | inr desktop ↦
            subst Mirrors (sym desktop)
              (λ new.
                derive_session-mirror c laws false mi me pi pe hmi hme hpi hpe ∙ ap mirrored new)
              h
      ]

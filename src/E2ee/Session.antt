-- ===== src/E2ee/Session.antt =====
-- internal/e2ee/e2ee.go: key pairs, the keys of a session, and its messages.
use secure_gateway.Common.{
  ℕ, zero, suc, ◌/◌, ◌%◌, String, str_eq, Bool, true, false, ◌||◌, not, Option, none, some, List,
  [], ◌∷◌, ◌++◌, nat_eq, ltb, length, take, if◌then◌else◌,
}
use secure_gateway.Token.{role_mobile, role_desktop}
use secure_gateway.Common.Words.{Int64, as_uint64}
use secure_gateway.E2ee.Guard.{
  default_replay_window_millis, ReplayGuard, new_replay_guard, Refusal, check,
}

abbrev pub Bytes : Type 0
Bytes = List ℕ

-- What chacha20poly1305.NewX gives for a key. `seal` and `decrypt` take the nonce, the text and the
-- associated data.
pub record Aead : Type 0 where
  pub nonce_size : ℕ
  pub seal : Bytes → Bytes → Bytes → Bytes
  pub decrypt : Bytes → Bytes → Bytes → Option Bytes

-- The libraries. `none` is an error.
pub record Crypto : Type 0 where
  -- curve25519.X25519 of a private key and a point, and its base point.
  pub x25519 : Bytes → Bytes → Option Bytes
  pub basepoint : Bytes
  -- The first 32 bytes that HKDF-SHA256 yields for a secret, a salt and an info.
  pub hkdf : Bytes → Bytes → Bytes → Option Bytes
  pub new_aead : Bytes → Option Aead
  -- The bytes of a Go string.
  pub utf8 : String → Bytes

pub data Error : Type 0 where
  read_random derive_public_key invalid_role ecdh_ss ecdh_ee ecdh_cross hkdf_failed : Error
  aead_failed wrong_nonce_size too_short open_failed : Error
  refused : Refusal → Error

-- A Go result and its error.
pub data Result {ℓ} (A : Type ℓ) : Type ℓ where
  ok : A → Result A
  fail : Error → Result A

infixl 3 ◌>>=◌
abbrev pub ◌>>=◌ {ℓ κ} : {A : Type ℓ} {B : Type κ} → Result A → (A → Result B) → Result B
ok a >>= f = f a
fail e >>= f = fail e

-- `if err != nil { return err }`.
abbrev pub or_fail {ℓ} : {A : Type ℓ} → Option A → Error → Result A
or_fail none e = fail e
or_fail (some a) e = ok a

pub record KeyPair : Type 0 where
  pub private : Bytes
  pub public : Bytes

unfoldable pub public_from_private : Crypto → Bytes → Result Bytes
public_from_private c priv = or_fail (c.x25519 priv c.basepoint) derive_public_key

-- The first argument after the libraries is what the random source gives.
unfoldable pub generate_key_pair : Crypto → Option Bytes → Result KeyPair
generate_key_pair c drawn = do
  priv ← or_fail drawn read_random
  public ← public_from_private c priv
  ok (record { private = priv; public = public })

pub record Session : Type 0 where
  pub send_key : Bytes
  pub recv_key : Bytes
  pub recv : ReplayGuard

abbrev pub info_prefix : String
info_prefix = "secure-gateway/e2ee/v2|"

abbrev pub dir_m2d : String
dir_m2d = "m2d"

abbrev pub dir_d2m : String
dir_d2m = "d2m"

abbrev pub derive_key : Crypto → Bytes → Bytes → String → Result Bytes
derive_key c ikm salt dir = or_fail (c.hkdf ikm salt (c.utf8 info_prefix ++ c.utf8 dir)) hkdf_failed

-- md and dm: the identity of one side with the ephemeral key of the other.
abbrev pub cross_secrets : Crypto → Bool → Bytes → Bytes → Bytes → Bytes → Result (Bytes × Bytes)
cross_secrets c true id_priv peer_id_pub eph_priv peer_eph_pub = do
  md ← or_fail (c.x25519 id_priv peer_eph_pub) ecdh_cross
  dm ← or_fail (c.x25519 eph_priv peer_id_pub) ecdh_cross
  ok (md, dm)
cross_secrets c false id_priv peer_id_pub eph_priv peer_eph_pub = do
  md ← or_fail (c.x25519 eph_priv peer_id_pub) ecdh_cross
  dm ← or_fail (c.x25519 id_priv peer_eph_pub) ecdh_cross
  ok (md, dm)

-- The salt has the mobile's ephemeral key first.
abbrev pub salt_for : Bool → Bytes → Bytes → Bytes
salt_for is_mobile mine theirs = if is_mobile then mine ++ theirs else theirs ++ mine

-- The two keys, in the places of the role.
abbrev pub session_of : Bool → Bytes → Bytes → Session
session_of is_mobile key_m2d key_d2m = record {
  send_key = if is_mobile then key_m2d else key_d2m;
  recv_key = if is_mobile then key_d2m else key_m2d;
  recv = new_replay_guard default_replay_window_millis;
}

-- The keys from the secrets: the part of NewSession after the role check.
unfoldable pub derive_session : Crypto → Bool → Bytes → Bytes → Bytes → Bytes → Result Session
derive_session c is_mobile id_priv peer_id_pub eph_priv peer_eph_pub = do
  my_eph_pub ← public_from_private c eph_priv
  ss ← or_fail (c.x25519 id_priv peer_id_pub) ecdh_ss
  ee ← or_fail (c.x25519 eph_priv peer_eph_pub) ecdh_ee
  cross ← cross_secrets c is_mobile id_priv peer_id_pub eph_priv peer_eph_pub
  let ikm = ss ++ ee ++ cross.0 ++ cross.1
  let salt = salt_for is_mobile my_eph_pub peer_eph_pub
  key_m2d ← derive_key c ikm salt dir_m2d
  key_d2m ← derive_key c ikm salt dir_d2m
  ok (session_of is_mobile key_m2d key_d2m)

unfoldable pub new_session : Crypto → Bytes → Bytes → Bytes → Bytes → String → Result Session
new_session c id_priv peer_id_pub eph_priv peer_eph_pub my_role =
    if not (str_eq my_role role_mobile || str_eq my_role role_desktop)
    then fail invalid_role
    else derive_session c (str_eq my_role role_mobile) id_priv peer_id_pub eph_priv peer_eph_pub

-- binary.BigEndian.PutUint64.
abbrev pub put_uint64 : ℕ → Bytes
put_uint64 n =
    n / 72057594037927936 % 256
    ∷ n / 281474976710656 % 256
    ∷ n / 1099511627776 % 256
    ∷ n / 4294967296 % 256
    ∷ n / 16777216 % 256
    ∷ n / 65536 % 256
    ∷ n / 256 % 256
    ∷ n % 256
    ∷ []

unfoldable pub aad : Crypto → String → Int64 → Bytes
aad c id ts = c.utf8 id ++ put_uint64 (as_uint64 ts)

unfoldable pub seal_with : Crypto → Session → Bytes → String → Int64 → Bytes → Result Bytes
seal_with c s nonce id ts plaintext = do
  aead ← or_fail (c.new_aead s.send_key) aead_failed
  if not (nat_eq (length nonce) aead.nonce_size)
      then fail wrong_nonce_size
      else ok (nonce ++ aead.seal nonce plaintext (aad c id ts))

unfoldable pub seal : Crypto → Session → Option Bytes → String → Int64 → Bytes → Result Bytes
seal c s drawn id ts plaintext = do
  nonce ← or_fail drawn read_random
  seal_with c s nonce id ts plaintext

-- `wire[n:]`.
abbrev pub drop : ℕ → Bytes → Bytes
drop zero xs = xs
drop (suc n) [] = []
drop (suc n) (x ∷ xs) = drop n xs

-- The part of Open that reads the wire.
unfoldable pub decipher : Crypto → Bytes → String → Int64 → Bytes → Result Bytes
decipher c key id ts wire = do
  aead ← or_fail (c.new_aead key) aead_failed
  if ltb (length wire) aead.nonce_size
      then fail too_short
      else or_fail
          (aead.decrypt (take aead.nonce_size wire) (drop aead.nonce_size wire) (aad c id ts))
          open_failed

abbrev pub guarded : Session → Bytes → ReplayGuard × Option Refusal → Session × Result Bytes
guarded s plaintext (g, none) = (record s { recv = g }, ok plaintext)
guarded s plaintext (g, some r) = (record s { recv = g }, fail (refused r))

abbrev pub deliver : Session → String → Int64 → Result Bytes → Session × Result Bytes
deliver s id ts (ok plaintext) = guarded s plaintext (check s.recv id ts)
deliver s id ts (fail e) = (s, fail e)

-- The session after the call, and its result: Open of a session (`open` is a keyword).
unfoldable pub open_wire : Crypto → Session → String → Int64 → Bytes → Session × Result Bytes
open_wire c s id ts wire = deliver s id ts (decipher c s.recv_key id ts wire)

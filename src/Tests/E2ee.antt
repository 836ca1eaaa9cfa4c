-- ===== src/Tests/E2ee.antt =====
-- Concrete runs of internal/e2ee/e2ee.go, with toy libraries that keep the laws.
use secure_gateway.Common.{
  ℕ, zero, suc, ◌+◌, ◌≡◌, ◌<◌, refl, String, str_eq, Bool, true, false, Option, none, some, List,
  [], ◌∷◌, ◌++◌, nat_eq, nat_eq_iff, length, arith, if◌then◌else◌, string_key,
}
use secure_gateway.Common.Table.{get}
use secure_gateway.Token.{role_mobile, role_desktop}
use secure_gateway.Common.Words.{two_63}
use secure_gateway.E2ee.Guard.{
  is_stale, stale, admit, new_replay_guard, default_replay_window_millis,
}
use secure_gateway.E2ee.Session.{
  Bytes, Crypto, Aead, KeyPair, Session, Result, ok, fail, Error, new_session, seal, open_wire,
  open_failed, refused,
}
use secure_gateway.E2ee.Agreement.{Laws, mirror}
use secure_gateway.E2ee.Delivery.{Arrival, open_all, open_once}
use secure_gateway.E2ee.RoundTrip.{open-seal}

abbrev sum : Bytes → ℕ
sum [] = 0
sum (x ∷ xs) = x + sum xs

abbrev zeros : ℕ → Bytes
zeros zero = []
zeros (suc n) = 0 ∷ zeros n

abbrev toy_decrypt : Bytes → Bytes → Option Bytes
toy_decrypt [] ad = none
toy_decrypt (t ∷ text) ad = if nat_eq t (sum ad) then some text else none

-- The sum of the associated data is the tag.
abbrev toy_aead : Aead
toy_aead = record {
  nonce_size = 24;
  seal = λ nonce text ad. sum ad ∷ text;
  decrypt = λ nonce text ad. toy_decrypt text ad;
}

abbrev toy : Crypto
toy = record {
  x25519 = λ a p. some ((sum a + sum p) ∷ []);
  basepoint = [];
  hkdf = λ ikm salt info. some ((sum ikm + sum salt + sum info) ∷ zeros 31);
  new_aead = λ key. if nat_eq (length key) 32 then some toy_aead else none;
  utf8 = λ s. if str_eq s "m2d" then 1 ∷ [] else 2 ∷ 3 ∷ [];
}

toy-Laws : Laws toy
toy-Laws = record {
  commute = λ a b ha hb. ground arith;
  hkdf-length = λ ikm salt info key h. ground arith;
  new_aead-reads = λ key h. (
    toy_aead,
    ground (arith, nat_eq_iff (length key) 32),
    refl,
    λ n t ad k. ground (arith, nat_eq_iff (sum ad) (sum ad)),
  );
}

abbrev key_pair : ℕ → KeyPair
key_pair n = record { private = n ∷ []; public = n ∷ [] }

abbrev phone : Session
phone = record {
  send_key = 102 ∷ zeros 31;
  recv_key = 106 ∷ zeros 31;
  recv = new_replay_guard default_replay_window_millis;
}

phone_new : new_session toy (5 ∷ []) (7 ∷ []) (11 ∷ []) (13 ∷ []) role_mobile ≡ ok phone
unfolding new_session secure_gateway.E2ee.Session.derive_session
    secure_gateway.E2ee.Session.public_from_private
phone_new = refl

-- What the phone sends first, 0.5 s after the origin.
abbrev first_wire : Bytes
first_wire = zeros 24 ++ (250 ∷ 9 ∷ [])

abbrev first_arrival : Arrival
first_arrival = ("m0", two_63 + 500, first_wire)

first_opened :
    open_wire toy (mirror phone) "m0" (two_63 + 500) first_wire
    ≡ (record (mirror phone) { recv = admit (mirror phone).recv "m0" (two_63 + 500) }, ok (9 ∷ []))
unfolding open_wire secure_gateway.E2ee.Session.decipher secure_gateway.E2ee.Session.aad
    secure_gateway.E2ee.Guard.check get
first_opened = refl

-- An old timestamp is stale, and a changed tag is refused.
first_tampered : (open_wire toy (mirror phone) "m0" (two_63 + 501) first_wire).1 ≡ fail open_failed
unfolding open_wire secure_gateway.E2ee.Session.decipher secure_gateway.E2ee.Session.aad
first_tampered = refl

first_fresh :
    is_stale (open_all toy (mirror phone) (first_arrival ∷ [])).recv (two_63 + 1000) ≡ false
unfolding open_all open_wire secure_gateway.E2ee.Session.decipher secure_gateway.E2ee.Session.aad
    secure_gateway.E2ee.Guard.check get admit
first_fresh = refl

first_unseen : get "m1" (open_all toy (mirror phone) (first_arrival ∷ [])).recv.seen ≡ none
unfolding open_all open_wire get secure_gateway.E2ee.Session.decipher
    secure_gateway.E2ee.Session.aad secure_gateway.E2ee.Guard.check admit
    secure_gateway.Common.Table.discard secure_gateway.Common.Table.put
first_unseen = refl

abbrev late_wire : Bytes
late_wire = zeros 24 ++ (165 ∷ 4 ∷ [])

-- After more than five minutes the first id is pruned, and its envelope is stale.
first_stale :
    (open_wire toy
      (open_all toy (mirror phone) (first_arrival ∷ ("m2", two_63 + 400000, late_wire) ∷ []))
      "m0"
      (two_63 + 500)
      first_wire).1
    ≡ fail (refused stale)
unfolding open_all open_wire secure_gateway.E2ee.Session.decipher secure_gateway.E2ee.Session.aad
    secure_gateway.E2ee.Guard.check get admit secure_gateway.Common.Table.discard
    secure_gateway.Common.Table.put
first_stale = refl

open-seal_example :
    (new_session toy (7 ∷ []) (5 ∷ []) (13 ∷ []) (11 ∷ []) role_desktop ≡ ok (mirror phone))
    × ((wire : Bytes) × (seal toy phone (some (zeros 24)) "m1" (two_63 + 1000) (1 ∷ 2 ∷ [])
          ≡ ok wire)
        × (open_wire toy
              (open_all toy (mirror phone) (first_arrival ∷ []))
              "m1"
              (two_63 + 1000)
              wire
            ≡ (
              record (open_all toy (mirror phone) (first_arrival ∷ [])) {
                recv =
                    admit
                      (open_all toy (mirror phone) (first_arrival ∷ [])).recv
                      "m1"
                      (two_63 + 1000);
              },
              ok (1 ∷ 2 ∷ []),
            )))
open-seal_example =
    open-seal toy toy-Laws (key_pair 5) (key_pair 11) (key_pair 7) (key_pair 13) refl refl refl refl
      role_mobile phone (first_arrival ∷ []) (zeros 24) "m1" (two_63 + 1000) (1 ∷ 2 ∷ []) phone_new
      refl first_fresh first_unseen

-- The desktop once it has opened the first wire.
abbrev desktop : Session
desktop = record (mirror phone) { recv = admit (mirror phone).recv "m0" (two_63 + 500) }

open_once_example :
    (e : Error) × ((open_wire toy
        (open_all toy desktop (("m2", two_63 + 400000, late_wire) ∷ []))
        "m0"
        (two_63 + 500)
        first_wire).1
      ≡ fail e)
unfolding open_all
open_once_example =
    open_once toy (7 ∷ []) (5 ∷ []) (13 ∷ []) (11 ∷ []) role_desktop (mirror phone) desktop []
      (("m2", two_63 + 400000, late_wire) ∷ []) "m0" (two_63 + 500) first_wire first_wire (9 ∷ [])
      open-seal_example.0 tt (omega arith) first_opened (omega arith, tt)

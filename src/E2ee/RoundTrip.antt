-- ===== src/E2ee/RoundTrip.antt =====
-- internal/e2ee/e2ee.go: what one side seals, the other opens.
use secure_gateway.Common.{
  ◌≡◌, refl, ◌∙◌, String, false, none, some, List, [], ◌∷◌, length, string_key,
}
use secure_gateway.Common.Table.{get}
use secure_gateway.Token.{opposite}
use secure_gateway.Common.Words.{Int64}
use secure_gateway.E2ee.Guard.{is_stale, admit, check}
use secure_gateway.E2ee.Session.{
  Bytes, Crypto, KeyPair, Session, Result, ok, fail, new_session, seal, open_wire, deliver,
  decipher, guarded,
}
use secure_gateway.E2ee.Agreement.{
  IsKeyPair, Laws, mirror, length-send_key, decipher-seal, new_session-opposite,
}
use secure_gateway.E2ee.Delivery.{Arrival, open_all}

guarded-recv_key : (s : Session) (p : Bytes) (g : _) → (guarded s p g).0.recv_key ≡ s.recv_key
guarded-recv_key s p (g, none) = refl
guarded-recv_key s p (g, some r) = refl

deliver-recv_key :
    (s : Session) (id : String) (ts : Int64) (r : Result Bytes)
    → (deliver s id ts r).0.recv_key ≡ s.recv_key
deliver-recv_key s id ts (ok p) = guarded-recv_key s p (check s.recv id ts)
deliver-recv_key s id ts (fail e) = refl

open_all-recv_key :
    (c : Crypto) (s : Session) (arrivals : List Arrival)
    → (open_all c s arrivals).recv_key ≡ s.recv_key
unfolding open_all open_wire
open_all-recv_key c s [] = refl
open_all-recv_key c s ((id, ts, wire) ∷ rest) =
    open_all-recv_key c (open_wire c s id ts wire).0 rest
    ∙ deliver-recv_key s id ts (decipher c s.recv_key id ts wire)

-- With libraries that keep their laws and key pairs that match, when NewSession gives one side (of
-- either role) a session s, it gives the other side of the opposite role the session with the two
-- keys exchanged. Whatever the other side has opened since, sealing a text with a 24-byte nonce
-- succeeds, and opening the wire with the same id and timestamp gives the text and notes the id,
-- provided the id is not among those seen and the timestamp is inside the window.
pub open-seal :
    (c : Crypto) (laws : Laws c) (mi me pi pe : KeyPair)
    → IsKeyPair c mi
    → IsKeyPair c me
    → IsKeyPair c pi
    → IsKeyPair c pe
    → (role : String) (s : Session) (before : List Arrival) (nonce : Bytes) (id : String)
      (ts : Int64) (plaintext : Bytes)
    → new_session c mi.private pi.public me.private pe.public role ≡ ok s
    → length nonce ≡ 24
    → is_stale (open_all c (mirror s) before).recv ts ≡ false
    → get id (open_all c (mirror s) before).recv.seen ≡ none
    → (new_session c pi.private mi.public pe.private me.public (opposite role) ≡ ok (mirror s))
      × ((wire : Bytes) × (seal c s (some nonce) id ts plaintext ≡ ok wire)
          × (open_wire c (open_all c (mirror s) before) id ts wire ≡ (
            record (open_all c (mirror s) before) {
              recv = admit (open_all c (mirror s) before).recv id ts;
            },
            ok plaintext,
          )))
unfolding open_wire check
open-seal c laws mi me pi pe hmi hme hpi hpe role s before nonce id ts plaintext new size fresh
      unseen =
    let (wire, sealed, reads) =
      decipher-seal c laws s nonce id ts plaintext
        (length-send_key c laws mi.private pi.public me.private pe.public role s new) size in
    (
      new_session-opposite c laws mi me pi pe hmi hme hpi hpe role s new,
      (wire, sealed, rw (open_all-recv_key c (mirror s) before, reads, fresh, unseen) refl),
    )

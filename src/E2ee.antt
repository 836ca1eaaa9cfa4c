-- ===== src/E2ee.antt =====
-- internal/e2ee/e2ee.go: the encryption between the two devices of a pair.
pub mod Guard
pub mod Session
pub mod Always
pub mod Agreement
pub mod Once
pub mod Delivery
pub mod RoundTrip

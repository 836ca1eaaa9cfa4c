-- ===== src/Lib.antt =====
-- The secure gateway: a relay that forwards opaque frames between the phone and the desktop of a
-- pair, and an auth service that sells, pairs and issues the tokens the relay accepts.
--
-- The parts, by file (paths are from the root of the repository):
-- - Token: internal/token/token.go and verify.go. Verify is `verify`; the JWT library's
--   ParseWithClaims, with its key function and options, is the parameter `parse`.
-- - AuthStore and its children: the records of internal/authstore/store.go, and every method of
--   internal/authstore/memory/memory.go as a function of the store (`State.Store`). A method keeps
--   its name in snake case: ConsumeRefreshToken is `Tokens.consume_refresh_token`.
-- - License: internal/license/license.go, Evaluate, Issuable and Enforced.
-- - RateLimit: internal/ratelimit/ratelimit.go, the ban tracker and the keyed limiter.
-- - Backplane: internal/backplane/backplane.go and internal/backplane/memory/memory.go, the slot
--   registry and the channels between instances.
-- - AuthService and its children: internal/authservice. Credentials is auth.go; Issue is the issue
--   and refresh of tokens of handlers.go, with Signer.Mint of internal/signer/signer.go; Pair is
--   pairing.go; Provision is accounts and devices of handlers.go; Checkout and Claim are
--   checkout.go; Limits is ratelimit.go. A handler is a
--   `Flow`, which ends early with a status and an error code, in the world it leaves.
-- - Relay and its children: internal/relay. Protocol is protocol/protocol.go, Session is
--   session/session.go, Hub is hub/hub.go, Frames is server/refresh.go with OnFrame and the read
--   pump's turn; Life is the relation of all the steps an instance can take; Connect is
--   server/connect.go with ClientIP of internal/httpsec/httpsec.go.
-- - Billing and its children: internal/billing. Objects is extract.go with the fields of Stripe's
--   objects that are read, Run the processor and its errors, Sync the sync of one subscription,
--   Events the handlers and reconcile.go, Retry the record of events, their retries and handleWebhook
--   of internal/authservice/handlers.go.
-- - E2ee and its children: internal/e2ee/e2ee.go. Guard is the replay guard, Session the keys and
--   the messages of a session (Open is `open_wire`); the curve, HKDF, the AEAD and the random source
--   are parameters (`Crypto`), with the laws that the libraries document (`Agreement.Laws`).
-- - Config: internal/config/config.go, the relay's configuration from its environment.
-- - Common: shared helpers, and maps as association lists (Common.Table). Tests: concrete runs.
--
-- How they interact: billing writes the mirror of a subscription and its licenses, which the issue of a
-- token reads. A handler of the auth service reads and writes the store and publishes
-- revocations on the backplane. The hub claims slots there, keeps an index of local sessions, and
-- closes those that a revocation or an eviction names. A token that Issue signs is what Token
-- verifies, at a connection and at an in-socket refresh.
--
-- What is a parameter: the hash of secrets, random texts (by the number of their draw), the
-- signature, base64, JSON, addresses (URLs), license keys, calendar years, uuids, the clock, the
-- signature and the answers of Stripe, the token bucket, and the
-- scheduler's pick where a Go select has two ready cases, in Enqueue, in the write pump and in the
-- monitor.
--
-- Choices: an instant is a number of nanoseconds since Go's zero time, so 0 is the zero time. The
-- times of claims and of a session's expiry are seconds from one origin; the offset of the unix epoch
-- is left out. A handler reads the clock once. The timestamps of encrypted messages and the
-- numbers of the configuration are int64 with wrap-around (Common.Words), shifted by 2^63. Other integers that the source only
-- counts with or compares are natural numbers; a limit that is not positive is 0. A method of the
-- store or of the backplane runs under its mutex and is one step; PublishRevocation, which sends after
-- it has copied its channels and released the mutex, is one step too. A method of the hub is one step,
-- though Register holds no lock between its claim and its writes to the index, so registrations that
-- interleave are outside the model. A Go channel is its queue, and a send that would block is dropped, as in the source. A map's range
-- goes in the order of the table. Every loop is structural recursion, so no fuel is needed. The only
-- errors of the in-memory parts are those that their code returns.
--
-- Not modelled: the Postgres store and the Redis backplane (texts sent to a server), the Stripe client, key management, HTTP and TLS plumbing, the socket
-- itself and the timers of a session, the auth service's configuration, metrics and logs, the SDKs, deployment.
pub mod Common
pub mod Token
pub mod AuthStore
pub mod License
pub mod RateLimit
pub mod Backplane
pub mod Relay
pub mod AuthService
pub mod E2ee
pub mod Billing
pub mod Config
pub mod Tests

-- ===== src/Tests/Settings.antt =====
-- Configurations of the relay.
use secure_gateway.Common.{
  ◌+◌, ◌≡◌, ◌↔◌, refl, String, str_eq, true, none, some, [], ◌∷◌, if◌then◌else◌,
}
use secure_gateway.Common.Words.{two_63}
use secure_gateway.Config.{
  Readers, Config, Error, unreadable, issuer_missing, key_source_missing, slot_ttl_short, resolved,
  read_errors, load_from, loaded, invalid,
}
use secure_gateway.Config.Accepts.{IsValid, load_iff}

-- Durations in hours and in minutes, of the few texts that are used.
abbrev readers : Readers
readers = record {
  parse_bool = λ s. if str_eq s "true" then some true else none;
  parse_int = λ s. none;
  parse_duration = λ s.
      if str_eq s "1m"
      then some (two_63 + 60000000000)
      else if str_eq s "1500000h"
      then some (two_63 + 5400000000000000000)
      else none;
  is_host_port = λ s. true;
  split_trimmed = λ s. s ∷ [];
}

abbrev small : String → String
small key =
    if str_eq key "RELAY_JWT_ISSUER"
    then "auth"
    else if str_eq key "RELAY_JWKS_URL"
    then "https://auth/jwks"
    else ""

abbrev with_ping : String → String → String
with_ping text key = if str_eq key "RELAY_PING_INTERVAL" then text else small key

-- With pings once a minute the slot's default lifetime of a minute is too short.
ping_too_slow : load_from readers (with_ping "1m") ≡ invalid (slot_ttl_short ∷ [])
unfolding load_from resolved read_errors secure_gateway.Config.validate
    secure_gateway.Config.key_errors secure_gateway.Config.link_errors
    secure_gateway.Config.size_errors secure_gateway.Config.output_errors
    secure_gateway.Config.insecure_algs
ping_too_slow = refl

-- Twice 1500000 hours is negative as an int64, so a slot lifetime of a minute passes.
ping_overflow :
    load_from readers (with_ping "1500000h") ≡ loaded (resolved readers (with_ping "1500000h"))
unfolding load_from resolved read_errors secure_gateway.Config.validate
    secure_gateway.Config.key_errors secure_gateway.Config.link_errors
    secure_gateway.Config.size_errors secure_gateway.Config.output_errors
    secure_gateway.Config.insecure_algs
ping_overflow = refl

unreadable_ping :
    load_from readers (with_ping "soon") ≡ invalid (unreadable "RELAY_PING_INTERVAL" ∷ [])
unfolding load_from resolved read_errors secure_gateway.Config.validate
    secure_gateway.Config.key_errors secure_gateway.Config.link_errors
    secure_gateway.Config.size_errors secure_gateway.Config.output_errors
    secure_gateway.Config.insecure_algs
unreadable_ping = refl

empty_environment :
    load_from readers (λ key. "") ≡ invalid (issuer_missing ∷ key_source_missing ∷ [])
unfolding load_from resolved read_errors secure_gateway.Config.validate
    secure_gateway.Config.key_errors secure_gateway.Config.link_errors
    secure_gateway.Config.size_errors secure_gateway.Config.output_errors
    secure_gateway.Config.insecure_algs
empty_environment = refl

load_iff_example : (load_from readers small ≡ loaded (resolved readers small)) ↔ (
    (read_errors readers small ≡ [])
    × ((resolved readers small ≡ resolved readers small)
        × IsValid readers (resolved readers small)))
load_iff_example = load_iff readers small (resolved readers small)

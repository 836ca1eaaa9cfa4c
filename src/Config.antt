-- ===== src/Config.antt =====
-- internal/config/config.go: the relay's configuration, from the environment.
pub mod Accepts
use secure_gateway.Common.{
  ℕ, ◌+◌, ◌*◌, String, str_eq, Bool, true, false, ◌&&◌, ◌||◌, not, Option, none, some, List, [],
  ◌∷◌, ◌++◌, leb, if◌then◌else◌,
}
use secure_gateway.Common.Words.{Int64, two_63, double}

-- strconv.ParseBool, strconv.Atoi and ParseInt, time.ParseDuration, whether net.SplitHostPort takes a
-- text, and strings.Split at a comma with each part trimmed. `none` is an error.
pub record Readers : Type 0 where
  pub parse_bool : String → Option Bool
  pub parse_int : String → Option Int64
  pub parse_duration : String → Option Int64
  pub is_host_port : String → Bool
  pub split_trimmed : String → List String

-- Counts, sizes and durations are int64.
pub record Config : Type 0 where
  pub listen_addr : String
  pub metrics_addr : String
  pub instance_id : String
  pub tls_cert_file : String
  pub tls_key_file : String
  pub tls_min_version : String
  pub trust_proxy : Bool
  pub jwt_issuer : String
  pub jwt_audience : String
  pub jwt_algs : List String
  pub jwks_url : String
  pub jwt_public_key_file : String
  pub jwt_leeway : Int64
  pub max_message_bytes : Int64
  pub ping_interval : Int64
  pub pong_timeout : Int64
  pub out_queue_size : Int64
  pub slot_ttl : Int64
  pub backplane : String
  pub redis_addr : String
  pub redis_password : String
  pub redis_db : Int64
  pub rate_limit_enabled : Bool
  pub rate_limit_ip_per_min : Int64
  pub rate_limit_ip_burst : Int64
  pub abuse_strike_threshold : Int64
  pub abuse_strike_window : Int64
  pub abuse_ban_window : Int64
  pub shutdown_drain : Int64
  pub log_level : String
  pub log_format : String

-- The errors, without their texts; `unreadable` names the variable.
pub data Error : Type 0 where
  unreadable : String → Error
  issuer_missing key_source_missing key_sources_both algs_missing : Error
  alg_insecure : String → Error
  tls_half tls_version_unknown redis_addr_missing backplane_unknown : Error
  message_size_not_positive queue_not_positive ping_not_positive slot_ttl_short : Error
  rate_limit_not_positive metrics_addr_bad metrics_addr_same : Error
  log_level_unknown log_format_unknown : Error

abbrev pub or_default {ℓ} : {A : Type ℓ} → A → Option A → A
or_default d none = d
or_default d (some a) = a

abbrev str : (String → String) → String → String → String
str getenv key def = if str_eq (getenv key) "" then def else getenv key

-- The parts of a list that are not empty.
abbrev non_empty : List String → List String
non_empty [] = []
non_empty (p ∷ ps) = if str_eq p "" then non_empty ps else p ∷ non_empty ps

abbrev str_list : Readers → (String → String) → String → List String → List String
str_list rd getenv key def =
    if str_eq (getenv key) "" then def else non_empty (rd.split_trimmed (getenv key))

-- What `boolean`, `integer`, `bytesize` and `duration` share: a variable that is not set or cannot be
-- read leaves the default.
abbrev parsed {ℓ} : {A : Type ℓ} → (String → Option A) → (String → String) → String → A → A
parsed parse getenv key def =
    if str_eq (getenv key) "" then def else or_default def (parse (getenv key))

abbrev problem {ℓ} : {A : Type ℓ} → String → Option A → List Error
problem key none = unreadable key ∷ []
problem key (some a) = []

abbrev parse_error {ℓ} :
    {A : Type ℓ} → (String → Option A) → (String → String) → String → List Error
parse_error parse getenv key =
    if str_eq (getenv key) "" then [] else problem key (parse (getenv key))

-- A duration of so many seconds.
abbrev seconds : ℕ → Int64
seconds n = two_63 + n * 1000000000

unfoldable pub resolved : Readers → (String → String) → Config
resolved rd env = record {
  listen_addr = str env "RELAY_LISTEN_ADDR" ":8443";
  metrics_addr = str env "RELAY_METRICS_ADDR" "";
  instance_id = str env "RELAY_INSTANCE_ID" "";
  tls_cert_file = str env "RELAY_TLS_CERT_FILE" "";
  tls_key_file = str env "RELAY_TLS_KEY_FILE" "";
  tls_min_version = str env "RELAY_TLS_MIN_VERSION" "1.2";
  trust_proxy = parsed rd.parse_bool env "RELAY_TRUST_PROXY" false;
  jwt_issuer = str env "RELAY_JWT_ISSUER" "";
  jwt_audience = str env "RELAY_JWT_AUDIENCE" "relay";
  jwt_algs = str_list rd env "RELAY_JWT_ALGS" ("ES256" ∷ "EdDSA" ∷ []);
  jwks_url = str env "RELAY_JWKS_URL" "";
  jwt_public_key_file = str env "RELAY_JWT_PUBLIC_KEY_FILE" "";
  jwt_leeway = parsed rd.parse_duration env "RELAY_JWT_LEEWAY" (seconds 30);
  max_message_bytes = parsed rd.parse_int env "RELAY_MAX_MESSAGE_BYTES" (two_63 + 262144);
  ping_interval = parsed rd.parse_duration env "RELAY_PING_INTERVAL" (seconds 25);
  pong_timeout = parsed rd.parse_duration env "RELAY_PONG_TIMEOUT" (seconds 25);
  out_queue_size = parsed rd.parse_int env "RELAY_OUT_QUEUE_SIZE" (two_63 + 64);
  slot_ttl = parsed rd.parse_duration env "RELAY_SLOT_TTL" (seconds 60);
  backplane = str env "RELAY_BACKPLANE" "memory";
  redis_addr = str env "RELAY_REDIS_ADDR" "";
  redis_password = str env "RELAY_REDIS_PASSWORD" "";
  redis_db = parsed rd.parse_int env "RELAY_REDIS_DB" two_63;
  rate_limit_enabled = parsed rd.parse_bool env "RELAY_RATELIMIT_ENABLED" true;
  rate_limit_ip_per_min = parsed rd.parse_int env "RELAY_RATELIMIT_IP_PER_MIN" (two_63 + 120);
  rate_limit_ip_burst = parsed rd.parse_int env "RELAY_RATELIMIT_IP_BURST" (two_63 + 60);
  abuse_strike_threshold = parsed rd.parse_int env "RELAY_ABUSE_STRIKE_THRESHOLD" (two_63 + 10);
  abuse_strike_window = parsed rd.parse_duration env "RELAY_ABUSE_STRIKE_WINDOW" (seconds 60);
  abuse_ban_window = parsed rd.parse_duration env "RELAY_ABUSE_BAN_WINDOW" (seconds 900);
  shutdown_drain = parsed rd.parse_duration env "RELAY_SHUTDOWN_DRAIN" (seconds 30);
  log_level = str env "RELAY_LOG_LEVEL" "info";
  log_format = str env "RELAY_LOG_FORMAT" "json";
}

-- The errors of the readers, in their order.
unfoldable pub read_errors : Readers → (String → String) → List Error
read_errors rd env =
    parse_error rd.parse_bool env "RELAY_TRUST_PROXY"
    ++ parse_error rd.parse_bool env "RELAY_RATELIMIT_ENABLED"
    ++ parse_error rd.parse_duration env "RELAY_JWT_LEEWAY"
    ++ parse_error rd.parse_int env "RELAY_MAX_MESSAGE_BYTES"
    ++ parse_error rd.parse_duration env "RELAY_PING_INTERVAL"
    ++ parse_error rd.parse_duration env "RELAY_PONG_TIMEOUT"
    ++ parse_error rd.parse_int env "RELAY_OUT_QUEUE_SIZE"
    ++ parse_error rd.parse_duration env "RELAY_SLOT_TTL"
    ++ parse_error rd.parse_int env "RELAY_REDIS_DB"
    ++ parse_error rd.parse_duration env "RELAY_SHUTDOWN_DRAIN"
    ++ parse_error rd.parse_int env "RELAY_RATELIMIT_IP_PER_MIN"
    ++ parse_error rd.parse_int env "RELAY_RATELIMIT_IP_BURST"
    ++ parse_error rd.parse_int env "RELAY_ABUSE_STRIKE_THRESHOLD"
    ++ parse_error rd.parse_duration env "RELAY_ABUSE_STRIKE_WINDOW"
    ++ parse_error rd.parse_duration env "RELAY_ABUSE_BAN_WINDOW"

-- `if bad { errs = append(errs, e) }`.
abbrev pub refuse : Bool → Error → List Error
refuse true e = e ∷ []
refuse false e = []

abbrev pub is_asymmetric : String → Bool
is_asymmetric a = str_eq a "ES256" || str_eq a "ES384" || str_eq a "ES512" || str_eq a "EdDSA"

unfoldable pub insecure_algs : List String → List Error
insecure_algs [] = []
insecure_algs (a ∷ rest) = refuse (not (is_asymmetric a)) (alg_insecure a) ++ insecure_algs rest

abbrev pub is_empty {ℓ} : {A : Type ℓ} → List A → Bool
is_empty [] = true
is_empty (x ∷ xs) = false

abbrev pub differ : Bool → Bool → Bool
differ true b = not b
differ false b = b

-- Zero or less.
abbrev pub not_positive : Int64 → Bool
not_positive x = leb x two_63

unfoldable pub key_errors : Config → List Error
key_errors c =
    refuse (str_eq c.jwt_issuer "") issuer_missing
    ++ refuse (str_eq c.jwks_url "" && str_eq c.jwt_public_key_file "") key_source_missing
    ++ refuse (not (str_eq c.jwks_url "") && not (str_eq c.jwt_public_key_file "")) key_sources_both
    ++ refuse (is_empty c.jwt_algs) algs_missing
    ++ insecure_algs c.jwt_algs

unfoldable pub link_errors : Config → List Error
link_errors c =
    refuse (differ (str_eq c.tls_cert_file "") (str_eq c.tls_key_file "")) tls_half
    ++ refuse (not (str_eq c.tls_min_version "1.2" || str_eq c.tls_min_version "1.3"))
        tls_version_unknown
    ++ (if str_eq c.backplane "memory"
        then []
        else if str_eq c.backplane "redis"
        then refuse (str_eq c.redis_addr "") redis_addr_missing
        else backplane_unknown ∷ [])

unfoldable pub size_errors : Config → List Error
size_errors c =
    refuse (not_positive c.max_message_bytes) message_size_not_positive
    ++ refuse (not_positive c.out_queue_size) queue_not_positive
    ++ refuse (not_positive c.ping_interval) ping_not_positive
    ++ refuse (leb c.slot_ttl (double c.ping_interval)) slot_ttl_short
    ++ refuse
        (c.rate_limit_enabled
          && (not_positive c.rate_limit_ip_per_min || not_positive c.rate_limit_ip_burst))
        rate_limit_not_positive

unfoldable pub output_errors : Readers → Config → List Error
output_errors rd c =
    (if str_eq c.metrics_addr ""
      then []
      else refuse (not (rd.is_host_port c.metrics_addr)) metrics_addr_bad
        ++ refuse (str_eq c.metrics_addr c.listen_addr) metrics_addr_same)
    ++ refuse
        (not (
          str_eq c.log_level "debug"
          || str_eq c.log_level "info"
          || str_eq c.log_level "warn"
          || str_eq c.log_level "error"))
        log_level_unknown
    ++ refuse (not (str_eq c.log_format "json" || str_eq c.log_format "text")) log_format_unknown

unfoldable pub validate : Readers → Config → List Error
validate rd c = key_errors c ++ link_errors c ++ size_errors c ++ output_errors rd c

pub data Loaded : Type 0 where
  loaded : Config → Loaded
  invalid : List Error → Loaded

abbrev pub if_none : Config → List Error → Loaded
if_none c [] = loaded c
if_none c (e ∷ es) = invalid (e ∷ es)

unfoldable pub load_from : Readers → (String → String) → Loaded
load_from rd env = let c = resolved rd env in if_none c (read_errors rd env ++ validate rd c)

-- ===== src/Config/Accepts.antt =====
-- internal/config/config.go: which configurations start a relay.
use secure_gateway.Common.{
  ◌<◌, ◌≡◌, ◌≢◌, ◌⊎◌, ◌↔◌, inl, inr, refl, sym, ap, subst, String, eq_iff, arith, Bool, true, false,
  not, List, [], ◌∷◌, ◌++◌, All,
}
use secure_gateway.Common.Words.{two_63, double}
use secure_gateway.Config.{
  Readers, Config, Error, alg_insecure, refuse, is_asymmetric, insecure_algs, key_errors,
  link_errors, size_errors, output_errors, validate, resolved, read_errors, loaded, if_none,
  load_from,
}

-- An algorithm that verifies with a public key.
pub data IsAsymmetric : String → Type 0 where
  es256 : IsAsymmetric "ES256"
  es384 : IsAsymmetric "ES384"
  es512 : IsAsymmetric "ES512"
  eddsa : IsAsymmetric "EdDSA"

-- The issuer is set, there is one source of keys, and only asymmetric algorithms, at least one.
pub record IsKeyed (c : Config) : Type 0 where
  pub issuer : c.jwt_issuer ≢ ""
  pub source :
      ((c.jwks_url ≢ "") × (c.jwt_public_key_file ≡ ""))
      ⊎ ((c.jwks_url ≡ "") × (c.jwt_public_key_file ≢ ""))
  pub algs : c.jwt_algs ≢ []
  pub asymmetric : All IsAsymmetric c.jwt_algs

pub record IsLinked (c : Config) : Type 0 where
  pub tls : (c.tls_cert_file ≡ "") ↔ (c.tls_key_file ≡ "")
  pub version : (c.tls_min_version ≡ "1.2") ⊎ (c.tls_min_version ≡ "1.3")
  pub backplane : (c.backplane ≡ "memory") ⊎ ((c.backplane ≡ "redis") × (c.redis_addr ≢ ""))

-- Sizes and intervals are positive, and the slot's lifetime exceeds twice the ping interval, doubled
-- with wrap-around.
pub record IsSized (c : Config) : Type 0 where
  pub message : two_63 < c.max_message_bytes
  pub queue : two_63 < c.out_queue_size
  pub ping : two_63 < c.ping_interval
  pub slot : double c.ping_interval < c.slot_ttl
  pub rates :
      (c.rate_limit_enabled ≡ false)
      ⊎ ((two_63 < c.rate_limit_ip_per_min) × (two_63 < c.rate_limit_ip_burst))

pub record IsObserved (rd : Readers) (c : Config) : Type 0 where
  pub metrics :
      (c.metrics_addr ≡ "")
      ⊎ ((rd.is_host_port c.metrics_addr ≡ true) × (c.metrics_addr ≢ c.listen_addr))
  pub level :
      (c.log_level ≡ "debug")
      ⊎ ((c.log_level ≡ "info") ⊎ ((c.log_level ≡ "warn") ⊎ (c.log_level ≡ "error")))
  pub format : (c.log_format ≡ "json") ⊎ (c.log_format ≡ "text")

append-nil {ℓ} : {A : Type ℓ} (xs ys : List A) → xs ++ ys ≡ [] → (xs ≡ []) × (ys ≡ [])
append-nil [] ys h = (refl, h)
append-nil (x ∷ xs) ys h = absurd (ground arith)

refuse-nil : (b : Bool) (e : Error) → refuse b e ≡ [] → b ≡ false
refuse-nil true e h = absurd (ground arith)
refuse-nil false e h = refl

known-algs :
    (a : String)
    → is_asymmetric a ≡ true
    → (a ≡ "ES256") ⊎ ((a ≡ "ES384") ⊎ ((a ≡ "ES512") ⊎ (a ≡ "EdDSA")))
known-algs a h =
    ground (arith, eq_iff a "ES256", eq_iff a "ES384", eq_iff a "ES512", eq_iff a "EdDSA")

is_asymmetric-IsAsymmetric : (a : String) → is_asymmetric a ≡ true → IsAsymmetric a
is_asymmetric-IsAsymmetric a h = elim (known-algs a h) [
  | inl e ↦ subst IsAsymmetric (sym e) es256
  | inr (inl e) ↦ subst IsAsymmetric (sym e) es384
  | inr (inr (inl e)) ↦ subst IsAsymmetric (sym e) es512
  | inr (inr (inr e)) ↦ subst IsAsymmetric (sym e) eddsa
]

IsAsymmetric-is_asymmetric : (a : String) → IsAsymmetric a → is_asymmetric a ≡ true
IsAsymmetric-is_asymmetric a es256 = refl
IsAsymmetric-is_asymmetric a es384 = refl
IsAsymmetric-is_asymmetric a es512 = refl
IsAsymmetric-is_asymmetric a eddsa = refl

insecure_algs-nil : (algs : List String) → insecure_algs algs ≡ [] → All IsAsymmetric algs
unfolding insecure_algs
insecure_algs-nil [] h = tt
insecure_algs-nil (a ∷ rest) h =
    let (first, others) =
      append-nil (refuse (not (is_asymmetric a)) (alg_insecure a)) (insecure_algs rest) h in
    (
      is_asymmetric-IsAsymmetric a
          (ground (arith, refuse-nil (not (is_asymmetric a)) (alg_insecure a) first)),
      insecure_algs-nil rest others,
    )

nil-insecure_algs : (algs : List String) → All IsAsymmetric algs → insecure_algs algs ≡ []
unfolding insecure_algs
nil-insecure_algs [] h = refl
nil-insecure_algs (a ∷ rest) h =
    rw (IsAsymmetric-is_asymmetric a h.0, nil-insecure_algs rest h.1) refl

key_errors-IsKeyed : (c : Config) → key_errors c ≡ [] → IsKeyed c
unfolding key_errors
key_errors-IsKeyed c h = record {
  issuer = ground (arith, eq_iff c.jwt_issuer "");
  source = ground (arith, eq_iff c.jwks_url "", eq_iff c.jwt_public_key_file "");
  algs = λ none. ground (arith, none);
  asymmetric = insecure_algs-nil c.jwt_algs (ground arith);
}

IsKeyed-key_errors : (c : Config) → IsKeyed c → key_errors c ≡ []
unfolding key_errors
IsKeyed-key_errors c v = ground (
  arith,
  v.issuer,
  v.source,
  v.algs,
  nil-insecure_algs c.jwt_algs v.asymmetric,
  eq_iff c.jwt_issuer "",
  eq_iff c.jwks_url "",
  eq_iff c.jwt_public_key_file "",
)

link_errors-IsLinked : (c : Config) → link_errors c ≡ [] → IsLinked c
unfolding link_errors
link_errors-IsLinked c h = record {
  tls = ground (arith, eq_iff c.tls_cert_file "", eq_iff c.tls_key_file "");
  version = ground (arith, eq_iff c.tls_min_version "1.2", eq_iff c.tls_min_version "1.3");
  backplane =
      ground
        (arith, eq_iff c.backplane "memory", eq_iff c.backplane "redis", eq_iff c.redis_addr "");
}

IsLinked-link_errors : (c : Config) → IsLinked c → link_errors c ≡ []
unfolding link_errors
IsLinked-link_errors c v = ground (
  arith,
  v.tls,
  v.version,
  v.backplane,
  eq_iff c.tls_cert_file "",
  eq_iff c.tls_key_file "",
  eq_iff c.tls_min_version "1.2",
  eq_iff c.tls_min_version "1.3",
  eq_iff c.backplane "memory",
  eq_iff c.backplane "redis",
  eq_iff c.redis_addr "",
)

size_errors-IsSized : (c : Config) → size_errors c ≡ [] → IsSized c
unfolding size_errors
size_errors-IsSized c h = record {
  message = ground arith;
  queue = ground arith;
  ping = ground arith;
  slot = ground arith;
  rates = ground arith;
}

IsSized-size_errors : (c : Config) → IsSized c → size_errors c ≡ []
unfolding size_errors
IsSized-size_errors c v = ground (arith, v.message, v.queue, v.ping, v.slot, v.rates)

output_errors-IsObserved : (rd : Readers) (c : Config) → output_errors rd c ≡ [] → IsObserved rd c
unfolding output_errors
output_errors-IsObserved rd c h = record {
  metrics = ground (arith, eq_iff c.metrics_addr "", eq_iff c.metrics_addr c.listen_addr);
  level = ground (
    arith,
    eq_iff c.log_level "debug",
    eq_iff c.log_level "info",
    eq_iff c.log_level "warn",
    eq_iff c.log_level "error",
  );
  format = ground (arith, eq_iff c.log_format "json", eq_iff c.log_format "text");
}

IsObserved-output_errors : (rd : Readers) (c : Config) → IsObserved rd c → output_errors rd c ≡ []
unfolding output_errors
IsObserved-output_errors rd c v = ground (
  arith,
  v.metrics,
  v.level,
  v.format,
  eq_iff c.metrics_addr "",
  eq_iff c.metrics_addr c.listen_addr,
  eq_iff c.log_level "debug",
  eq_iff c.log_level "info",
  eq_iff c.log_level "warn",
  eq_iff c.log_level "error",
  eq_iff c.log_format "json",
  eq_iff c.log_format "text",
)

pub record IsValid (rd : Readers) (c : Config) : Type 0 where
  pub keyed : IsKeyed c
  pub linked : IsLinked c
  pub sized : IsSized c
  pub observed : IsObserved rd c

validate-IsValid : (rd : Readers) (c : Config) → validate rd c ≡ [] → IsValid rd c
unfolding validate
validate-IsValid rd c h =
    let (h1, o) =
      append-nil (key_errors c ++ link_errors c ++ size_errors c) (output_errors rd c) h in
    let (h2, s) = append-nil (key_errors c ++ link_errors c) (size_errors c) h1 in
    let (k, l) = append-nil (key_errors c) (link_errors c) h2 in
    record {
      keyed = key_errors-IsKeyed c k;
      linked = link_errors-IsLinked c l;
      sized = size_errors-IsSized c s;
      observed = output_errors-IsObserved rd c o;
    }

IsValid-validate : (rd : Readers) (c : Config) → IsValid rd c → validate rd c ≡ []
unfolding validate
IsValid-validate rd c v =
    rw
      (
        IsKeyed-key_errors c v.keyed,
        IsLinked-link_errors c v.linked,
        IsSized-size_errors c v.sized,
        IsObserved-output_errors rd c v.observed,
      )
      refl

if_none-loaded :
    (c d : Config) (errs : List Error) → if_none c errs ≡ loaded d → (errs ≡ []) × (d ≡ c)
if_none-loaded c d [] h = ground arith
if_none-loaded c d (e ∷ es) h = ground arith

-- The relay starts with a configuration exactly when every variable that is set can be read, the
-- configuration is the one that the variables and the defaults give, and it is valid: an issuer, one
-- source of keys and only asymmetric algorithms; both or no TLS files, a known version and backplane;
-- positive sizes and a slot lifetime above twice the ping interval (doubled as an int64); a usable
-- metrics address and known log settings.
pub load_iff :
    (rd : Readers) (env : String → String) (c : Config)
    → (load_from rd env ≡ loaded c)
      ↔ ((read_errors rd env ≡ []) × ((c ≡ resolved rd env) × IsValid rd c))
unfolding load_from
load_iff rd env c = (
  λ h.
      let (none, same) =
        if_none-loaded (resolved rd env) c (read_errors rd env ++ validate rd (resolved rd env))
          h in
      let (readable, well) = append-nil (read_errors rd env) (validate rd (resolved rd env)) none in
      (
        readable,
        (same, subst (IsValid rd) (sym same) (validate-IsValid rd (resolved rd env) well)),
      ),
  λ (readable, (same, v)).
      rw (readable, IsValid-validate rd (resolved rd env) (subst (IsValid rd) same v))
        (ap loaded (sym same)),
)

-- ===== src/AuthService/Issue/Entitled.antt =====
-- Who gets a connection token.
use Prim.Native.String.{◌++◌ as cat}
use secure_gateway.Common.{
  ◌∙◌, ap, ℕ, ◌+◌, ◌/◌, ◌≡◌, ◌↔◌, ◌⊎◌, inl, inr, refl, String, str_eq, eq_iff, true, ◌&&◌, some, [],
  ◌∷◌, arith, string_key, Option-cases, Bool-cases,
}
use secure_gateway.Common.Table.{get}
use secure_gateway.Token.{Claims, role_mobile, role_desktop}
use secure_gateway.AuthStore.{
  Device, License, license_active, Pairing, pairing_active, Subscription, is_pairing_active,
}
use secure_gateway.AuthStore.Tokens.{put_refresh_token}
use secure_gateway.AuthStore.State.{Store}
use secure_gateway.License.{IsPaying, issuable_iff_IsPaying}
use secure_gateway.AuthService.{
  Env, World, going, license_issuable, pairing_issuable, pairing_has_device, draw, with_store,
  new_id,
}
use secure_gateway.AuthService.Credentials.{Caller, authenticate_account_or_pair}
use secure_gateway.AuthService.Ends.{need-going, require-going}
use secure_gateway.AuthService.Issue.{
  TokenReq, TokenResp, well_formed, credential_covers, handle_issue_token, issue_token_pair, second,
  mint, refresh_row,
}

-- The device is the pairing's mobile, or its desktop.
abbrev pub IsMember : Pairing → Device → Type 0
IsMember p d =
    ((d.role ≡ role_mobile) × (p.mobile_device_id ≡ d.id))
    ⊎ ((d.role ≡ role_desktop) × (p.desktop_device_id ≡ d.id))

pub IsMember_iff : (p : Pairing) (d : Device) → (pairing_has_device p d ≡ true) ↔ IsMember p d
unfolding pairing_has_device
IsMember_iff p d = (
  λ h. ground (
    arith,
    eq_iff d.role role_mobile,
    eq_iff d.role role_desktop,
    eq_iff p.mobile_device_id d.id,
    eq_iff p.desktop_device_id d.id,
  ),
  λ h. ground (
    arith,
    eq_iff d.role role_mobile,
    eq_iff role_desktop role_mobile,
    eq_iff d.role role_desktop,
    eq_iff p.mobile_device_id d.id,
    eq_iff p.desktop_device_id d.id,
  ),
)

-- The license is active, and paid for where billing is on.
pub record IsIssuable (env : Env) (now : ℕ) (lic : License) (s : Store) : Type 0 where
  pub in_force : lic.status ≡ license_active
  pub paid :
      env.billing_enabled ≡ true
      → (sub : Subscription) × (get lic.subscription_id s.subscriptions ≡ some sub)
        × IsPaying sub now

pub IsIssuable-of :
    (env : Env) (now : ℕ) (lic : License) (s : Store)
    → license_issuable env now lic s ≡ true
    → IsIssuable env now lic s
unfolding license_issuable
IsIssuable-of env now lic s h = record {
  in_force = ground arith;
  paid = λ on. elim (Option-cases (get lic.subscription_id s.subscriptions)) [
    | inl e ↦ absurd (ground arith)
    | inr (sub, e) ↦ (sub, e, (issuable_iff_IsPaying sub now).0.0 (ground arith))
  ];
}

pub of_IsIssuable :
    (env : Env) (now : ℕ) (lic : License) (s : Store)
    → IsIssuable env now lic s
    → license_issuable env now lic s ≡ true
unfolding license_issuable
of_IsIssuable env now lic s h = elim (Bool-cases env.billing_enabled) [
  | inl on ↦
      let (sub, e, pays) = h.paid on in
      ground (arith, h.in_force, (issuable_iff_IsPaying sub now).0.1 pays)
  | inr off ↦ ground (arith, h.in_force)
]

pub record Entitled (env : Env) (now : ℕ) (secret : String) (req : TokenReq) (s : Store)
    : Type 0 where
  pub caller : Caller
  pub p : Pairing
  pub d : Device
  pub lic : License
  pub authenticated : authenticate_account_or_pair env now secret s ≡ some caller
  pub formed : well_formed req ≡ true
  pub covered : credential_covers req caller.credential ≡ true
  pub pairing_there : get req.pair_id s.pairings ≡ some p
  pub pairing_owned : p.account_id ≡ caller.account_id
  pub pairing_live : p.status ≡ pairing_active
  pub device_there : get req.device_id s.devices ≡ some d
  pub device_owned : d.account_id ≡ caller.account_id
  pub member : IsMember p d
  pub license_there : get p.license_id s.licenses ≡ some lic
  pub license_good : IsIssuable env now lic s

pub pairing_issuable-some :
    (env : Env) (now : ℕ) (p : Pairing) (s : Store) (lic : License)
    → pairing_issuable env now p s ≡ some lic
    → (get p.license_id s.licenses ≡ some lic) × IsIssuable env now lic s
unfolding pairing_issuable
pairing_issuable-some env now p s lic h = elim (Option-cases (get p.license_id s.licenses)) [
  | inl e ↦ absurd (ground arith)
  | inr (l, e) ↦
      let same : l ≡ lic = ground arith in
      let good : license_issuable env now lic s ≡ true = ground arith in
      (e ∙ ap some same, IsIssuable-of env now lic s good)
]

some-pairing_issuable :
    (env : Env) (now : ℕ) (p : Pairing) (s : Store) (lic : License)
    → get p.license_id s.licenses ≡ some lic
    → IsIssuable env now lic s
    → pairing_issuable env now p s ≡ some lic
unfolding pairing_issuable
some-pairing_issuable env now p s lic e h = ground (arith, of_IsIssuable env now lic s h)

-- The steps of the handler, read back from its success.
issue_steps :
    (env : Env) (now : ℕ) (secret : String) (req : TokenReq) (w : World) {r : World × TokenResp}
    → handle_issue_token env now secret (some req) w ≡ going r
    → (t : Entitled env now secret req w.store) × (issue_token_pair env now t.caller.account_id t.p
          t.d t.lic w
        ≡ going r)
unfolding handle_issue_token
issue_steps env now secret req w h =
    let (caller, a, h1) =
      need-going w (authenticate_account_or_pair env now secret w.store) 401 "unauthorized" _ h in
    let (formed, h2) = require-going w (well_formed req) 400 "bad_request" _ h1 in
    let (covered, h3) =
      require-going w (credential_covers req caller.credential) 403 "pairing_invalid" _ h2 in
    let (p, there, h4) =
      need-going w (get req.pair_id w.store.pairings) 403 "pairing_invalid" _ h3 in
    let (owned, h5) =
      require-going w (str_eq p.account_id caller.account_id && is_pairing_active p.status) 403
        "pairing_invalid" _ h4 in
    let (d, known, h6) =
      need-going w (get req.device_id w.store.devices) 403 "device_invalid" _ h5 in
    let (mine, h7) =
      require-going w (str_eq d.account_id caller.account_id) 403 "device_invalid" _ h6 in
    let (member, h8) = require-going w (pairing_has_device p d) 403 "device_not_in_pairing" _ h7 in
    let (lic, good, h9) =
      need-going w (pairing_issuable env now p w.store) 403 "license_invalid" _ h8 in
    let licensed = pairing_issuable-some env now p w.store lic good in
    (
      record {
        caller = caller;
        p = p;
        d = d;
        lic = lic;
        authenticated = a;
        formed = formed;
        covered = covered;
        pairing_there = there;
        pairing_owned = ground (arith, eq_iff p.account_id caller.account_id);
        pairing_live = ground arith;
        device_there = known;
        device_owned = ground (arith, eq_iff d.account_id caller.account_id);
        member = (IsMember_iff p d).0 member;
        license_there = licensed.0;
        license_good = licensed.1;
      },
      h9,
    )

Entitled-steps :
    (env : Env) (now : ℕ) (secret : String) (req : TokenReq) (w : World)
    → (t : Entitled env now secret req w.store)
    → handle_issue_token env now secret (some req) w
      ≡ issue_token_pair env now t.caller.account_id t.p t.d t.lic w
unfolding handle_issue_token
Entitled-steps env now secret req w t =
    let owned : (str_eq t.p.account_id t.caller.account_id && is_pairing_active t.p.status) ≡ true =
      ground (arith, t.pairing_owned, t.pairing_live, eq_iff t.p.account_id t.caller.account_id) in
    let mine : str_eq t.d.account_id t.caller.account_id ≡ true =
      (eq_iff t.d.account_id t.caller.account_id).1 t.device_owned in
    let member = (IsMember_iff t.p t.d).1 t.member in
    let license = some-pairing_issuable env now t.p w.store t.lic t.license_there t.license_good in
    rw (t.authenticated, t.formed, t.covered, t.pairing_there, t.device_there, member, license)
      (rw (owned, mine))

abbrev claims_for : Env → ℕ → String → Pairing → Device → License → World → Claims
claims_for env now account p d lic w = record {
  issuer = env.issuer;
  audience = env.audience ∷ [];
  subject = cat "device:" d.id;
  id = env.rand w.drawn;
  issued_at = some (now / second);
  expires_at = some ((now + env.token_ttl) / second);
  account_id = account;
  pair_id = p.pair_id;
  device_id = d.id;
  role = d.role;
  license_id = lic.id;
}

-- The claims that the relay will read from a token issued for a pairing, a device and a license.
pub record Certifies (c : Claims) (env : Env) (now : ℕ) (account : String) (p : Pairing)
    (d : Device) (lic : License) : Type 0 where
  pub for_issuer : c.issuer ≡ env.issuer
  pub for_audience : c.audience ≡ env.audience ∷ []
  pub for_account : c.account_id ≡ account
  pub for_pair : c.pair_id ≡ p.pair_id
  pub for_device : c.device_id ≡ d.id
  pub for_role : c.role ≡ d.role
  pub for_license : c.license_id ≡ lic.id
  pub until : c.expires_at ≡ some ((now + env.token_ttl) / second)

pub minted :
    (env : Env) (now : ℕ) (account : String) (p : Pairing) (d : Device) (lic : License) (w : World)
    {r : World × TokenResp}
    → issue_token_pair env now account p d lic w ≡ going r
    → (c : Claims) × (env.sign c ≡ some r.1.token) × Certifies c env now account p d lic
unfolding issue_token_pair mint
minted env now account p d lic w {r} h =
    let (jwt, signed, h1) = need-going (draw w) _ 500 "sign_error" _ h in
    let claims : Claims = claims_for env now account p d lic w in
    let same : jwt ≡ r.1.token = ground arith in
    (
      claims,
      signed ∙ ap some same,
      record {
        for_issuer = refl;
        for_audience = refl;
        for_account = refl;
        for_pair = refl;
        for_device = refl;
        for_role = refl;
        for_license = refl;
        until = refl;
      },
    )

-- A token is issued only to an entitled caller, and the signed claims are those of the caller's
-- account, the pairing, the device, its role and the license.
pub issue_sound :
    (env : Env) (now : ℕ) (secret : String) (req : TokenReq) (w : World) (r : World × TokenResp)
    → handle_issue_token env now secret (some req) w ≡ going r
    → (t : Entitled env now secret req w.store) × (c : Claims) × (env.sign c ≡ some r.1.token)
      × Certifies c env now t.caller.account_id t.p t.d t.lic
issue_sound env now secret req w r h =
    let (t, h1) = issue_steps env now secret req w h in
    let (c, signed, certified) = minted env now t.caller.account_id t.p t.d t.lic w h1 in
    (t, c, signed, certified)

pub issue_token_pair-going :
    (env : Env) (now : ℕ) (account : String) (p : Pairing) (d : Device) (lic : License) (w : World)
    → ((c : Claims) → (jwt : String) × (env.sign c ≡ some jwt))
    → (r : World × TokenResp) × (issue_token_pair env now account p d lic w ≡ going r)
unfolding issue_token_pair mint
issue_token_pair-going env now account p d lic w signs =
    let claims : Claims = claims_for env now account p d lic w in
    let (jwt, e) = signs claims in
    let v : World = draw w in
    (
      (
        draw (with_store v (put_refresh_token (refresh_row env now account p d v) v.store)),
        record {
          token = jwt;
          refresh_token = new_id env "rt" v;
          expires_in = env.token_ttl / second;
        },
      ),
      rw e,
    )

-- If every signature succeeds, every entitled caller gets a token.
pub issue_complete :
    (env : Env) (now : ℕ) (secret : String) (req : TokenReq) (w : World)
    → ((c : Claims) → (jwt : String) × (env.sign c ≡ some jwt))
    → Entitled env now secret req w.store
    → (r : World × TokenResp) × (handle_issue_token env now secret (some req) w ≡ going r)
issue_complete env now secret req w signs t =
    let (r, e) = issue_token_pair-going env now t.caller.account_id t.p t.d t.lic w signs in
    (r, Entitled-steps env now secret req w t ∙ e)

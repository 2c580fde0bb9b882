-- ===== src/Access.antt =====
-- Who calls: auth, tokenForClient, roles, hasRole and isConfiguredAdmin of cmd/api/main.go. A middleware
-- either refuses with a status and a message or passes the identity on.
pub mod Guards
pub mod Admin
use daiki_aipass_backend.Prelude.{
  ℕ, zero, suc, String, Option, some, none, Bool, true, false, not, ◌&&◌, ◌||◌, str_eq,
  if◌then◌else◌, to_lower, trim_space, List, [], ◌∷◌, ◌++◌, ◌==◌,
}
use Prim.Native.Char.{code}

-- The `aud` of a token: a text, a list in which texts may stand, or anything else.
pub data Audience : Type 0 where
  single : String → Audience
  several : List (Option String) → Audience
  other : Audience

pub record Claims : Type 0 where
  pub sub : String
  pub email : String
  pub email_verified : Bool
  pub authorized_party : String
  pub audience : Audience
  pub identity_provider : String
  pub realm_roles : List String
  -- ResourceAccess, a map from clients to their roles.
  pub resource_access : List (String × List String)

pub record User : Type 0 where
  pub subject : String
  pub user_email : String
  pub status : String
  pub user_roles : List String

pub record Principal : Type 0 where
  pub auth_kind : String
  pub api_key_id : String
  pub scopes : List String

-- What the context of a request holds after auth.
pub record Identity : Type 0 where
  pub claims : Claims
  pub user : User
  pub principal : Principal

pub record Config : Type 0 where
  pub client_id : String
  pub admin_email : String

pub data Verdict {ℓ} (A : Type ℓ) : Type ℓ where
  refused : ℕ → String → Verdict A
  passed : A → Verdict A

-- The verifier and the store; `none` is an error.
pub record Directory : Type 0 where
  pub has_store : Bool
  -- AuthenticateAPIKey, of the token's hash: the id and the scopes of the key, and its user.
  pub authenticate_api_key : String → Option (String × List String × User)
  -- Verify and Claims.
  pub verify : String → Option (Option Claims)
  -- UpsertLogin
  pub upsert_login : Claims → List String → Option User
  -- SetUserStatus of a configured administrator.
  pub approve : String → Option User

abbrev pub is_member : String → List String → Bool
is_member x [] = false
is_member x (y ∷ ys) = str_eq y x || is_member x ys

names_client : String → List (Option String) → Bool
names_client client [] = false
names_client client (none ∷ rest) = names_client client rest
names_client client (some s ∷ rest) = str_eq s client || names_client client rest

-- tokenForClient
unfoldable pub token_for_client : Claims → String → Bool
unfolding names_client
token_for_client c client =
    let by_audience : Bool = elim c.audience [
      | single aud ↦ str_eq aud client
      | several aud ↦ names_client client aud
      | other ↦ false
    ] in
    if str_eq client "" then false else str_eq c.authorized_party client || by_audience

roles_of : List (String × List String) → String → List String
roles_of [] client = []
roles_of ((name, xs) ∷ rest) client =
    let later = roles_of rest client in if str_eq name client then xs else later

-- roles
unfoldable pub roles : Claims → String → List String
unfolding roles_of
roles c client = c.realm_roles ++ roles_of c.resource_access client

has_any_of : List String → List String → Bool
has_any_of [] want = false
has_any_of (r ∷ rs) want = is_member r want || has_any_of rs want

-- hasRole
unfoldable pub has_role : Claims → String → List String → Bool
unfolding roles has_any_of
has_role c client want = has_any_of (roles c client) want

-- isConfiguredAdmin; strings.EqualFold of texts with ASCII letters.
unfoldable pub is_configured_admin : Config → Claims → Bool
unfolding to_lower trim_space
is_configured_admin cfg c =
    not (str_eq cfg.admin_email "")
    && c.email_verified
    && str_eq (to_lower (trim_space c.email)) (to_lower cfg.admin_email)

-- What follows the prefix of `lower`, if it is a prefix.
after_prefix : String → String → Option String
after_prefix String.[] s = some s
after_prefix (String.◌∷◌ a p) String.[] = none
after_prefix (String.◌∷◌ a p) (String.◌∷◌ b s) =
    let rest = after_prefix p s in if code a == code b then rest else none

drop_chars : ℕ → String → String
drop_chars zero s = s
drop_chars (suc n) String.[] = String.[]
drop_chars (suc n) (String.◌∷◌ c s) = drop_chars n s

-- bearer
unfoldable pub bearer : String → String
unfolding after_prefix drop_chars to_lower trim_space
bearer header = elim (after_prefix "bearer " (to_lower header)) [
  | some rest ↦ trim_space (drop_chars 7 header)
  | none ↦ ""
]

-- Whether a token is an API key.
unfoldable pub is_api_key : String → Bool
unfolding after_prefix
is_api_key token = elim (after_prefix "dk_" token) [ some rest ↦ true | none ↦ false ]

-- The claims that auth makes up for the user of an API key.
abbrev pub key_claims : User → Claims
key_claims u = record {
  sub = u.subject;
  email = u.user_email;
  email_verified = false;
  authorized_party = "";
  audience = other;
  identity_provider = "";
  realm_roles = u.user_roles;
  resource_access = [];
}

abbrev key_identity : String × List String × User → Identity
key_identity (id, scopes, u) = record {
  claims = key_claims u;
  user = u;
  principal = record { auth_kind = "api_key"; api_key_id = id; scopes = scopes };
}

abbrev token_identity : Claims → User → Identity
token_identity c u = record {
  claims = c;
  user = u;
  principal = record { auth_kind = "oidc"; api_key_id = ""; scopes = [] };
}

-- The approval of a configured administrator, which may fail.
abbrev or_user : User → Option User → User
or_user u none = u
or_user u (some approved) = approved

abbrev pub key_verdict : Option (String × List String × User) → Verdict Identity
key_verdict none = refused 401 "invalid api key"
key_verdict (some found) = passed (key_identity found)

unfoldable pub auth_key : Directory → String → Verdict Identity
auth_key dir token =
    if not dir.has_store
    then refused 503 "identity store unavailable"
    else key_verdict (dir.authenticate_api_key token)

-- What the store knows of the user; a configured administrator is approved.
abbrev pub login_verdict : Config → Directory → Claims → Option User → Verdict Identity
login_verdict cfg dir c none = refused 503 "identity store unavailable"
login_verdict cfg dir c (some u) = passed (
    token_identity c (
      if is_configured_admin cfg c && not (str_eq u.status "approved")
      then or_user u (dir.approve c.sub)
      else u))

-- The rest of auth for a token that is verified.
unfoldable pub auth_claims : Config → Directory → Claims → Verdict Identity
unfolding token_for_client roles is_configured_admin
auth_claims cfg dir c =
    if not (token_for_client c cfg.client_id)
    then refused 401 "token client mismatch"
    else if not dir.has_store
    then refused 503 "identity store unavailable"
    else login_verdict cfg dir c (dir.upsert_login c (roles c cfg.client_id))

abbrev pub token_verdict : Config → Directory → Option (Option Claims) → Verdict Identity
token_verdict cfg dir none = refused 401 "invalid token"
token_verdict cfg dir (some none) = refused 401 "invalid claims"
token_verdict cfg dir (some (some c)) = auth_claims cfg dir c

unfoldable pub auth_token : Config → Directory → String → Verdict Identity
unfolding auth_claims
auth_token cfg dir token = token_verdict cfg dir (dir.verify token)

-- auth, of the header Authorization.
unfoldable pub auth : Config → Directory → String → Verdict Identity
unfolding auth_key auth_token bearer is_api_key
auth cfg dir header =
    let token = bearer header in
    if str_eq token ""
    then refused 401 "missing bearer token"
    else if is_api_key token
    then auth_key dir token
    else auth_token cfg dir token

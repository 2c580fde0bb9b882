-- ===== src/Access/Guards.antt =====
-- Who may call what: adminOnly of cmd/api/main.go, and approvalRequired, chatAccess, hasPrincipalScope
-- and requirePrincipalScope of cmd/api/access.go, each after auth.
use daiki_aipass_backend.Prelude.{
  String, Bool, true, not, ◌&&◌, ◌||◌, str_eq, if◌then◌else◌, [], ◌∷◌,
}
use daiki_aipass_backend.Access.{
  Principal, Identity, Config, Verdict, refused, passed, is_member, has_role, is_configured_admin,
}

-- adminOnly, after auth.
unfoldable pub admin_only : Config → Identity → Verdict Identity
unfolding has_role is_configured_admin
admin_only cfg i =
    if not (str_eq i.user.status "approved")
    then refused 403 "admin_access_requires_approval"
    else if str_eq i.principal.auth_kind "api_key"
    then refused 403 "admin API requires interactive OIDC"
    else if not (has_role i.claims cfg.client_id ("ai-admin" ∷ "admin" ∷ []))
        && not (is_configured_admin cfg i.claims)
    then refused 403 "admin role required"
    else passed i

-- approvalRequired, after auth.
unfoldable pub approval_required : Identity → Verdict Identity
approval_required i =
    if not (str_eq i.user.status "approved") then refused 403 "access_not_approved" else passed i

-- chatAccess, after auth.
unfoldable pub chat_access : Identity → Verdict Identity
chat_access i =
    if str_eq i.user.status "approved"
    then passed i
    else if str_eq i.user.status "pending"
    then (if not (str_eq i.principal.auth_kind "oidc")
        then refused 403 "pending_chat_requires_interactive_login"
        else passed i)
    else refused 403 "access_not_approved"

-- hasPrincipalScope
unfoldable pub has_principal_scope : Principal → String → Bool
has_principal_scope p want =
    if not (str_eq p.auth_kind "api_key")
    then true
    else is_member "*" p.scopes || is_member want p.scopes

-- requirePrincipalScope, after auth.
unfoldable pub require_principal_scope : String → Identity → Verdict Identity
unfolding has_principal_scope
require_principal_scope scope i =
    if not (has_principal_scope i.principal scope)
    then refused 403 "api key scope required"
    else passed i

infixl 5 ◌then◌
-- A middleware around the next.
abbrev pub ◌then◌ : Verdict Identity → (Identity → Verdict Identity) → Verdict Identity
refused status message then f = refused status message
passed i then f = f i

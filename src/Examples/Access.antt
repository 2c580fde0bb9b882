-- ===== src/Examples/Access.antt =====
-- Concrete inputs of the results on access.
use daiki_aipass_backend.Prelude.{Ensures, refl, ◌≡◌, some, none, true, false, str_eq, [], ◌∷◌}
use daiki_aipass_backend.Prelude.Int.{pos}
use daiki_aipass_backend.Guest.Policy.{default_guest_access_policy}
use daiki_aipass_backend.Guest.Chat.{ResearchFields, message, restrict_guest_chat}
use daiki_aipass_backend.Guest.Chat.Turns.{IsGuestChat, restrict_guest_chat-IsGuestChat}
use daiki_aipass_backend.Payload.{
  Json, array, element, stop, object, text, number, member, close, Codec,
}
use daiki_aipass_backend.Quota.Effective.{PendingConfig, sent, restrict_pending_chat}
use daiki_aipass_backend.Quota.Effective.Pending.{
  IsPendingOutcome, restrict_pending_chat-IsRestricted,
}
use daiki_aipass_backend.Access.{Claims, other, User, Identity, Config, Directory, passed, auth}
use daiki_aipass_backend.Access.Guards.{admin_only, ◌then◌}
use daiki_aipass_backend.Access.Admin.{Passes, IsAdmin, admin_only-IsAdmin}

abbrev config : Config
config = record { client_id = "web"; admin_email = "" }

abbrev ada : User
ada = record { subject = "ada"; user_email = "ada@x"; status = "approved"; user_roles = [] }

abbrev ada_claims : Claims
ada_claims = record {
  sub = "ada";
  email = "ada@x";
  email_verified = true;
  authorized_party = "web";
  audience = other;
  identity_provider = "";
  realm_roles = "admin" ∷ [];
  resource_access = [];
}

abbrev directory : Directory
directory = record {
  has_store = true;
  authenticate_api_key = λ token. some ("k1", [], ada);
  verify = λ token. some (some ada_claims);
  upsert_login = λ c rs. some ada;
  approve = λ subject. none;
}

key_is_refused : Passes (λ i. ⊥) (auth config directory "Bearer dk_1" then admin_only config)
unfolding auth admin_only
key_is_refused = tt

admin_only-IsAdmin_example :
    Passes
      (IsAdmin config directory "Bearer t")
      (auth config directory "Bearer t" then admin_only config)
    × ((i : Identity)
        → str_eq i.principal.auth_kind "api_key" ≡ false
        → IsAdmin config directory "Bearer t" i
        → admin_only config i ≡ passed i)
admin_only-IsAdmin_example = admin_only-IsAdmin config directory "Bearer t"

abbrev pending_config : PendingConfig
pending_config = record {
  token_limit = pos 8000;
  requests_per_hour = pos 10;
  min_interval_seconds = pos 30;
  max_completion_tokens = "512";
}

abbrev deep_chat : Codec
deep_chat = record {
  decode =
      λ body. some (object (member "model" (text "deep") (member "max_tokens" (text "9") close)));
  encode = λ v. none;
}

deep_chat_restricted :
    restrict_pending_chat pending_config deep_chat "{}"
    ≡ sent (
        object (member "model" (text "fast") (member "max_completion_tokens" (number "512") close)))
unfolding restrict_pending_chat
deep_chat_restricted = refl

restrict_pending_chat-IsRestricted_example :
    IsPendingOutcome pending_config deep_chat "{}"
      (restrict_pending_chat pending_config deep_chat "{}")
restrict_pending_chat-IsRestricted_example =
    restrict_pending_chat-IsRestricted pending_config deep_chat "{}"

abbrev no_research : ResearchFields
no_research = record {
  region = λ ms. "";
  locale = λ ms. "";
  scope = λ ms. text "auto";
  depth = λ ms. text "auto";
  focus = λ ms. "";
}

abbrev guest_request : Json
guest_request = object (
    member "messages" (array (element (message "user" "hi") stop))
      (member "model" (text "deep") close))

restrict_guest_chat-IsGuestChat_example :
    Ensures
      (IsGuestChat no_research default_guest_access_policy)
      (restrict_guest_chat no_research default_guest_access_policy (some guest_request))
restrict_guest_chat-IsGuestChat_example =
    restrict_guest_chat-IsGuestChat no_research default_guest_access_policy (some guest_request)

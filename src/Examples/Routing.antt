-- ===== src/Examples/Routing.antt =====
-- Concrete inputs of the results on routes and guest policies.
use daiki_aipass_backend.Prelude.{ok, ◌≡◌, refl, [], ◌∷◌, to_lower, trim_space, contains}
use daiki_aipass_backend.Prelude.Int.{pos}
use daiki_aipass_backend.Inference.Queue.{deep}
use daiki_aipass_backend.Inference.Router.{
  Route, ChatEnvelope, object, routed, new_router, route_chat, has_image, alias_of, choose_route,
  physical_model_of,
}
use daiki_aipass_backend.Inference.Router.Routes.{IsNamed, IsRoute, route_chat-IsRoute}
use daiki_aipass_backend.Guest.Policy.{default_guest_access_policy, validate_guest_access_policy}
use daiki_aipass_backend.Guest.Policy.Accepted.{validate_guest_access_policy-accepts}
use daiki_aipass_backend.Guest.Policy.Valid.{
  IsGuestPolicy, validate_guest_access_policy-IsGuestPolicy, default_guest_access_policy-accepted,
}

abbrev deep_chat : ChatEnvelope
deep_chat = record {
  model = "deep";
  max_tokens = pos 100;
  max_completion_tokens = pos 0;
  messages = "\"hello\"" ∷ [];
}

abbrev deep_route : Route
deep_route = record {
  alias = "deep";
  resolved_alias = "deep";
  workload = deep;
  physical_model = "big";
  priority = 4;
}

deep_lem : route_chat (new_router "" "" "big" "disabled") 200 (object deep_chat) ≡ routed deep_route
unfolding route_chat new_router choose_route has_image physical_model_of alias_of to_lower
    trim_space contains
deep_lem = refl

route_chat-IsRoute_example :
    IsRoute "" "" "big" "disabled" 200 deep_chat deep_route
    × IsNamed deep_chat.model deep_route.alias
route_chat-IsRoute_example =
    route_chat-IsRoute "" "" "big" "disabled" 200 deep_chat deep_route deep_lem

validate_guest_access_policy-IsGuestPolicy_example : IsGuestPolicy default_guest_access_policy
validate_guest_access_policy-IsGuestPolicy_example =
    validate_guest_access_policy-IsGuestPolicy default_guest_access_policy
      default_guest_access_policy default_guest_access_policy-accepted

validate_guest_access_policy-accepts_example :
    validate_guest_access_policy default_guest_access_policy ≡ ok default_guest_access_policy
unfolding default_guest_access_policy trim_space
validate_guest_access_policy-accepts_example =
    validate_guest_access_policy-accepts default_guest_access_policy
      (validate_guest_access_policy-IsGuestPolicy default_guest_access_policy
        default_guest_access_policy default_guest_access_policy-accepted)
      refl

-- ===== src/Inference/Router.antt =====
-- internal/inference/router.go: NewRouter and RouteChat. A body is what Unmarshal makes of it; a
-- message is the raw text of its content.
pub mod Routes
pub mod Answered
use daiki_aipass_backend.Prelude.{
  ℕ, String, Option, none, some, Bool, true, false, ◌||◌, List, [], ◌∷◌, str_eq, ltb, if◌then◌else◌,
  to_lower, trim_space, contains, Result, ok, err,
}
use daiki_aipass_backend.Prelude.Int.{ℤ, pos, ltb_ℤ}
use daiki_aipass_backend.Inference.Queue.{Workload, fast, deep, vision}

pub record Route : Type 0 where
  pub alias : String
  pub resolved_alias : String
  pub workload : Workload
  pub physical_model : String
  pub priority : ℕ

-- The entries of the map of models.
pub record Router : Type 0 where
  pub fast_model : String
  pub balanced_model : String
  pub deep_model : String
  pub vision_model : String

abbrev pub or_else : String → String → String
or_else given standard = if str_eq given "" then standard else given

unfoldable pub new_router : String → String → String → String → Router
new_router given_fast given_balanced given_deep given_vision =
    let f = or_else given_fast "qwen-local" in
    let b = or_else given_balanced f in
    record {
      fast_model = f;
      balanced_model = b;
      deep_model = or_else given_deep b;
      vision_model = if str_eq given_vision "disabled" then "" else given_vision;
    }

pub record ChatEnvelope : Type 0 where
  pub model : String
  pub max_tokens : ℤ
  pub max_completion_tokens : ℤ
  pub messages : List String

-- A body that Unmarshal refuses, the JSON text `null`, which it reads as no fields and no map, or an object.
pub data Body : Type 0 where
  invalid : Body
  null : Body
  object : ChatEnvelope → Body

-- RouteChat returns a route, whose model the rewritten body names, or an error; or it panics.
pub data Outcome : Type 0 where
  routed : Route → Outcome
  failed : String → Outcome
  panics : Outcome

unfoldable pub has_image : List String → Bool
has_image [] = false
has_image (m ∷ ms) = contains m "\"image_url\"" || contains m "\"input_image\"" || has_image ms

-- `resolved`, `workload` and `priority`
pub record Choice : Type 0 where
  pub resolved : String
  pub workload : Workload
  pub priority : ℕ

abbrev pub choose : String → Workload → ℕ → Result Choice
choose resolved workload priority =
    ok record { resolved = resolved; workload = workload; priority = priority }

abbrev pub is_large : ℕ → ChatEnvelope → Bool
is_large bytes e =
    ltb 12_000 bytes || ltb_ℤ (pos 4096) e.max_tokens || ltb_ℤ (pos 4096) e.max_completion_tokens

unfoldable pub choose_route : ℕ → ChatEnvelope → String → Result Choice
choose_route bytes e alias =
    if has_image e.messages
    then choose "vision" vision 6
    else if str_eq alias "auto"
    then (if is_large bytes e then choose "deep" deep 4 else choose "fast" fast 5)
    else if str_eq alias "fast"
    then choose "fast" fast 6
    else if str_eq alias "balanced"
    then choose "balanced" fast 5
    else if str_eq alias "deep"
    then choose "deep" deep 4
    else err "unsupported model alias; use auto, fast, balanced, or deep"

-- `r.models[resolved]`; a missing key reads "".
unfoldable pub physical_model_of : Router → String → String
physical_model_of r resolved =
    if str_eq resolved "fast"
    then r.fast_model
    else if str_eq resolved "balanced"
    then r.balanced_model
    else if str_eq resolved "deep"
    then r.deep_model
    else if str_eq resolved "vision"
    then r.vision_model
    else ""

unfoldable pub alias_of : ChatEnvelope → String
alias_of e = let alias = to_lower (trim_space e.model) in if str_eq alias "" then "auto" else alias

abbrev pub route_of : Router → String → Choice → Route
route_of r alias c = record {
  alias = alias;
  resolved_alias = c.resolved;
  workload = c.workload;
  physical_model = physical_model_of r c.resolved;
  priority = c.priority;
}

-- The end of RouteChat; `has_map` tells whether the second Unmarshal made a map.
finish_route : Router → String → Bool → Result Choice → Outcome
finish_route r alias has_map (err e) = failed e
finish_route r alias has_map (ok c) =
    let physical = physical_model_of r c.resolved in
    if str_eq physical ""
    then failed "route unavailable"
    else if has_map
    then routed (route_of r alias c)
    else panics

abbrev no_envelope : ChatEnvelope
no_envelope = record {
  model = "";
  max_tokens = pos 0;
  max_completion_tokens = pos 0;
  messages = [];
}

-- `bytes` is the length of the body.
unfoldable pub route_chat : Router → ℕ → Body → Outcome
unfolding finish_route
route_chat r bytes invalid = failed "invalid chat payload"
route_chat r bytes null =
    finish_route r (alias_of no_envelope) false
      (choose_route bytes no_envelope (alias_of no_envelope))
route_chat r bytes (object e) = finish_route r (alias_of e) true (choose_route bytes e (alias_of e))

-- ===== src/Inference/Router/Answered.antt =====
-- Which chats RouteChat (Inference/Router) routes.
use daiki_aipass_backend.Prelude.{
  false_ne_true, ℕ, ◌≡◌, refl, ◌∙◌, sym, inl, inr, String, Bool, true, false, ◌||◌, str_eq, Result,
  ok, err, arith, if_both, if_cases, Bool-cases,
}
use daiki_aipass_backend.Inference.Router.{
  Route, Router, new_router, ChatEnvelope, object, routed, has_image, Choice, or_else, route_of,
  choose_route, physical_model_of, alias_of, route_chat, finish_route, is_large,
}

abbrev pub is_text_alias : String → Bool
is_text_alias a = str_eq a "fast" || str_eq a "balanced" || str_eq a "deep"

abbrev Chosen : Result Choice → Type 0
Chosen (err m) = ⊥
Chosen (ok c) = is_text_alias c.resolved ≡ true

choose_route-Chosen :
    (bytes : ℕ) (e : ChatEnvelope) (alias : String)
    → has_image e.messages ≡ false
    → (str_eq alias "auto" || is_text_alias alias) ≡ true
    → Chosen (choose_route bytes e alias)
unfolding choose_route
choose_route-Chosen bytes e alias text known =
    if_cases Chosen (has_image e.messages) (λ i. absurd (false_ne_true (sym text ∙ i)))
      λ _.
        if_cases Chosen (str_eq alias "auto") (λ _. if_both Chosen (is_large bytes e) refl refl)
          λ h1.
            if_cases Chosen (str_eq alias "fast") (λ _. refl)
              λ h2.
                if_cases Chosen (str_eq alias "balanced") (λ _. refl)
                  λ h3. if_cases Chosen (str_eq alias "deep") (λ _. refl) λ h4. ground arith

or_else_set :
    (given standard : String)
    → str_eq standard "" ≡ false
    → str_eq (or_else given standard) "" ≡ false
or_else_set given standard h = elim (Bool-cases (str_eq given "")) [
  | inl e ↦ rw e h
  | inr e ↦ rw e e
]

new_router_set :
    (f b d v resolved : String)
    → is_text_alias resolved ≡ true
    → str_eq (physical_model_of (new_router f b d v) resolved) "" ≡ false
unfolding physical_model_of new_router
new_router_set f b d v resolved h =
    let P = λ (s : String). str_eq s "" ≡ false in
    let f_set = or_else_set f "qwen-local" refl in
    let b_set = or_else_set b (or_else f "qwen-local") f_set in
    if_cases P (str_eq resolved "fast") (λ _. f_set)
      λ h1.
        if_cases P (str_eq resolved "balanced") (λ _. b_set)
          λ h2.
            if_cases P (str_eq resolved "deep")
              (λ _. or_else_set d (or_else b (or_else f "qwen-local")) b_set)
              λ h3. absurd (false_ne_true (ground arith))

finish_routed :
    (r : Router) (alias : String) (c : Result Choice)
    → Chosen c
    → ((resolved : String)
        → is_text_alias resolved ≡ true
        → str_eq (physical_model_of r resolved) "" ≡ false)
    → (route : Route) × (finish_route r alias true c ≡ routed route)
unfolding finish_route
finish_routed r alias (err m) h set = absurd h
finish_routed r alias (ok c) h set = (route_of r alias c, rw (finish_route, set c.resolved h))

-- The fast, balanced and deep models of a new router are never empty, so that a chat without an
-- image, whose alias is one of the router's, is routed.
pub new_router-routes :
    (f b d v : String) (bytes : ℕ) (e : ChatEnvelope)
    → has_image e.messages ≡ false
    → (str_eq (alias_of e) "auto" || is_text_alias (alias_of e)) ≡ true
    → (route : Route) × (route_chat (new_router f b d v) bytes (object e) ≡ routed route)
unfolding route_chat
new_router-routes f b d v bytes e text known =
    finish_routed (new_router f b d v) (alias_of e) (choose_route bytes e (alias_of e))
      (choose_route-Chosen bytes e (alias_of e) text known) (new_router_set f b d v)

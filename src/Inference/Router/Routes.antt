-- ===== src/Inference/Router/Routes.antt =====
-- What RouteChat (Inference/Router) promises of its routes.
use daiki_aipass_backend.Prelude.{
  if◌then◌else◌, eq_iff, to_lower, trim_space, false_ne_true, ℕ, ◌≡◌, refl, ◌∙◌, sym, ◌⊎◌, inl, inr,
  ◌<◌, String, List, [], ◌∷◌, contains, Occurs, contains-Occurs, Occurs-contains, true, false,
  str_eq, Result, ok, err, arith, if_cases, subst, Bool-cases,
}
use daiki_aipass_backend.Prelude.Int.{pos, ◌<ℤ◌}
use daiki_aipass_backend.Inference.Queue.{Workload, fast, deep, vision}
use daiki_aipass_backend.Inference.Router.{
  Route, Router, new_router, ChatEnvelope, object, Outcome, routed, has_image, Choice, choose,
  route_of, choose_route, physical_model_of, alias_of, route_chat, finish_route, is_large,
}

-- A message's text names an image part.
abbrev pub NamesImage : List String → Type 0
NamesImage [] = ⊥
NamesImage (m ∷ ms) = (Occurs "\"image_url\"" m ⊎ Occurs "\"input_image\"" m) ⊎ NamesImage ms

-- A body of more than 12000 bytes, or one that asks for more than 4096 tokens.
abbrev pub IsLong : ℕ → ChatEnvelope → Type 0
IsLong bytes e =
    (12_000 < bytes) ⊎ ((pos 4096 <ℤ e.max_tokens) ⊎ (pos 4096 <ℤ e.max_completion_tokens))

-- The first text that is not empty.
abbrev pub first_set : List String → String
first_set [] = ""
first_set (x ∷ xs) = let rest = first_set xs in if str_eq x "" then rest else x

pub record GoesTo (route : Route) (resolved : String) (queue : Workload) (rank : ℕ) (model : String)
    : Type 0 where
  pub resolves_to : route.resolved_alias ≡ resolved
  pub in_queue : route.workload ≡ queue
  pub ranked : route.priority ≡ rank
  pub served_by : route.physical_model ≡ model

-- Where the router of four configured models, each of which may be empty, sends a chat.
pub data IsRoute (f b d v : String) (bytes : ℕ) (e : ChatEnvelope) (route : Route) : Type 0 where
  image :
      NamesImage e.messages
      → str_eq v "" ≡ false
      → str_eq v "disabled" ≡ false
      → GoesTo route "vision" vision 6 v
      → IsRoute f b d v bytes e route
  long :
      ¬ (NamesImage e.messages)
      → route.alias ≡ "auto"
      → IsLong bytes e
      → GoesTo route "deep" deep 4 (first_set (d ∷ b ∷ f ∷ "qwen-local" ∷ []))
      → IsRoute f b d v bytes e route
  short :
      ¬ (NamesImage e.messages)
      → route.alias ≡ "auto"
      → ¬ (IsLong bytes e)
      → GoesTo route "fast" fast 5 (first_set (f ∷ "qwen-local" ∷ []))
      → IsRoute f b d v bytes e route
  asked_fast :
      ¬ (NamesImage e.messages)
      → route.alias ≡ "fast"
      → GoesTo route "fast" fast 6 (first_set (f ∷ "qwen-local" ∷ []))
      → IsRoute f b d v bytes e route
  asked_balanced :
      ¬ (NamesImage e.messages)
      → route.alias ≡ "balanced"
      → GoesTo route "balanced" fast 5 (first_set (b ∷ f ∷ "qwen-local" ∷ []))
      → IsRoute f b d v bytes e route
  asked_deep :
      ¬ (NamesImage e.messages)
      → route.alias ≡ "deep"
      → GoesTo route "deep" deep 4 (first_set (d ∷ b ∷ f ∷ "qwen-local" ∷ []))
      → IsRoute f b d v bytes e route

-- The model that was asked for without white space around it and in lower case, or "auto" for none.
abbrev pub IsNamed : String → String → Type 0
IsNamed model alias =
    let asked = to_lower (trim_space model) in
    ((asked ≡ "") × (alias ≡ "auto")) ⊎ ((str_eq asked "" ≡ false) × (alias ≡ asked))

alias_of-IsNamed : (e : ChatEnvelope) → IsNamed e.model (alias_of e)
unfolding alias_of
alias_of-IsNamed e =
    let asked = to_lower (trim_space e.model) in
    elim (Bool-cases (str_eq asked "")) [
      | inl h ↦ inl ((eq_iff asked "").0 h, rw h refl)
      | inr h ↦ inr (h, rw h refl)
    ]

has_image-NamesImage : (ms : List String) → has_image ms ≡ true → NamesImage ms
unfolding has_image
has_image-NamesImage [] h = absurd (false_ne_true h)
has_image-NamesImage (m ∷ ms) h = elim (Bool-cases (contains m "\"image_url\"")) [
  | inl e ↦ inl (inl (contains-Occurs m "\"image_url\"" e))
  | inr e ↦ elim (Bool-cases (contains m "\"input_image\"")) [
    | inl k ↦ inl (inr (contains-Occurs m "\"input_image\"" k))
    | inr k ↦ let later : has_image ms ≡ true = ground arith in inr (has_image-NamesImage ms later)
  ]
]

NamesImage-has_image : (ms : List String) → NamesImage ms → has_image ms ≡ true
unfolding has_image
NamesImage-has_image [] h = elim h [ ]
NamesImage-has_image (m ∷ ms) (inl (inl h)) =
    let found = Occurs-contains m "\"image_url\"" h in rw found refl
NamesImage-has_image (m ∷ ms) (inl (inr h)) =
    let found = Occurs-contains m "\"input_image\"" h in ground arith
NamesImage-has_image (m ∷ ms) (inr h) = let later = NamesImage-has_image ms h in ground arith

no_image : (ms : List String) → has_image ms ≡ false → ¬ (NamesImage ms)
no_image ms h named = false_ne_true (sym h ∙ NamesImage-has_image ms named)

is_large-IsLong : (bytes : ℕ) (e : ChatEnvelope) → is_large bytes e ≡ true → IsLong bytes e
is_large-IsLong bytes e h = ground arith

not-IsLong : (bytes : ℕ) (e : ChatEnvelope) → is_large bytes e ≡ false → ¬ (IsLong bytes e)
not-IsLong bytes e h = ground arith

module _ (f b d v : String) (bytes : ℕ) (e : ChatEnvelope) where
  abbrev Good : Router → String → Result Choice → Type 0
  Good r alias (err m) = Unit
  Good r alias (ok c) =
      str_eq (physical_model_of r c.resolved) "" ≡ false
      → IsRoute f b d v bytes e (route_of r alias c)

  abbrev given : Router
  given = new_router f b d v

  GoesTo-fast :
      (alias : String) (rank : ℕ)
      → GoesTo
          (route_of given alias record { resolved = "fast"; workload = fast; priority = rank })
          "fast"
          fast
          rank
          (first_set (f ∷ "qwen-local" ∷ []))
  unfolding new_router physical_model_of
  GoesTo-fast alias rank = record {
    resolves_to = refl;
    in_queue = refl;
    ranked = refl;
    served_by = refl;
  }

  GoesTo-balanced :
      (alias : String)
      → GoesTo
          (route_of given alias record { resolved = "balanced"; workload = fast; priority = 5 })
          "balanced"
          fast
          5
          (first_set (b ∷ f ∷ "qwen-local" ∷ []))
  unfolding new_router physical_model_of
  GoesTo-balanced alias = record {
    resolves_to = refl;
    in_queue = refl;
    ranked = refl;
    served_by = refl;
  }

  GoesTo-deep :
      (alias : String)
      → GoesTo
          (route_of given alias record { resolved = "deep"; workload = deep; priority = 4 })
          "deep"
          deep
          4
          (first_set (d ∷ b ∷ f ∷ "qwen-local" ∷ []))
  unfolding new_router physical_model_of
  GoesTo-deep alias = record {
    resolves_to = refl;
    in_queue = refl;
    ranked = refl;
    served_by = refl;
  }

  vision_set :
      (alias : String) → NamesImage e.messages → Good given alias (choose "vision" vision 6)
  unfolding new_router physical_model_of
  vision_set alias named set = elim (Bool-cases (str_eq v "disabled")) [
    | inl off ↦
        let empty : true ≡ false = sym (rw off refl) ∙ set in absurd (false_ne_true (sym empty))
    | inr on ↦
        let known : str_eq v "" ≡ false = sym (rw on refl) ∙ set in
        image named known on
          (record { resolves_to = refl; in_queue = refl; ranked = refl; served_by = rw on refl })
  ]

  choose_route-Good : (alias : String) → Good given alias (choose_route bytes e alias)
  unfolding choose_route
  choose_route-Good alias =
      if_cases (Good given alias) (has_image e.messages)
        (λ i. vision_set alias (has_image-NamesImage e.messages i))
        λ n.
          if_cases (Good given alias) (str_eq alias "auto")
            (λ auto.
              if_cases (Good given alias) (is_large bytes e)
                (λ l _.
                  long (no_image e.messages n) ((eq_iff alias "auto").0 auto)
                    (is_large-IsLong bytes e l) (GoesTo-deep alias))
                λ l _.
                  short (no_image e.messages n) ((eq_iff alias "auto").0 auto)
                    (not-IsLong bytes e l) (GoesTo-fast alias 5))
            λ _.
              if_cases (Good given alias) (str_eq alias "fast")
                (λ k _.
                  asked_fast (no_image e.messages n) ((eq_iff alias "fast").0 k)
                    (GoesTo-fast alias 6))
                λ _.
                  if_cases (Good given alias) (str_eq alias "balanced")
                    (λ k _.
                      asked_balanced (no_image e.messages n) ((eq_iff alias "balanced").0 k)
                        (GoesTo-balanced alias))
                    λ _.
                      if_cases (Good given alias) (str_eq alias "deep")
                        (λ k _.
                          asked_deep (no_image e.messages n) ((eq_iff alias "deep").0 k)
                            (GoesTo-deep alias))
                        λ _. tt

  abbrev Right : Route → Type 0
  Right route = IsRoute f b d v bytes e route × IsNamed e.model route.alias

  abbrev Routed : (Route → Type 0) → Outcome → Type 0
  Routed P (routed route) = P route
  Routed P _ = Unit

  finish_route-Routed :
      (c : Result Choice)
      → Good given (alias_of e) c
      → Routed Right (finish_route given (alias_of e) true c)
  unfolding finish_route
  finish_route-Routed (err m) g = tt
  finish_route-Routed (ok c) g =
      if_cases (Routed Right) (str_eq (physical_model_of given c.resolved) "") (λ _. tt)
        λ set. (g set, alias_of-IsNamed e)

  route_chat-Routed : Routed Right (route_chat given bytes (object e))
  unfolding route_chat
  route_chat-Routed =
      finish_route-Routed (choose_route bytes e (alias_of e)) (choose_route-Good (alias_of e))

  -- A route that RouteChat returns, of a router of four configured models: a chat one of whose
  -- messages' texts names an image part (`"image_url"` or `"input_image"`) goes to the vision model,
  -- which is configured and not "disabled". No other does: of the others, the alias "auto" goes to
  -- deep if the body is longer than 12000 bytes or asks for more than 4096 tokens, and to fast if
  -- not, and the aliases "fast", "balanced" and "deep" to themselves. Each goes to its queue with
  -- its priority, and is served by the first configured model in its chain of fallbacks: fast to
  -- "qwen-local", balanced to fast, deep to balanced. The alias is
  -- the model that was asked for, trimmed and in lower case, or "auto" if none was.
  pub route_chat-IsRoute :
      (route : Route)
      → route_chat (new_router f b d v) bytes (object e) ≡ routed route
      → IsRoute f b d v bytes e route × IsNamed e.model route.alias
  route_chat-IsRoute route h = subst (Routed Right) h route_chat-Routed

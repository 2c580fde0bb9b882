-- ===== src/Payload/Names/Distinct.antt =====
-- The names that Payload/Names collects are distinct, and none of them is empty.
use daiki_aipass_backend.Prelude.{
  false_ne_true, ◌≡◌, refl, sym, ◌∙◌, String, Option, some, none, Option-cases, Bool, false, not,
  ◌&&◌, ◌||◌, str_eq, str_eq_of_ne, eq_iff, if◌then◌else◌, if_cases, if_both, List, [], ◌∷◌, ◌++◌,
  inl, inr, arith, trim_space, contains,
}
use daiki_aipass_backend.Payload.{
  Json, Elements, object, array, text, number, boolean, nil, element, stop,
}
use daiki_aipass_backend.Payload.Names.{
  get, items_of, name_of, member_of, add_name, add_tools, requested_tool_names, add_field,
  add_capability, add_capabilities, collect, collect_keys, capability_names, add_calls, add_choices,
  collect_json, collect_lines, event_of, lines_of, response_tool_names,
}

-- No name is empty or stands twice.
abbrev pub AreNames : List String → Type 0
AreNames [] = Unit
AreNames (x ∷ xs) = (str_eq x "" ≡ false) × (member_of x xs ≡ false) × AreNames xs

other_order : (s t : String) → str_eq s t ≡ false → str_eq t s ≡ false
other_order s t h = str_eq_of_ne t s λ e. false_ne_true (sym h ∙ (eq_iff s t).1 (sym e))

or_false : (a b : Bool) → a ≡ false → b ≡ false → (a || b) ≡ false
or_false a b h k = ground arith

or_left : (a b : Bool) → (a || b) ≡ false → a ≡ false
or_left a b h = ground arith

or_right : (a b : Bool) → (a || b) ≡ false → b ≡ false
or_right a b h = ground arith

member_of-snoc :
    (x : String) (xs : List String) (y : String)
    → member_of x xs ≡ false
    → str_eq y x ≡ false
    → member_of x (xs ++ y ∷ []) ≡ false
member_of-snoc x [] y h k = rw k refl
member_of-snoc x (z ∷ zs) y h k =
    or_false (str_eq z x) (member_of x (zs ++ y ∷ [])) (or_left (str_eq z x) (member_of x zs) h)
      (member_of-snoc x zs y (or_right (str_eq z x) (member_of x zs) h) k)

snoc-AreNames :
    (xs : List String) (y : String)
    → AreNames xs
    → str_eq y "" ≡ false
    → member_of y xs ≡ false
    → AreNames (xs ++ y ∷ [])
snoc-AreNames [] y h p q = (p, refl, tt)
snoc-AreNames (x ∷ xs) y (n, d, h) p q = (
  n,
  member_of-snoc x xs y d (other_order x y (or_left (str_eq x y) (member_of y xs) q)),
  snoc-AreNames xs y h p (or_right (str_eq x y) (member_of y xs) q),
)

new_name-AreNames :
    (out rest : List String) (name : String)
    → AreNames out
    → AreNames rest
    → AreNames (if not (str_eq name "") && not (member_of name out) then out ++ name ∷ [] else rest)
new_name-AreNames out rest name h k =
    if_cases AreNames (not (str_eq name "") && not (member_of name out))
      (λ e. snoc-AreNames out name h (ground arith) (ground arith)) λ e. k

add_name-AreNames :
    (out : List String) (name : String) → AreNames out → AreNames (add_name out name)
unfolding add_name
add_name-AreNames out name h = new_name-AreNames out out name h h

add_tools-AreNames :
    (out : List String) (es : Elements) → AreNames out → AreNames (add_tools out es)
unfolding add_tools
add_tools-AreNames out stop h = h
add_tools-AreNames out (element item items) h =
    let f = name_of (get (get (some item) "function") "name") in
    let name = if str_eq f "" then name_of (get (some item) "name") else f in
    add_tools-AreNames (add_name out name) items (add_name-AreNames out name h)

add_field-AreNames :
    (out : List String) (y : Json) (fields : List String)
    → AreNames out
    → AreNames (add_field out y fields)
unfolding add_field
add_field-AreNames out y [] h = h
add_field-AreNames out y (field ∷ fields) h =
    new_name-AreNames out (add_field out y fields) (name_of (get (some y) field)) h
      (add_field-AreNames out y fields h)

add_capability-AreNames :
    (out : List String) (y : Json) → AreNames out → AreNames (add_capability out y)
unfolding add_capability
add_capability-AreNames out (text y) h = add_name-AreNames out y h
add_capability-AreNames out (object ms) h =
    add_field-AreNames out (object ms) ("name" ∷ "id" ∷ "server" ∷ "provider" ∷ []) h
add_capability-AreNames out (array es) h = h
add_capability-AreNames out (number s) h = h
add_capability-AreNames out (boolean b) h = h
add_capability-AreNames out nil h = h

add_capabilities-AreNames :
    (out : List String) (es : Elements) → AreNames out → AreNames (add_capabilities out es)
unfolding add_capabilities
add_capabilities-AreNames out stop h = h
add_capabilities-AreNames out (element y es) h =
    add_capabilities-AreNames (add_capability out y) es (add_capability-AreNames out y h)

collect-AreNames : (out : List String) (v : Option Json) → AreNames out → AreNames (collect out v)
unfolding collect
collect-AreNames out none h = h
collect-AreNames out (some (text x)) h = add_name-AreNames out x h
collect-AreNames out (some (array es)) h = add_capabilities-AreNames out es h
collect-AreNames out (some (object ms)) h = h
collect-AreNames out (some (number s)) h = h
collect-AreNames out (some (boolean b)) h = h
collect-AreNames out (some nil) h = h

collect_keys-AreNames :
    (payload : Json) (out keys : List String)
    → AreNames out
    → AreNames (collect_keys payload out keys)
unfolding collect_keys
collect_keys-AreNames payload out [] h = h
collect_keys-AreNames payload out (key ∷ keys) h =
    let top = get (some payload) key in
    let inner = get (get (some payload) "metadata") key in
    collect_keys-AreNames payload (collect (collect out top) inner) keys
      (collect-AreNames (collect out top) inner (collect-AreNames out top h))

add_calls-AreNames :
    (out : List String) (es : Elements) → AreNames out → AreNames (add_calls out es)
unfolding add_calls
add_calls-AreNames out stop h = h
add_calls-AreNames out (element call calls) h =
    let name = name_of (get (get (some call) "function") "name") in
    add_calls-AreNames (add_name out name) calls (add_name-AreNames out name h)

add_choices-AreNames :
    (out : List String) (es : Elements) → AreNames out → AreNames (add_choices out es)
unfolding add_choices
add_choices-AreNames out stop h = h
add_choices-AreNames out (element choice choices) h =
    let message = items_of (get (get (some choice) "message") "tool_calls") in
    let delta = items_of (get (get (some choice) "delta") "tool_calls") in
    add_choices-AreNames (add_calls (add_calls out message) delta) choices
      (add_calls-AreNames (add_calls out message) delta (add_calls-AreNames out message h))

module _ (decode : String → Option Json) where
  collect_json-AreNames :
      (out : List String) (body : String) → AreNames out → AreNames (collect_json decode out body)
  unfolding collect_json
  collect_json-AreNames out body h = elim (Option-cases (decode body)) [
    | inl e ↦ rw (collect_json, e) h
    | inr (v, e) ↦
        rw (collect_json, e) (add_choices-AreNames out (items_of (get (some v) "choices")) h)
  ]

  collect_lines-AreNames :
      (out lines : List String) → AreNames out → AreNames (collect_lines decode out lines)
  unfolding collect_lines
  collect_lines-AreNames out [] h = h
  collect_lines-AreNames out (line ∷ lines) h = elim (Option-cases (event_of line)) [
    | inl e ↦ rw (collect_lines, e) (collect_lines-AreNames out lines h)
    | inr (rest, e) ↦
        let body = trim_space rest in
        rw (collect_lines, e)
          (collect_lines-AreNames
            (if str_eq body "[DONE]" then out else collect_json decode out body) lines
            (if_both AreNames (str_eq body "[DONE]") h (collect_json-AreNames out body h)))
  ]

  -- The tools, skills, servers and connectors that are recorded of a request, and the tools that are
  -- recorded of its response, are lists in which no name is empty or stands twice.
  pub recorded-AreNames :
      (payload : Json) (keys : List String) (body : String)
      → AreNames (requested_tool_names payload)
        × AreNames (capability_names payload keys)
        × AreNames (response_tool_names decode body)
  unfolding requested_tool_names capability_names response_tool_names
  recorded-AreNames payload keys body = (
    add_tools-AreNames [] (items_of (get (some payload) "tools")) tt,
    collect_keys-AreNames payload [] keys tt,
    if_both AreNames (contains body "data:") (collect_lines-AreNames [] (lines_of body) tt)
        (collect_json-AreNames [] body tt),
  )

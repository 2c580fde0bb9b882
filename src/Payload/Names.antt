-- ===== src/Payload/Names.antt =====
-- The names that a request and its response mention: usageRequestMetadata, usageResponseMetadata,
-- requestedToolNames, capabilityNames, responseToolNames and reasoningTokensFromPayload of
-- cmd/api/usage_metadata.go. A body is its text; its decoding is a parameter.
pub mod Distinct
pub mod Metadata
use Prim.Native.Char.{Char, code}
use daiki_aipass_backend.Prelude.{
  ℕ, String, Option, some, none, Bool, true, false, not, ◌&&◌, ◌||◌, str_eq, ◌==◌, if◌then◌else◌,
  contains, trim_space, List, [], ◌∷◌, ◌++◌,
}
use daiki_aipass_backend.Prelude.Int.{ℤ, pos, is_pos}
use daiki_aipass_backend.Payload.{
  Json, Members, Elements, object, array, text, element, stop, member, close,
}

-- `payload[key]`
unfoldable pub find_member : Members → String → Option Json
find_member close key = none
find_member (member k v ms) key =
    let rest = find_member ms key in if str_eq k key then some v else rest

-- `x[key]` of `x, _ := v.(map[string]any)`
unfoldable pub get : Option Json → String → Option Json
unfolding find_member
get (some (object ms)) key = find_member ms key
get v key = none

-- `v.([]any)`
abbrev pub items_of : Option Json → Elements
items_of (some (array es)) = es
items_of v = stop

-- `name, _ := v.(string)`
abbrev pub name_of : Option Json → String
name_of (some (text s)) = s
name_of v = ""

abbrev pub member_of : String → List String → Bool
member_of name [] = false
member_of name (x ∷ xs) = str_eq x name || member_of name xs

-- `if name != "" && !seen[name] { seen[name] = true; out = append(out, name) }`, where `seen` is
-- the set of the names in `out`.
unfoldable pub add_name : List String → String → List String
add_name out name =
    if not (str_eq name "") && not (member_of name out) then out ++ name ∷ [] else out

-- What follows a prefix, if a text has it.
strip_prefix : String → String → Option String
strip_prefix String.[] s = some s
strip_prefix (String.◌∷◌ a p) String.[] = none
strip_prefix (String.◌∷◌ a p) (String.◌∷◌ b s) =
    let rest = strip_prefix p s in if code a == code b then rest else none

-- `bytes.Split(body, []byte("\\n"))`
on_first_line : Char → List String → List String
on_first_line c [] = String.◌∷◌ c String.[] ∷ []
on_first_line c (line ∷ lines) = String.◌∷◌ c line ∷ lines

lines_of : String → List String
unfolding on_first_line
lines_of String.[] = "" ∷ []
lines_of (String.◌∷◌ c s) =
    let rest = lines_of s in if code c == 10 then "" ∷ rest else on_first_line c rest

add_tools : List String → Elements → List String
unfolding add_name get
add_tools out stop = out
add_tools out (element item items) =
    let function_name = name_of (get (get (some item) "function") "name") in
    let name =
      if str_eq function_name "" then name_of (get (some item) "name") else function_name in
    add_tools (add_name out name) items

-- requestedToolNames
unfoldable pub requested_tool_names : Json → List String
unfolding add_tools get
requested_tool_names payload = add_tools [] (items_of (get (some payload) "tools"))

-- The first of the fields that holds a new name, if any.
add_field : List String → Json → List String → List String
unfolding get
add_field out y [] = out
add_field out y (field ∷ fields) =
    let name = name_of (get (some y) field) in
    let rest = add_field out y fields in
    if not (str_eq name "") && not (member_of name out) then out ++ name ∷ [] else rest

add_capability : List String → Json → List String
unfolding add_name add_field
add_capability out (text y) = add_name out y
add_capability out (object ms) =
    add_field out (object ms) ("name" ∷ "id" ∷ "server" ∷ "provider" ∷ [])
add_capability out y = out

add_capabilities : List String → Elements → List String
unfolding add_capability
add_capabilities out stop = out
add_capabilities out (element item items) = add_capabilities (add_capability out item) items

-- The closure `collect` of capabilityNames.
collect : List String → Option Json → List String
unfolding add_name add_capabilities
collect out (some (text x)) = add_name out x
collect out (some (array items)) = add_capabilities out items
collect out v = out

collect_keys : Json → List String → List String → List String
unfolding collect get
collect_keys payload out [] = out
collect_keys payload out (key ∷ keys) =
    collect_keys payload
      (collect (collect out (get (some payload) key)) (get (get (some payload) "metadata") key))
      keys

-- capabilityNames
unfoldable pub capability_names : Json → List String → List String
unfolding collect_keys
capability_names payload keys = collect_keys payload [] keys

add_calls : List String → Elements → List String
unfolding add_name get
add_calls out stop = out
add_calls out (element call calls) =
    add_calls (add_name out (name_of (get (get (some call) "function") "name"))) calls

add_choices : List String → Elements → List String
unfolding add_calls get
add_choices out stop = out
add_choices out (element choice choices) =
    let message = items_of (get (get (some choice) "message") "tool_calls") in
    let delta = items_of (get (get (some choice) "delta") "tool_calls") in
    add_choices (add_calls (add_calls out message) delta) choices

-- The names are kept in the order of their first appearance.
collect_json : (String → Option Json) → List String → String → List String
unfolding add_choices get
collect_json decode out body = elim (decode body) [
  | some root ↦ add_choices out (items_of (get (some root) "choices"))
  | none ↦ out
]

-- bytes.TrimPrefix(line, "data:"), if the line has that prefix
unfoldable pub event_of : String → Option String
unfolding trim_space strip_prefix
event_of line = strip_prefix "data:" (trim_space line)

collect_lines : (String → Option Json) → List String → List String → List String
unfolding collect_json event_of trim_space
collect_lines decode out [] = out
collect_lines decode out (line ∷ lines) =
    collect_lines decode
      (elim (event_of line) [
        | some rest ↦
            if str_eq (trim_space rest) "[DONE]"
            then out
            else collect_json decode out (trim_space rest)
        | none ↦ out
      ])
      lines

-- responseToolNames
unfoldable pub response_tool_names : (String → Option Json) → String → List String
unfolding collect_json collect_lines lines_of contains
response_tool_names decode body =
    if contains body "data:"
    then collect_lines decode [] (lines_of body)
    else collect_json decode [] body

-- The last positive count of the events of a stream.
last_count : (String → ℤ) → ℤ → List String → ℤ
unfolding event_of trim_space
last_count parse found [] = found
last_count parse found (line ∷ lines) =
    last_count parse
      (elim (event_of line) [
        | some rest ↦
            let body = trim_space rest in
            if str_eq body "" || str_eq body "[DONE]"
            then found
            else if is_pos (parse body)
            then parse body
            else found
        | none ↦ found
      ])
      lines

-- reasoningTokensFromPayload; `parse` reads usage.completion_tokens_details.reasoning_tokens, and
-- is 0 for a text that Unmarshal refuses.
unfoldable pub reasoning_tokens_from_payload : (String → ℤ) → String → ℤ
unfolding last_count lines_of
reasoning_tokens_from_payload parse body =
    if is_pos (parse body) then parse body else last_count parse (pos 0) (lines_of body)

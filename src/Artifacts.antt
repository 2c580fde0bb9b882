-- ===== src/Artifacts.antt =====
-- The repair of generated JSON: removeGeneratedJSONTrailingCommas and extractGeneratedJSONCandidate of
-- cmd/api/file_artifacts.go. Contents are bytes.
pub mod Commas
use daiki_aipass_backend.Prelude.{
  ℕ, zero, suc, ◌-◌, ◌+◌, String, Option, some, none, Bool, true, false, not, ◌&&◌, ◌||◌, ◌==◌,
  if◌then◌else◌, List, [], ◌∷◌, ◌++◌, Result, err, ok,
}
use daiki_aipass_backend.Payload.{Json}
use daiki_aipass_backend.Payload.Capped.{Bytes}

-- `inString` and `escaped`.
pub record Scan : Type 0 where
  pub in_string : Bool
  pub escaped : Bool

abbrev pub outside : Scan
outside = record { in_string = false; escaped = false }

-- The state after a byte.
unfoldable pub scan_byte : Scan → ℕ → Scan
scan_byte st c =
    if st.in_string
    then (if st.escaped
        then record { in_string = true; escaped = false }
        else if c == 92
        then record { in_string = true; escaped = true }
        else record { in_string = not (c == 34); escaped = false })
    else record { in_string = c == 34; escaped = st.escaped }

abbrev is_blank : ℕ → Bool
is_blank c = (c == 32) || (c == 10) || (c == 13) || (c == 9)

-- Whether the next byte that is not blank closes an object or a list.
unfoldable pub closes_next : Bytes → Bool
closes_next [] = false
closes_next (c ∷ s) =
    let later = closes_next s in if is_blank c then later else (c == 125) || (c == 93)

abbrev pub is_trailing : Scan → ℕ → Bytes → Bool
is_trailing st c s = not st.in_string && (c == 44) && closes_next s

-- removeGeneratedJSONTrailingCommas, from a state on
unfoldable pub remove_commas : Scan → Bytes → Bytes
unfolding scan_byte closes_next
remove_commas st [] = []
remove_commas st (c ∷ s) =
    let dropped = is_trailing st c s in
    let rest = remove_commas (if dropped then st else scan_byte st c) s in
    if dropped then rest else c ∷ rest

unfoldable pub remove_generated_json_trailing_commas : Bytes → Bytes
unfolding remove_commas
remove_generated_json_trailing_commas content = remove_commas outside content

abbrev is_opener : ℕ → Bool
is_opener c = (c == 123) || (c == 91)

abbrev is_closer : ℕ → Bool
is_closer c = (c == 125) || (c == 93)

-- The content from its first opening bracket on.
unfoldable pub from_opener : Bytes → Option Bytes
from_opener [] = none
from_opener (c ∷ s) = let later = from_opener s in if is_opener c then some (c ∷ s) else later

abbrev prepend : ℕ → Option Bytes → Option Bytes
prepend c none = none
prepend c (some s) = some (c ∷ s)

-- What stands up to the bracket that closes the first one; `depth` brackets are open.
unfoldable pub until_closed : Scan → ℕ → Bytes → Option Bytes
unfolding scan_byte
until_closed st depth [] = none
until_closed st depth (c ∷ s) =
    let opens = not st.in_string && is_opener c in
    let closes = not st.in_string && is_closer c in
    let deeper = if opens then suc depth else if closes then depth - 1 else depth in
    let later = prepend c (until_closed (scan_byte st c) deeper s) in
    if closes && (depth == 1) then some (c ∷ []) else if closes && (depth == 0) then none else later

module _ (trim : Bytes → Bytes) where
  -- extractGeneratedJSONCandidate, [] if there is none; `trim` is strings.TrimSpace.
  unfoldable pub extract_generated_json_candidate : Bytes → Bytes
  unfolding from_opener until_closed
  extract_generated_json_candidate content = elim (from_opener (trim content)) [
    | none ↦ []
    | some s ↦ elim (until_closed outside 0 s) [ none ↦ [] | some found ↦ trim found ]
  ]

-- ===== src/Prelude/Text.antt =====
-- What the code uses of Go's `strings`: `TrimSpace`, and `ToLower` on texts with ASCII letters.
use Prim.Native.Char.{Char, code}
use Prim.Native.Nat.{ℕ, zero, suc, ◌-◌, ◌/◌, ◌%◌}
use Prim.Native.String.append
use Prim.Native.String.{String, char_at, ◌++◌}
use mathlib.Core.Bool.{Bool, ◌&&◌, ◌||◌, true, false}
use mathlib.Core.Logic.{inl, inr}
use mathlib.Core.Path.{◌≡◌, refl, sym, ap, ◌∙◌, subst}
use native.Mathlib.Omega.{arith}
use text.Mathlib.TextEquality.{Char-path}
use daiki_aipass_backend.Prelude.Tests.{leb, ltb, ◌==◌, if◌then◌else◌, false_ne_true, Bool-cases}

-- unicode.IsSpace
abbrev is_space : ℕ → Bool
is_space c =
    (leb 9 c && leb c 13)
    || (c == 32)
    || (c == 0x85)
    || (c == 0xa0)
    || (c == 0x1680)
    || (leb 0x2000 c && leb c 0x200a)
    || (c == 0x2028)
    || (c == 0x2029)
    || (c == 0x202f)
    || (c == 0x205f)
    || (c == 0x3000)

lower_char : Char → Char
lower_char c =
    if leb 65 (code c) && leb (code c) 90
    then char_at "abcdefghijklmnopqrstuvwxyz" (code c - 65)
    else c

unfoldable pub to_lower : String → String
unfolding lower_char
to_lower String.[] = String.[]
to_lower (String.◌∷◌ c s) = String.◌∷◌ (lower_char c) (to_lower s)

trim_left : String → String
trim_left String.[] = String.[]
trim_left (String.◌∷◌ c s) =
    let rest = trim_left s in if is_space (code c) then rest else String.◌∷◌ c s

keep : Bool → Char → String → String
keep true c String.[] = String.[]
keep _ c s = String.◌∷◌ c s

trim_right : String → String
unfolding keep
trim_right String.[] = String.[]
trim_right (String.◌∷◌ c s) = keep (is_space (code c)) c (trim_right s)

unfoldable pub trim_space : String → String
unfolding trim_left trim_right
trim_space s = trim_right (trim_left s)

digit : ℕ → String
digit n = String.◌∷◌ (char_at "0123456789" n) String.[]

decimal_fuel : ℕ → ℕ → String
unfolding digit
decimal_fuel zero n = digit n
decimal_fuel (suc fuel) n =
    let high = decimal_fuel fuel (n / 10) in if ltb n 10 then digit n else high ++ digit (n % 10)

-- `%d` of a number that is not negative; a number has no more digits than its value.
unfoldable pub decimal : ℕ → String
unfolding decimal_fuel
decimal n = decimal_fuel n n

is_prefix : String → String → Bool
is_prefix String.[] t = true
is_prefix (String.◌∷◌ a s) String.[] = false
is_prefix (String.◌∷◌ a s) (String.◌∷◌ b t) = (code a == code b) && is_prefix s t

-- strings.Contains, of texts that are valid UTF-8.
unfoldable pub contains : String → String → Bool
unfolding is_prefix
contains String.[] t = is_prefix t String.[]
contains (String.◌∷◌ c s) t = is_prefix t (String.◌∷◌ c s) || contains s t

-- The text `t` stands in `s`, between two texts.
abbrev pub Occurs : String → String → Type 0
Occurs t s = (before : String) × ((rest : String) × (s ≡ before ++ (t ++ rest)))

is_prefix_sound : (s t : String) → is_prefix s t ≡ true → (rest : String) × (t ≡ s ++ rest)
unfolding is_prefix
is_prefix_sound String.[] t h = (t, sym (append.nil t))
is_prefix_sound (String.◌∷◌ a s) String.[] h = absurd (false_ne_true h)
is_prefix_sound (String.◌∷◌ a s) (String.◌∷◌ b t) h =
    let (same, later) : (code a ≡ code b) × (is_prefix s t ≡ true) = ground arith in
    let (rest, e) = is_prefix_sound s t later in
    (
      rest,
      ap (λ c. String.◌∷◌ c t) (sym (Char-path a b same))
          ∙ ap (String.◌∷◌ a) e
          ∙ sym (append.cons a s rest),
    )

is_prefix_complete : (s rest : String) → is_prefix s (s ++ rest) ≡ true
unfolding is_prefix
is_prefix_complete String.[] rest = refl
is_prefix_complete (String.◌∷◌ a s) rest =
    let later = is_prefix_complete s rest in rw (append.cons a s rest) (ground arith)

-- strings.Contains finds a text where it stands, and only there.
pub contains-Occurs : (s t : String) → contains s t ≡ true → Occurs t s
unfolding contains
contains-Occurs String.[] t h =
    let (rest, whole) = is_prefix_sound t String.[] h in
    (String.[], (rest, whole ∙ sym (append.nil (t ++ rest))))
contains-Occurs (String.◌∷◌ c s) t h = elim (Bool-cases (is_prefix t (String.◌∷◌ c s))) [
  | inl e ↦
      let (rest, whole) = is_prefix_sound t (String.◌∷◌ c s) e in
      (String.[], (rest, whole ∙ sym (append.nil (t ++ rest))))
  | inr e ↦
      let later : contains s t ≡ true = ground arith in
      let (before, (rest, whole)) = contains-Occurs s t later in
      (
        String.◌∷◌ c before,
        (rest, ap (String.◌∷◌ c) whole ∙ sym (append.cons c before (t ++ rest))),
      )
]

contains-between : (before t rest : String) → contains (before ++ (t ++ rest)) t ≡ true
unfolding contains
contains-between String.[] t rest =
    rw (append.nil (t ++ rest)) (contains-at (t ++ rest) t (is_prefix_complete t rest))
  where
    contains-at : (s t : String) → is_prefix t s ≡ true → contains s t ≡ true
    contains-at String.[] t h = h
    contains-at (String.◌∷◌ c s) t h = rw h refl
contains-between (String.◌∷◌ c before) t rest =
    let later = contains-between before t rest in
    rw (append.cons c before (t ++ rest)) (ground arith)

pub Occurs-contains : (s t : String) → Occurs t s → contains s t ≡ true
Occurs-contains s t (before, (rest, e)) =
    subst (λ u. contains u t ≡ true) (sym e) (contains-between before t rest)

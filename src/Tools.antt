-- ===== src/Tools.antt =====
-- The calculator of cmd/api/smart_tools.go: expressionParser, evalExpression and intArg.
-- The parser's position is the rest of its bytes. Every call of a parsing function uses up one step
-- of fuel; the loops of parseExpression and parseTerm are functions of their own.
pub mod Calculator
use daiki_aipass_backend.Prelude.{
  ℕ, suc, zero, ◌+◌, ◌*◌, ◌≤◌, String, Option, some, none, Bool, true, false, not, ◌&&◌, ◌||◌, ltb,
  leb, ◌==◌, if◌then◌else◌, List, [], ◌∷◌, length, Result, err, ok,
}
use daiki_aipass_backend.Prelude.Int.{ℤ, ltb_ℤ}

abbrev pub Bytes : Type 0
Bytes = List ℕ

-- intArg; the argument is the number that the JSON value holds, cut to an int, if it holds one.
abbrev pub int_arg : Option ℤ → ℤ → ℤ → ℤ → ℤ
int_arg v fallback min_value max_value =
    let n : ℤ = elim v [ some x ↦ x | none ↦ fallback ] in
    let raised = if ltb_ℤ n min_value then min_value else n in
    if ltb_ℤ max_value raised then max_value else raised

-- What the code uses of float64: its arithmetic, math.Mod, math.Pow and strconv.ParseFloat.
pub record Floats : Type 1 where
  pub Number : Type 0
  pub add : Number → Number → Number
  pub sub : Number → Number → Number
  pub mul : Number → Number → Number
  pub div : Number → Number → Number
  pub mod_of : Number → Number → Number
  pub pow : Number → Number → Number
  pub neg : Number → Number
  pub is_zero : Number → Bool
  -- Neither infinite nor NaN.
  pub is_finite : Number → Bool
  pub parse_float : Bytes → Result Number

-- skipSpaces
unfoldable pub skip_spaces : Bytes → Bytes
skip_spaces [] = []
skip_spaces (c ∷ s) = let rest = skip_spaces s in if (c == 32) || (c == 9) then rest else c ∷ s

-- The next byte and what follows it, if it is one of the accepted.
unfoldable pub next_of : (ℕ → Bool) → Bytes → Option (ℕ × Bytes)
next_of accepts [] = none
next_of accepts (c ∷ s) = if accepts c then some (c, s) else none

abbrev pub is_sign : ℕ → Bool
is_sign c = (c == 43) || (c == 45)

abbrev pub is_factor : ℕ → Bool
is_factor c = (c == 42) || (c == 47) || (c == 37)

abbrev pub is_power : ℕ → Bool
is_power c = c == 94

abbrev pub is_open : ℕ → Bool
is_open c = c == 40

abbrev pub is_close : ℕ → Bool
is_close c = c == 41

-- The digits of a number with at most one point, and what follows.
unfoldable pub scan_number : Bool → Bytes → Bytes × Bytes
scan_number dot [] = ([], [])
scan_number dot (c ∷ s) =
    let same = scan_number dot s in
    let dotted = scan_number true s in
    if leb 48 c && leb c 57
    then (c ∷ same.0, same.1)
    else if (c == 46) && not dot
    then (c ∷ dotted.0, dotted.1)
    else ([], c ∷ s)

module _ (floats : Floats) where
  open floats use {Number, add, sub, mul, div, mod_of, pow, is_zero, is_finite, parse_float}

  -- What a parsing function returns, with the rest of the bytes; `none` is that fuel ran out.
  abbrev pub Parsed : Type 0
  Parsed = Option (Result (Number × Bytes))

  unfoldable pub then_parse : Parsed → (Number → Bytes → Parsed) → Parsed
  then_parse none f = none
  then_parse (some (err message)) f = some (err message)
  then_parse (some (ok (v, s))) f = f v s

  -- The `switch op` of parseTerm.
  unfoldable pub apply_factor : ℕ → Number → Number → Result Number
  apply_factor op left right =
      if op == 42
      then ok (mul left right)
      else if op == 47
      then (if is_zero right then err "division by zero" else ok (div left right))
      else if is_zero right
      then err "modulo by zero"
      else ok (mod_of left right)

  abbrev pub apply_sign : ℕ → Number → Number → Number
  apply_sign op left right = if op == 43 then add left right else sub left right

  -- The last lines of parsePrimary: a number.
  unfoldable pub parse_number : Bytes → Parsed
  unfolding scan_number
  parse_number s =
      let (digits, rest) = scan_number false s in
      elim digits [
        | [] ↦ some (err "expected number")
        | ◌∷◌ c cs ↦ elim (parse_float (c ∷ cs)) [
          | err message ↦ some (err message)
          | ok v ↦ some (ok (v, rest))
        ]
      ]

  -- The closing parenthesis of parsePrimary.
  unfoldable pub close_group : Number → Bytes → Parsed
  unfolding next_of skip_spaces
  close_group v s = elim (next_of is_close (skip_spaces s)) [
    | none ↦ some (err "missing closing parenthesis")
    | some (c, rest) ↦ some (ok (v, rest))
  ]

  unfoldable mutual
    unfolding then_parse apply_factor parse_number close_group next_of skip_spaces

    pub parse_expression : ℕ → Bytes → Parsed
    parse_expression zero s = none
    parse_expression (suc fuel) s = then_parse (parse_term fuel s) (add_terms fuel)

    -- The loop of parseExpression.
    pub add_terms : ℕ → Number → Bytes → Parsed
    add_terms zero left s = none
    add_terms (suc fuel) left s = elim (next_of is_sign (skip_spaces s)) [
      | none ↦ some (ok (left, skip_spaces s))
      | some (op, rest) ↦
          then_parse (parse_term fuel rest) (λ right. add_terms fuel (apply_sign op left right))
    ]

    pub parse_term : ℕ → Bytes → Parsed
    parse_term zero s = none
    parse_term (suc fuel) s = then_parse (parse_power fuel s) (multiply_powers fuel)

    -- The loop of parseTerm.
    pub multiply_powers : ℕ → Number → Bytes → Parsed
    multiply_powers zero left s = none
    multiply_powers (suc fuel) left s = elim (next_of is_factor (skip_spaces s)) [
      | none ↦ some (ok (left, skip_spaces s))
      | some (op, rest) ↦ then_parse (parse_power fuel rest) λ right after.
          elim (apply_factor op left right) [
            | err message ↦ some (err message)
            | ok v ↦ multiply_powers fuel v after
          ]
    ]

    pub parse_power : ℕ → Bytes → Parsed
    parse_power zero s = none
    parse_power (suc fuel) s = then_parse (parse_unary fuel s) λ left after.
        elim (next_of is_power (skip_spaces after)) [
          | none ↦ some (ok (left, skip_spaces after))
          | some (op, rest) ↦
              then_parse (parse_power fuel rest) (λ right last. some (ok (pow left right, last)))
        ]

    pub parse_unary : ℕ → Bytes → Parsed
    parse_unary zero s = none
    parse_unary (suc fuel) s = elim (next_of is_sign (skip_spaces s)) [
      | none ↦ parse_primary fuel (skip_spaces s)
      | some (op, rest) ↦
          then_parse (parse_unary fuel rest)
            (λ v after. some (ok (if op == 45 then floats.neg v else v, after)))
    ]

    pub parse_primary : ℕ → Bytes → Parsed
    parse_primary zero s = none
    parse_primary (suc fuel) s = elim (skip_spaces s) [
      | [] ↦ some (err "unexpected end of expression")
      | ◌∷◌ c cs ↦ elim (is_open c) [
        | true ↦ then_parse (parse_expression fuel cs) close_group
        | false ↦ parse_number (c ∷ cs)
      ]
    ]

  -- A call chain of five functions reads at least one byte.
  abbrev pub fuel_of : Bytes → ℕ
  fuel_of s = 5 * length s + 5

  -- The last lines of evalExpression.
  abbrev pub finish : Number → Bytes → Option (Result Number)
  finish v s =
      if not (length (skip_spaces s) == 0) || not (is_finite v)
      then some (err "invalid arithmetic expression")
      else some (ok v)

  -- evalExpression, of an expression that strings.TrimSpace has trimmed.
  unfoldable pub eval_expression : Bytes → Option (Result Number)
  unfolding parse_expression skip_spaces
  eval_expression s =
      if (length s == 0) || ltb 256 (length s)
      then some (err "expression is empty or too long")
      else elim (parse_expression (fuel_of s) s) [
        | none ↦ none
        | some r ↦ elim r [ err message ↦ some (err message) | ok (v, rest) ↦ finish v rest ]
      ]

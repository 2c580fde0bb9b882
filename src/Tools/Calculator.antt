-- ===== src/Tools/Calculator.antt =====
-- The parser of Tools reads every expression to an end.
use daiki_aipass_backend.Prelude.{
  ℕ, suc, zero, ◌+◌, ◌*◌, ◌≤◌, ◌<◌, ◌≡◌, refl, subst, Option, some, none, Bool, true, false, not,
  ◌&&◌, ◌||◌, Bool-cases, inl, inr, ◌⊎◌, ltb, leb, ◌==◌, if◌then◌else◌, if_cases, [], ◌∷◌, length,
  Result, err, ok, Result-cases, arith,
}
use daiki_aipass_backend.Tools.{
  Bytes, Floats, skip_spaces, next_of, is_sign, is_factor, is_power, is_open, is_close, scan_number,
  Parsed, then_parse, apply_factor, apply_sign, parse_number, close_group, parse_expression,
  add_terms, parse_term, multiply_powers, parse_power, parse_unary, parse_primary, fuel_of, finish,
  eval_expression,
}

skip_spaces-length : (s : Bytes) → length (skip_spaces s) ≤ length s
unfolding skip_spaces
skip_spaces-length [] = omega arith
skip_spaces-length (c ∷ s) =
    let rest = skip_spaces-length s in
    if_cases (λ x. length x ≤ suc (length s)) ((c == 32) || (c == 9)) {a = skip_spaces s}
      {b = c ∷ s} (λ h. omega (arith, rest)) λ h. omega arith

-- Either no accepted byte is next, or reading it leaves fewer bytes.
next_of-cases :
    (accepts : ℕ → Bool) (s : Bytes)
    → (next_of accepts (skip_spaces s) ≡ none)
      ⊎ ((op : ℕ) × (rest : Bytes) × (next_of accepts (skip_spaces s) ≡ some (op, rest))
          × (length rest < length s))
unfolding next_of
next_of-cases accepts s = next_cases (skip_spaces s) (skip_spaces-length s)
  where
    next_cases :
        (t : Bytes)
        → length t ≤ length s
        → (next_of accepts t ≡ none)
          ⊎ ((op : ℕ) × (rest : Bytes) × (next_of accepts t ≡ some (op, rest))
              × (length rest < length s))
    next_cases [] h = inl refl
    next_cases (c ∷ t) h = elim (Bool-cases (accepts c)) [
      | inl e ↦ inr (c, t, rw e refl, omega (arith, h))
      | inr e ↦ inl (rw e refl)
    ]

scan_number-length : (dot : Bool) (s : Bytes) → length (scan_number dot s).1 ≤ length s
unfolding scan_number
scan_number-length dot [] = omega arith
scan_number-length dot (c ∷ s) =
    let same = scan_number-length dot s in
    let dotted = scan_number-length true s in
    if_cases (λ (x : Bytes × Bytes). length x.1 ≤ suc (length s)) (leb 48 c && leb c 57)
      {a = (c ∷ (scan_number dot s).0, (scan_number dot s).1)} (λ h. omega (arith, same))
      λ h.
        if_cases (λ (x : Bytes × Bytes). length x.1 ≤ suc (length s)) ((c == 46) && not dot)
          {a = (c ∷ (scan_number true s).0, (scan_number true s).1)} {b = ([], c ∷ s)}
          (λ k. omega (arith, dotted)) λ k. omega arith

Bytes-cases : (s : Bytes) → (s ≡ []) ⊎ ((c : ℕ) × (cs : Bytes) × (s ≡ c ∷ cs))
Bytes-cases [] = inl refl
Bytes-cases (c ∷ cs) = inr (c, cs, refl)

module _ (floats : Floats) where
  open floats use {Number}

  -- The parsing ended, and what it left is no longer than `n`.
  abbrev Ends : ℕ → Parsed floats → Type 0
  Ends n none = ⊥
  Ends n (some (err message)) = Unit
  Ends n (some (ok (v, rest))) = length rest ≤ n

  then_parse-Ends :
      (n k : ℕ) (m : Parsed floats) (f : Number → Bytes → Parsed floats)
      → Ends n m
      → ((v : Number) (rest : Bytes) → length rest ≤ n → Ends k (f v rest))
      → Ends k (then_parse floats m f)
  unfolding then_parse
  then_parse-Ends n k none f h g = absurd h
  then_parse-Ends n k (some (err message)) f h g = tt
  then_parse-Ends n k (some (ok (v, rest))) f h g = g v rest h

  Ends-le : (n k : ℕ) (m : Parsed floats) → n ≤ k → Ends n m → Ends k m
  Ends-le n k none h e = e
  Ends-le n k (some (err message)) h e = e
  Ends-le n k (some (ok (v, rest))) h e = omega (arith, h, e)

  parse_number-Ends : (s : Bytes) → Ends (length s) (parse_number floats s)
  unfolding parse_number
  parse_number-Ends s = number_ends (scan_number false s).0 (scan_number-length false s)
    where
      number_ends :
          (digits : Bytes)
          → length (scan_number false s).1 ≤ length s
          → Ends (length s) (elim digits [
            | [] ↦ some (err "expected number")
            | ◌∷◌ c cs ↦ elim (floats.parse_float (c ∷ cs)) [
              | err message ↦ some (err message)
              | ok v ↦ some (ok (v, (scan_number false s).1))
            ]
          ])
      number_ends [] h = tt
      number_ends (c ∷ cs) h = elim (Result-cases (floats.parse_float (c ∷ cs))) [
        | inl (v, e) ↦ rw e h
        | inr (message, e) ↦ rw e tt
      ]

  close_group-Ends :
      (n : ℕ) (v : Number) (s : Bytes) → length s ≤ n → Ends n (close_group floats v s)
  unfolding close_group
  close_group-Ends n v s h = elim (next_of-cases is_close s) [
    | inl e ↦ rw (close_group, e) tt
    | inr (op, rest, e, l) ↦ rw (close_group, e) (omega (arith, h, l))
  ]

  mutual
    unfolding parse_expression

    parse_expression-Ends :
        (fuel : ℕ) (s : Bytes)
        → 5 * length s + 5 ≤ fuel
        → Ends (length s) (parse_expression floats fuel s)
    parse_expression-Ends zero s h = absurd (omega (arith, h))
    parse_expression-Ends (suc fuel) s h =
        then_parse-Ends (length s) (length s) (parse_term floats fuel s) (add_terms floats fuel)
          (parse_term-Ends fuel s (omega (arith, h)))
          λ v rest l. add_terms-Ends fuel (length s) v rest l (omega (arith, h))

    add_terms-Ends :
        (fuel n : ℕ) (left : Number) (s : Bytes)
        → length s ≤ n
        → 5 * n + 1 ≤ fuel
        → Ends n (add_terms floats fuel left s)
    add_terms-Ends zero n left s l h = absurd (omega (arith, h))
    add_terms-Ends (suc fuel) n left s l h = elim (next_of-cases is_sign s) [
      | inl e ↦ rw (add_terms, e) (omega (arith, l, skip_spaces-length s))
      | inr (op, rest, e, m) ↦
          rw (add_terms, e)
            (then_parse-Ends (length rest) n (parse_term floats fuel rest)
              (λ right. add_terms floats fuel (apply_sign floats op left right))
              (parse_term-Ends fuel rest (omega (arith, l, h, m)))
              λ v after k.
                Ends-le (length rest) n (add_terms floats fuel (apply_sign floats op left v) after)
                  (omega (arith, l, m))
                  (add_terms-Ends fuel (length rest) (apply_sign floats op left v) after k
                    (omega (arith, l, m, h))))
    ]

    parse_term-Ends :
        (fuel : ℕ) (s : Bytes)
        → 5 * length s + 4 ≤ fuel
        → Ends (length s) (parse_term floats fuel s)
    parse_term-Ends zero s h = absurd (omega (arith, h))
    parse_term-Ends (suc fuel) s h =
        then_parse-Ends (length s) (length s) (parse_power floats fuel s)
          (multiply_powers floats fuel) (parse_power-Ends fuel s (omega (arith, h)))
          λ v rest l. multiply_powers-Ends fuel (length s) v rest l (omega (arith, h))

    multiply_powers-Ends :
        (fuel n : ℕ) (left : Number) (s : Bytes)
        → length s ≤ n
        → 5 * n + 1 ≤ fuel
        → Ends n (multiply_powers floats fuel left s)
    multiply_powers-Ends zero n left s l h = absurd (omega (arith, h))
    multiply_powers-Ends (suc fuel) n left s l h = elim (next_of-cases is_factor s) [
      | inl e ↦ rw (multiply_powers, e) (omega (arith, l, skip_spaces-length s))
      | inr (op, rest, e, m) ↦
          rw (multiply_powers, e)
            (then_parse-Ends (length rest) n (parse_power floats fuel rest)
              (λ right after. elim (apply_factor floats op left right) [
                | err message ↦ some (err message)
                | ok v ↦ multiply_powers floats fuel v after
              ])
              (parse_power-Ends fuel rest (omega (arith, l, h, m)))
              λ right after k. elim (Result-cases (apply_factor floats op left right)) [
                | inl (v, a) ↦ rw a (
                    Ends-le (length rest) n (multiply_powers floats fuel v after)
                      (omega (arith, l, m))
                      (multiply_powers-Ends fuel (length rest) v after k (omega (arith, l, m, h))))
                | inr (message, a) ↦ rw a tt
              ])
    ]

    parse_power-Ends :
        (fuel : ℕ) (s : Bytes)
        → 5 * length s + 3 ≤ fuel
        → Ends (length s) (parse_power floats fuel s)
    parse_power-Ends zero s h = absurd (omega (arith, h))
    parse_power-Ends (suc fuel) s h =
        then_parse-Ends (length s) (length s) (parse_unary floats fuel s)
          (λ left after. elim (next_of is_power (skip_spaces after)) [
            | none ↦ some (ok (left, skip_spaces after))
            | some (op, rest) ↦
                then_parse floats (parse_power floats fuel rest)
                  (λ right last. some (ok (floats.pow left right, last)))
          ])
          (parse_unary-Ends fuel s (omega (arith, h)))
          λ left after l. elim (next_of-cases is_power after) [
            | inl e ↦ rw e (omega (arith, l, skip_spaces-length after))
            | inr (op, rest, e, m) ↦ rw e (
                then_parse-Ends (length rest) (length s) (parse_power floats fuel rest)
                  (λ right last. some (ok (floats.pow left right, last)))
                  (parse_power-Ends fuel rest (omega (arith, l, h, m)))
                  λ right last k. omega (arith, l, m, k))
          ]

    parse_unary-Ends :
        (fuel : ℕ) (s : Bytes)
        → 5 * length s + 2 ≤ fuel
        → Ends (length s) (parse_unary floats fuel s)
    parse_unary-Ends zero s h = absurd (omega (arith, h))
    parse_unary-Ends (suc fuel) s h = elim (next_of-cases is_sign s) [
      | inl e ↦
          rw (parse_unary, e)
            (Ends-le (length (skip_spaces s)) (length s) (parse_primary floats fuel (skip_spaces s))
              (skip_spaces-length s)
              (parse_primary-Ends fuel (skip_spaces s) (omega (arith, h, skip_spaces-length s))))
      | inr (op, rest, e, m) ↦
          rw (parse_unary, e)
            (then_parse-Ends (length rest) (length s) (parse_unary floats fuel rest)
              (λ v after. some (ok (if op == 45 then floats.neg v else v, after)))
              (parse_unary-Ends fuel rest (omega (arith, h, m))) λ v after k. omega (arith, m, k))
    ]

    parse_primary-Ends :
        (fuel : ℕ) (s : Bytes)
        → 5 * length s + 1 ≤ fuel
        → Ends (length s) (parse_primary floats fuel s)
    parse_primary-Ends zero s h = absurd (omega (arith, h))
    parse_primary-Ends (suc fuel) s h =
        let spaces = skip_spaces-length s in
        elim (Bytes-cases (skip_spaces s)) [
          | inl e ↦ rw (parse_primary, e) tt
          | inr (c, cs, e) ↦
              let shorter : suc (length cs) ≤ length s =
                subst (λ t. length t ≤ length s) e spaces in
              elim (Bool-cases (is_open c)) [
                | inl o ↦
                    rw (parse_primary, e, o)
                      (then_parse-Ends (length cs) (length s) (parse_expression floats fuel cs)
                        (close_group floats)
                        (parse_expression-Ends fuel cs (omega (arith, h, shorter)))
                        λ v rest l. close_group-Ends (length s) v rest (omega (arith, l, shorter)))
                | inr o ↦
                    rw (parse_primary, e, o)
                      (Ends-le (suc (length cs)) (length s) (parse_number floats (c ∷ cs)) shorter
                        (parse_number-Ends (c ∷ cs)))
              ]
        ]

  -- The evaluation ended; a value is finite, and is what the parser made of all the bytes.
  abbrev pub IsEvaluated : Bytes → Option (Result Number) → Type 0
  IsEvaluated s none = ⊥
  IsEvaluated s (some (err message)) = Unit
  IsEvaluated s (some (ok v)) =
      (floats.is_finite v ≡ true)
      × (0 < length s)
      × (length s ≤ 256)
      × ((rest : Bytes) × (parse_expression floats (fuel_of floats s) s ≡ some (ok (v, rest)))
          × (length (skip_spaces rest) ≡ 0))

  finish-IsEvaluated :
      (s : Bytes) (v : Number) (rest : Bytes)
      → 0 < length s
      → length s ≤ 256
      → parse_expression floats (fuel_of floats s) s ≡ some (ok (v, rest))
      → IsEvaluated s (finish floats v rest)
  finish-IsEvaluated s v rest l m e =
      if_cases (IsEvaluated s) (not (length (skip_spaces rest) == 0) || not (floats.is_finite v))
        {a = some (err "invalid arithmetic expression")} {b = some (ok v)} (λ h. tt)
        λ h. (ground arith, l, m, (rest, e, ground arith))

  -- The evaluation of every expression ends with an error or a value: the fuel, five steps for each
  -- byte and five more, is never used up. A value is finite, and only an expression of 1 to 256 bytes
  -- that the parser reads to its end has one.
  pub eval_expression-IsEvaluated : (s : Bytes) → IsEvaluated s (eval_expression floats s)
  unfolding eval_expression
  eval_expression-IsEvaluated s =
      let ended = parse_expression-Ends (fuel_of floats s) s (omega arith) in
      if_cases (IsEvaluated s) ((length s == 0) || ltb 256 (length s))
        {a = some (err "expression is empty or too long")} (λ h. tt)
        λ h.
          parsed_cases (parse_expression floats (fuel_of floats s) s) refl ended (ground arith)
            (ground arith)
    where
      parsed_cases :
          (m : Parsed floats)
          → parse_expression floats (fuel_of floats s) s ≡ m
          → Ends (length s) m
          → 0 < length s
          → length s ≤ 256
          → IsEvaluated s (elim m [
            | none ↦ none
            | some r ↦ elim r [
              | err message ↦ some (err message)
              | ok (v, rest) ↦ finish floats v rest
            ]
          ])
      parsed_cases none e h l k = absurd h
      parsed_cases (some (err message)) e h l k = tt
      parsed_cases (some (ok (v, rest))) e h l k = finish-IsEvaluated s v rest l k e

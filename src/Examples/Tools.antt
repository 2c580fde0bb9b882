-- ===== src/Examples/Tools.antt =====
-- Concrete inputs of the results on the calculator.
use daiki_aipass_backend.Prelude.{
  ℕ, ◌+◌, ◌-◌, ◌*◌, ◌/◌, ◌%◌, ◌^◌, ◌≡◌, refl, true, ◌==◌, some, [], ◌∷◌, ok,
}
use daiki_aipass_backend.Tools.{Bytes, Floats, eval_expression}
use daiki_aipass_backend.Tools.Calculator.{IsEvaluated, eval_expression-IsEvaluated}

abbrev digits_value : ℕ → Bytes → ℕ
digits_value n [] = n
digits_value n (c ∷ cs) = digits_value (10 * n + (c - 48)) cs

-- Natural numbers in place of float64.
abbrev naturals : Floats
naturals = record {
  Number = ℕ;
  add = λ a b. a + b;
  sub = λ a b. a - b;
  mul = λ a b. a * b;
  div = λ a b. a / b;
  mod_of = λ a b. a % b;
  pow = λ a b. a ^ b;
  neg = λ a. 0;
  is_zero = λ a. a == 0;
  is_finite = λ a. true;
  parse_float = λ s. ok (digits_value 0 s);
}

-- "2+3*(4-1)"
abbrev sum_and_product : Bytes
sum_and_product = 50 ∷ 43 ∷ 51 ∷ 42 ∷ 40 ∷ 52 ∷ 45 ∷ 49 ∷ 41 ∷ []

sum_and_product_value : eval_expression naturals sum_and_product ≡ some (ok 11)
unfolding eval_expression
sum_and_product_value = refl

eval_expression-IsEvaluated_example :
    IsEvaluated naturals sum_and_product (eval_expression naturals sum_and_product)
eval_expression-IsEvaluated_example = eval_expression-IsEvaluated naturals sum_and_product

-- ===== src/Runtime/Admission/Rate.antt =====
-- The rate that the token bucket of Runtime/Admission admits.
use native.Mathlib.Nat.{le-div_iff_mul-le, mul-le-mul_right}
use daiki_aipass_backend.Prelude.{
  ℕ, ◌≡◌, refl, ◌+◌, ◌-◌, ◌*◌, ◌/◌, ◌≤◌, ◌<◌, String, Option, none, some, Bool, true, false, List,
  [], All, ◌∷◌, ltb, leb, ◌==◌, if◌then◌else◌, arith, Bool-cases, leb→le, if_cases, if_both, not,
  ◌||◌, inl, inr,
}
use daiki_aipass_backend.Prelude.Int.{ℤ, is_pos, pos_part, ◌≤ℤ◌}
use daiki_aipass_backend.Runtime.Budget.{
  ProviderModel, Payload, runtime_token_limit, model_admission_cost, admission_capacity,
}
use daiki_aipass_backend.Runtime.Budget.Bounds.{model_admission_cost-bounds}
use daiki_aipass_backend.Runtime.Admission.{
  try_model_admission, ModelAdmission, after_admission, token, Bucket, open_bucket, refill,
  ceil_div, admission_script,
}

-- One call of the script: when, and at what cost in tokens.
pub record Attempt : Type 0 where
  pub now : ℕ
  pub cost : ℕ

-- The tokens that a sequence of calls admits, from a stored bucket, and the bucket in the end.
unfoldable pub admitted_from : ℕ → ℕ → Bucket → List Attempt → ℕ × Bucket
admitted_from capacity limit b [] = (0, b)
admitted_from capacity limit b (x ∷ xs) =
    let ran = admission_script (some b) x.now capacity limit x.cost in
    let rest = admitted_from capacity limit ran.0 xs in
    ((if ran.1 == 0 then x.cost else 0) + rest.0, rest.1)

distribute : (a b c : ℕ) → a ≤ b → (b - a) * c + a * c ≡ b * c
distribute a b c h = grind arith

refill-balance :
    (capacity limit now : ℕ) (b : Bucket)
    → ((refill capacity limit now b).tokens + b.last * limit
        ≤ b.tokens + (refill capacity limit now b).last * limit)
      × (b.last ≤ (refill capacity limit now b).last)
unfolding refill
refill-balance capacity limit now b = elim (Bool-cases (ltb b.last now)) [
  | inl e ↦ rw e (ground (arith, distribute b.last now limit))
  | inr e ↦ rw e (omega arith, omega arith)
]

ceil-pos : (need rate : ℕ) → 0 < need → 0 < rate → (ceil_div need rate == 0) ≡ false
ceil-pos need rate h k =
    let one : 1 ≤ (need + (rate - 1)) / rate = (le-div_iff_mul-le k).1 (omega arith) in ground arith

-- A call is admitted exactly if the bucket holds its cost, which is then taken; no call waits for 0.
script-cases :
    (stored : Option Bucket) (now capacity limit cost : ℕ)
    → 0 < limit
    → let b = refill capacity limit now (open_bucket stored capacity now) in
      let ran = admission_script stored now capacity limit cost in
      (ran.0.last ≡ b.last) × ((if ran.1 == 0 then cost else 0) * token + ran.0.tokens ≡ b.tokens)
unfolding admission_script
script-cases stored now capacity limit cost h =
    let b = refill capacity limit now (open_bucket stored capacity now) in
    elim (Bool-cases (leb (cost * token) b.tokens)) [
      | inl e ↦ rw (admission_script, e) (refl, omega (arith, leb→le (cost * token) b.tokens e))
      | inr e ↦
          rw (admission_script, e, ceil-pos (cost * token - b.tokens) limit (ground arith) h)
            (refl, omega arith)
    ]

open_bucket-least :
    (capacity now : ℕ) (b : Bucket) → (open_bucket (some b) capacity now).tokens ≤ b.tokens
unfolding open_bucket
open_bucket-least capacity now b = omega arith

-- A call moves at most what was there and what the time since the last call adds.
step_balance :
    (capacity limit : ℕ) (b : Bucket) (x : Attempt)
    → 0 < limit
    → let ran = admission_script (some b) x.now capacity limit x.cost in
      ((if ran.1 == 0 then x.cost else 0) * token + ran.0.tokens + b.last * limit
        ≤ b.tokens + ran.0.last * limit)
      × (b.last ≤ ran.0.last)
unfolding open_bucket
step_balance capacity limit b x h =
    let (moved, later) =
      refill-balance capacity limit x.now (open_bucket (some b) capacity x.now) in
    let (same, taken) = script-cases (some b) x.now capacity limit x.cost h in
    rw same (omega (arith, moved, taken, open_bucket-least capacity x.now b), later)

balance :
    (capacity limit : ℕ) (b : Bucket) (xs : List Attempt)
    → 0 < limit
    → let (total, end) = admitted_from capacity limit b xs in
      (total * token + end.tokens + b.last * limit ≤ b.tokens + end.last * limit)
      × (b.last ≤ end.last)
unfolding admitted_from
balance capacity limit b [] h = (omega arith, omega arith)
balance capacity limit b (x ∷ xs) h =
    let ran = admission_script (some b) x.now capacity limit x.cost in
    let (first, later) = step_balance capacity limit b x h in
    let (rest, last) = balance capacity limit ran.0 xs h in
    (omega (arith, first, rest), omega (arith, later, last))

step_at_most :
    (capacity limit : ℕ) (b : Bucket) (x : Attempt) (t : ℕ)
    → 0 < limit
    → b.last ≤ t
    → x.now ≤ t
    → (admission_script (some b) x.now capacity limit x.cost).0.last ≤ t
unfolding refill open_bucket
step_at_most capacity limit b x t h k l =
    rw (script-cases (some b) x.now capacity limit x.cost h).0 (ground arith)

-- No call leaves a bucket whose time lies after the call and the bucket before.
last_at_most :
    (capacity limit : ℕ) (b : Bucket) (xs : List Attempt) (t : ℕ)
    → 0 < limit
    → b.last ≤ t
    → All (λ x. x.now ≤ t) xs
    → (admitted_from capacity limit b xs).1.last ≤ t
unfolding admitted_from
last_at_most capacity limit b [] t h k l = k
last_at_most capacity limit b (x ∷ xs) t h k (l, ls) =
    let ran = admission_script (some b) x.now capacity limit x.cost in
    last_at_most capacity limit ran.0 xs t h (step_at_most capacity limit b x t h k l) ls

-- Over any sequence of calls until time `t` (milliseconds), the tokens that the bucket admits are at
-- most those it held at first, and `limit` a minute (a sixty-thousandth of it a millisecond) since.
pub admitted_from-bounds :
    (capacity limit : ℕ) (b : Bucket) (xs : List Attempt) (t : ℕ)
    → 0 < limit
    → b.last ≤ t
    → All (λ x. x.now ≤ t) xs
    → (admitted_from capacity limit b xs).0 * token ≤ b.tokens + (t - b.last) * limit
admitted_from-bounds capacity limit b xs t h k l =
    let (moved, later) = balance capacity limit b xs h in
    let end = (admitted_from capacity limit b xs).1 in
    let until : end.last * limit ≤ t * limit =
      mul-le-mul_right limit (last_at_most capacity limit b xs t h k l) in
    omega (arith, moved, until, distribute b.last t limit k)

full_pays :
    (now capacity limit cost : ℕ)
    → cost ≤ capacity
    → (admission_script none now capacity limit cost).1 ≡ 0
unfolding admission_script refill open_bucket
full_pays now capacity limit cost h = ground arith

cost_fits :
    (limit cost : ℤ)
    → cost ≤ℤ admission_capacity limit
    → pos_part cost ≤ pos_part (admission_capacity limit)
cost_fits limit cost h = ground arith

-- A model whose bucket is not stored yet, or was dropped after its two idle minutes, admits any request
-- at once, since no request costs more than the bucket holds.
pub try_model_admission-fresh :
    (configured reached : Bool) (now : ℕ) (p : Payload) (m : ProviderModel) (profile : String)
    → (try_model_admission configured reached none now p m profile).1.admitted ≡ true
unfolding try_model_admission after_admission
try_model_admission-fresh configured reached now p m profile =
    let P = λ (r : Option Bucket × ModelAdmission). r.1.admitted ≡ true in
    let limit = runtime_token_limit m in
    let cost = model_admission_cost p m profile in
    if_cases P (not configured || not (is_pos limit) || not (is_pos cost)) (λ _. refl)
      λ h. if_both P (not reached) refl (
        rw
          (full_pays now (pos_part (admission_capacity limit)) (pos_part limit) (pos_part cost)
            (cost_fits limit cost ((model_admission_cost-bounds p m profile).0 (ground arith)).1))
          refl)

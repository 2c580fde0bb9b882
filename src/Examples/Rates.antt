-- ===== src/Examples/Rates.antt =====
-- Concrete inputs of the results on the rate of guests.
use daiki_aipass_backend.Prelude.{◌≡◌, refl, String, Option, none, true, false, arith}
use daiki_aipass_backend.Prelude.Int.{ℤ, pos, is_neg, is_pos, ◌≤ℤ◌, ◌+ℤ◌, ◌-ℤ◌}
use daiki_aipass_backend.Redis.{in_memory}
use daiki_aipass_backend.Guest.Rate.{
  gap_left, check_script, count_request, let_through, enforce_script,
}
use daiki_aipass_backend.Guest.Rate.Agreement.{
  count, enforce_script-check_script, enforce_script-bounds,
}

abbrev no_guests : String → Option ℤ
no_guests k = none

abbrev half_an_hour : (String → Option ℤ) → String → ℤ
half_an_hour d k = pos 1800

enforce_script-check_script_example :
    (is_neg (enforce_script in_memory half_an_hour no_guests "g1" (pos 1000) (pos 45) (pos 6)).1
      ≡ is_pos (check_script in_memory half_an_hour no_guests "g1" (pos 1000) (pos 45) (pos 6)))
    × (is_neg (enforce_script in_memory half_an_hour no_guests "g1" (pos 1000) (pos 45) (pos 6)).1
          ≡ true
        → (enforce_script in_memory half_an_hour no_guests "g1" (pos 1000) (pos 45) (pos 6)).0
          ≡ no_guests)
enforce_script-check_script_example =
    enforce_script-check_script in_memory half_an_hour no_guests "g1" (pos 1000) (pos 45) (pos 6)
      (omega arith)

passes :
    is_neg (enforce_script in_memory half_an_hour no_guests "g1" (pos 1000) (pos 45) (pos 6)).1
    ≡ false
unfolding enforce_script gap_left let_through count_request ◌-ℤ◌ ◌+ℤ◌
passes = refl

enforce_script-bounds_example :
    (count in_memory half_an_hour
        (enforce_script in_memory half_an_hour no_guests "g1" (pos 1000) (pos 45) (pos 6)).0
        "g1"
      ≡ pos 0 +ℤ pos 1)
    × (count in_memory half_an_hour
          (enforce_script in_memory half_an_hour no_guests "g1" (pos 1000) (pos 45) (pos 6)).0
          "g1"
        ≤ℤ pos 6)
enforce_script-bounds_example =
    enforce_script-bounds in_memory half_an_hour no_guests "g1" (pos 1000) (pos 45) (pos 6) refl
      (omega arith) refl passes

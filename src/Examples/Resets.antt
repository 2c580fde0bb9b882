-- ===== src/Examples/Resets.antt =====
-- Concrete inputs of the results on quota resets.
use daiki_aipass_backend.Prelude.{true, false, [], ◌∷◌, All, refl}
use daiki_aipass_backend.Prelude.Int.{pos}
use daiki_aipass_backend.Quota.Resets.{
  Tables, Statements, grant_quota_resets, use_quota_reset_credit,
}
use daiki_aipass_backend.Quota.Resets.Account.{IsBalanced}
use daiki_aipass_backend.Quota.Resets.History.{
  nothing_granted, resets_granted, credit_used, History-IsBalanced,
}
use daiki_aipass_backend.Quota.Resets.Redeemed.{HasEnded, use_quota_reset_credit-HasEnded}

abbrev no_tables : Tables
no_tables = record {
  users = "u1" ∷ [];
  grants = [];
  next_grant = 1;
  events = [];
  next_event = 1;
  audit = [];
}

abbrev all_answers : Statements
all_answers = record {
  begins = true;
  selects = true;
  updates = true;
  inserts = true;
  audits = true;
  commits = true;
}

-- Two resets until the instant 900, granted at 100.
abbrev two_resets : Tables
two_resets =
    (grant_quota_resets (λ t. t) true true 100 100 no_tables "admin" "u1" (pos 2) 900 "sorry").0

abbrev one_redeemed : Tables
one_redeemed = (use_quota_reset_credit (λ id. false) all_answers 500 two_resets "u1").0

use_quota_reset_credit-HasEnded_example :
    HasEnded
      (λ id. false)
      all_answers
      500
      two_resets
      "u1"
      (use_quota_reset_credit (λ id. false) all_answers 500 two_resets "u1")
use_quota_reset_credit-HasEnded_example =
    use_quota_reset_credit-HasEnded (λ id. false) all_answers 500 two_resets "u1"

History-IsBalanced_example : All (IsBalanced one_redeemed.events) one_redeemed.grants
History-IsBalanced_example = History-IsBalanced (
    credit_used (λ id. false) all_answers 500 two_resets "u1"
      (resets_granted (λ t. t) true true 100 100 no_tables "admin" "u1" (pos 2) 900 "sorry"
        (nothing_granted no_tables refl refl)))

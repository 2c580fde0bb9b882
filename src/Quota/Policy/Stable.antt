-- ===== src/Quota/Policy/Stable.antt =====
-- Normalising a stored policy again (normalizePolicy, Quota/Policy) changes nothing.
use daiki_aipass_backend.Prelude.{
  ℕ, suc, ◌≡◌, refl, ap, ◌∙◌, String, false, List, [], ◌∷◌, str_eq, ltb, length, ok, Raw, absent,
  malformed, decoded, arith, Bool-cases, inl, inr,
}
use daiki_aipass_backend.Prelude.Int.{is_neg}
use daiki_aipass_backend.Quota.Policy.{
  QuotaLimit, ResourceLimits, Policy, has_negative, exceeds_platform, normalize_limits,
  normalize_resources, normalize_parallel, normalize_policy, normalized, relabel, decode_resources,
  decode_parallel, normalize_quota_interval, is_bad_mode, lacks_limit,
}
use daiki_aipass_backend.Quota.Policy.Normal.{
  IsNormal, AreLimits, AreResources, AreParallel, Decoded, normalize_quota_interval_idem,
  normalize_policy-IsNormal,
}

normalize_limits_stable :
    (i : ℕ) (xs : List QuotaLimit) → AreLimits i xs → normalize_limits i xs ≡ ok xs
unfolding normalize_limits relabel
normalize_limits_stable i [] h = refl
normalize_limits_stable i (x ∷ xs) (h, hs) =
    let interval : normalize_quota_interval x.interval_kind x.interval_count x.interval_seconds
        ≡ ok (x.interval_kind, x.interval_count) =
      normalize_quota_interval_idem x.interval_kind x.interval_count x.interval_seconds
        h.interval in
    let enough : is_neg x.token_limit ≡ false = ground arith in
    rw (enough, interval, normalize_limits_stable (suc i) xs hs, ← h.labelled)

normalize_resources_stable :
    (r : ResourceLimits) → AreResources r → normalize_resources (decoded r) ≡ ok r
unfolding normalize_resources decode_resources has_negative exceeds_platform
normalize_resources_stable r h = ground arith

normalize_parallel_stable :
    (mode : String) (xs : List QuotaLimit)
    → AreParallel mode xs
    → normalize_parallel mode (decoded xs) ≡ ok xs
unfolding normalize_parallel decode_parallel
normalize_parallel_stable mode xs h = elim (Bool-cases (str_eq mode "unlimited")) [
  | inl e ↦ rw (e, h.unlimited e)
  | inr e ↦
      let few : ltb 8 (length xs) ≡ false = ground arith in
      rw (e, few) (normalize_limits_stable 0 xs h.limits)
]

Decoded-cases :
    {A : Type 0} (P : A → Type 0) (raw : Raw A) → Decoded P raw → (a : A) × (raw ≡ decoded a) × P a
Decoded-cases P absent h = absurd h
Decoded-cases P malformed h = absurd h
Decoded-cases P (decoded a) h = (a, refl, h)

normalize_policy_stable : (q : Policy) → IsNormal q → normalize_policy q ≡ ok q
unfolding normalize_policy normalized
normalize_policy_stable q n =
    let (r, er, hr) = Decoded-cases AreResources q.resource_limits n.resources in
    let (xs, ex, hx) = Decoded-cases (AreParallel q.quota_mode) q.parallel_limits n.parallel in
    let mode : is_bad_mode q ≡ false = ground arith in
    let limited : lacks_limit q ≡ false = ground arith in
    let interval : normalize_quota_interval q.interval_kind q.interval_count q.interval_seconds
        ≡ ok (q.interval_kind, q.interval_count) =
      normalize_quota_interval_idem q.interval_kind q.interval_count q.interval_seconds
        n.interval in
    let resources : normalize_resources q.resource_limits ≡ ok r =
      ap normalize_resources er ∙ normalize_resources_stable r hr in
    let parallel : normalize_parallel q.quota_mode q.parallel_limits ≡ ok xs =
      ap (normalize_parallel q.quota_mode) ex ∙ normalize_parallel_stable q.quota_mode xs hx in
    rw (mode, limited, interval, resources, parallel) (ground arith)

-- What normalizePolicy returns, it returns again unchanged: a policy that is read back and stored
-- once more stays as it is.
pub normalize_policy_idem : (p q : Policy) → normalize_policy p ≡ ok q → normalize_policy q ≡ ok q
normalize_policy_idem p q h = normalize_policy_stable q (normalize_policy-IsNormal p q h)

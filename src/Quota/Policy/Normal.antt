-- ===== src/Quota/Policy/Normal.antt =====
-- What a policy that normalizePolicy (Quota/Policy) lets through looks like.
use daiki_aipass_backend.Prelude.{
  ℕ, suc, ◌≤◌, ◌≡◌, refl, inl, inr, String, Option, true, false, ◌||◌, List, [], ◌∷◌, str_eq, ltb,
  length, decimal, Result, ok, err, Raw, decoded, arith, eq_iff, ap, Result-cases, Ensures,
  >>=-Ensures, fail_if-Ensures, Ensures_ok, Ensures-map, Ensures-any, Bool-cases, subst,
}
use Prim.Native.String
use daiki_aipass_backend.Prelude.Int.{ℤ, pos, is_neg, ◌≤ℤ◌}
use daiki_aipass_backend.Quota.Policy.{
  QuotaLimit, ResourceLimits, Policy, is_interval_kind, missing_or_not_positive,
  missing_or_negative, normalize_quota_interval, has_negative, exceeds_platform, normalize_limits,
  normalize_resources, normalize_parallel, normalize_policy, normalized, is_bad_mode, lacks_limit,
  relabel, decode_resources, decode_parallel, or_empty,
}

-- An interval that can be evaluated: a known kind, a count of 1 to 8760 that is 1 unless the kind
-- is "hour", and a positive span for the kinds that need one.
pub record IsInterval (kind : String) (count : ℤ) (seconds : Option ℤ) : Type 0 where
  pub known : is_interval_kind kind ≡ true
  pub counted : pos 1 ≤ℤ count
  pub capped : count ≤ℤ pos 8760
  pub single : str_eq kind "hour" ≡ false → count ≡ pos 1
  pub spanned :
      (str_eq kind "rolling" || str_eq kind "custom") ≡ true
      → missing_or_not_positive seconds ≡ false

normalize_quota_interval-IsInterval :
    (kind : String) (count : ℤ) (seconds : Option ℤ) {k : String} {c : ℤ}
    → normalize_quota_interval kind count seconds ≡ ok (k, c)
    → IsInterval k c seconds
unfolding normalize_quota_interval
normalize_quota_interval-IsInterval kind count seconds h = ground arith

known_ne_empty : (k : String) → is_interval_kind k ≡ true → str_eq k "" ≡ false
unfolding is_interval_kind
known_ne_empty k h = elim (Bool-cases (str_eq k "")) [
  | inl e ↦
      let empty : k ≡ "" = (eq_iff k "").0 e in cc (subst (λ x. is_interval_kind x ≡ true) empty h)
  | inr e ↦ e
]

-- Normalising an interval twice changes nothing.
pub normalize_quota_interval_idem :
    (k : String) (c : ℤ) (seconds : Option ℤ)
    → IsInterval k c seconds
    → normalize_quota_interval k c seconds ≡ ok (k, c)
unfolding normalize_quota_interval
normalize_quota_interval_idem k c seconds v = rw (known_ne_empty k v.known, v.known) (ground arith)

-- A limit that normalizePolicy stored at index `i`.
pub record IsLimit (i : ℕ) (x : QuotaLimit) : Type 0 where
  pub labelled : x.id ≡ String.◌++◌ "parallel-" (decimal (suc i))
  pub not_negative : pos 0 ≤ℤ x.token_limit
  pub interval : IsInterval x.interval_kind x.interval_count x.interval_seconds

abbrev pub AreLimits : ℕ → List QuotaLimit → Type 0
AreLimits i [] = Unit
AreLimits i (x ∷ xs) = IsLimit i x × AreLimits (suc i) xs

abbrev IsPair : Option ℤ → String × ℤ → Type 0
IsPair seconds (kind, count) = IsInterval kind count seconds

interval_Ensures :
    (kind : String) (count : ℤ) (seconds : Option ℤ)
    → Ensures (IsPair seconds) (normalize_quota_interval kind count seconds)
interval_Ensures kind count seconds =
    elim (Result-cases (normalize_quota_interval kind count seconds)) [
      | inl ((k, c), e) ↦ rw e (normalize_quota_interval-IsInterval kind count seconds e)
      | inr (_, e) ↦ rw e tt
    ]

relabel-Ensures {ℓ} :
    (P : String × ℤ → Type ℓ) (i : ℕ) (r : Result (String × ℤ))
    → Ensures P r
    → Ensures P (relabel i r)
unfolding relabel
relabel-Ensures P i (ok a) h = h
relabel-Ensures P i (err e) h = tt

abbrev AreLimitsOf : ℕ → List QuotaLimit → List QuotaLimit → Type 0
AreLimitsOf i xs ys = AreLimits i ys × (length ys ≡ length xs)

normalize_limits-Ensures :
    (i : ℕ) (xs : List QuotaLimit) → Ensures (AreLimitsOf i xs) (normalize_limits i xs)
unfolding normalize_limits
normalize_limits-Ensures i [] = (tt, refl)
normalize_limits-Ensures i (x ∷ xs) =
    let seconds = x.interval_seconds in
    fail_if-Ensures (AreLimitsOf i (x ∷ xs)) (is_neg x.token_limit) _ _ λ ok_limit.
      >>=-Ensures (IsPair seconds) (AreLimitsOf i (x ∷ xs)) _ _
        (relabel-Ensures (IsPair seconds) i _
          (interval_Ensures x.interval_kind x.interval_count seconds))
        λ (kind, count) interval.
          >>=-Ensures (AreLimitsOf (suc i) xs) (AreLimitsOf i (x ∷ xs)) _ _
            (normalize_limits-Ensures (suc i) xs)
            λ rest (limits, same). (
              (
                record { labelled = refl; not_negative = ground arith; interval = interval },
                limits,
              ),
              ap suc same,
            )

abbrev pub InRange : ℤ → ℕ → Type 0
InRange x top = (pos 0 ≤ℤ x) × (x ≤ℤ pos top)

-- The platform's range of each resource limit; 0 means no limit.
pub record AreResources (r : ResourceLimits) : Type 0 where
  pub uploads : InRange r.max_uploads_per_hour 100_000
  pub files : InRange r.max_stored_files 100_000
  pub bytes : InRange r.max_stored_bytes 0x100_0000_0000
  pub attachments : InRange r.max_attachments_per_message 100
  pub file_bytes : InRange r.max_file_bytes 0x190_0000
  pub image_bytes : InRange r.max_image_bytes 0x40_0000

resources_in_range :
    (r : ResourceLimits) → has_negative r ≡ false → exceeds_platform r ≡ false → AreResources r
unfolding has_negative exceeds_platform
resources_in_range r h k = ground arith

normalize_resources-Ensures :
    (raw : Raw ResourceLimits) → Ensures AreResources (normalize_resources raw)
unfolding normalize_resources
normalize_resources-Ensures raw =
    >>=-Ensures (λ _. Unit {0}) AreResources (decode_resources raw) _
      (Ensures-any (decode_resources raw))
      λ r _.
        fail_if-Ensures AreResources (has_negative r) _ _
          λ h. fail_if-Ensures AreResources (exceeds_platform r) _ _ λ k. resources_in_range r h k

-- The limits beside the primary one: none if the mode is "unlimited", at most 8 otherwise.
pub record AreParallel (mode : String) (xs : List QuotaLimit) : Type 0 where
  pub limits : AreLimits 0 xs
  pub few : length xs ≤ 8
  pub unlimited : str_eq mode "unlimited" ≡ true → xs ≡ []

normalize_parallel-Ensures :
    (mode : String) (raw : Raw (List QuotaLimit))
    → Ensures (AreParallel mode) (normalize_parallel mode raw)
unfolding normalize_parallel
normalize_parallel-Ensures mode raw = elim (Bool-cases (str_eq mode "unlimited")) [
  | inl e ↦ rw e (record { limits = tt; few = omega arith; unlimited = λ _. refl })
  | inr e ↦
      rw (e, normalize_parallel)
        (>>=-Ensures (λ _. Unit {0}) (AreParallel mode) (decode_parallel raw) _
          (Ensures-any (decode_parallel raw))
          λ xs _. fail_if-Ensures (AreParallel mode) (ltb 8 (length xs)) _ _ λ few.
            Ensures-map (AreLimitsOf 0 xs) (AreParallel mode) (normalize_limits 0 xs)
              (normalize_limits-Ensures 0 xs)
              λ ys (limits, same). record {
                limits = limits;
                few = ground arith;
                unlimited = λ on. ground arith;
              })
]

abbrev pub Decoded : {A : Type 0} → (A → Type 0) → Raw A → Type 0
Decoded P (decoded a) = P a
Decoded P _ = ⊥

-- A policy that can be stored.
pub record IsNormal (p : Policy) : Type 0 where
  pub mode : (str_eq p.quota_mode "unlimited" || str_eq p.quota_mode "limited") ≡ true
  pub limited : str_eq p.quota_mode "limited" ≡ true → missing_or_negative p.token_limit ≡ false
  pub interval : IsInterval p.interval_kind p.interval_count p.interval_seconds
  pub resources : Decoded AreResources p.resource_limits
  pub parallel : Decoded (AreParallel p.quota_mode) p.parallel_limits
  pub models : or_empty p.allowed_models ≡ p.allowed_models

normalized-IsNormal :
    (p : Policy) (kind : String) (count : ℤ) (r : ResourceLimits) (xs : List QuotaLimit)
    → is_bad_mode p ≡ false
    → lacks_limit p ≡ false
    → IsInterval kind count p.interval_seconds
    → AreResources r
    → AreParallel p.quota_mode xs
    → IsNormal (normalized p kind count r xs)
unfolding normalized or_empty
normalized-IsNormal p kind count r xs mode limited interval resources parallel = record {
  mode = ground arith;
  limited = λ on. ground arith;
  interval = interval;
  resources = resources;
  parallel = parallel;
  models = ground arith;
}

normalize_policy-Ensures : (p : Policy) → Ensures IsNormal (normalize_policy p)
unfolding normalize_policy
normalize_policy-Ensures p = fail_if-Ensures IsNormal (is_bad_mode p) _ _ λ mode.
    fail_if-Ensures IsNormal (lacks_limit p) _ _ λ limited.
      >>=-Ensures (IsPair p.interval_seconds) IsNormal
        (normalize_quota_interval p.interval_kind p.interval_count p.interval_seconds) _
        (interval_Ensures p.interval_kind p.interval_count p.interval_seconds)
        λ (kind, count) interval.
          >>=-Ensures AreResources IsNormal (normalize_resources p.resource_limits) _
            (normalize_resources-Ensures p.resource_limits)
            λ r resources.
              >>=-Ensures (AreParallel p.quota_mode) IsNormal
                (normalize_parallel p.quota_mode p.parallel_limits) _
                (normalize_parallel-Ensures p.quota_mode p.parallel_limits)
                λ xs parallel.
                  normalized-IsNormal p kind count r xs mode limited interval resources parallel

-- A policy that normalizePolicy returns has a known mode and interval, a token limit of at least 0
-- if it is limited, resource limits within the platform's range, and at most 8 parallel limits, each
-- with a known interval, a limit of at least 0 and the id of its place (none if it is unlimited).
pub normalize_policy-IsNormal : (p q : Policy) → normalize_policy p ≡ ok q → IsNormal q
normalize_policy-IsNormal p q h = Ensures_ok IsNormal (normalize_policy-Ensures p) h

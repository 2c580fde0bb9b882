-- ===== src/Inference/Queue/Selection.antt =====
-- Which queued request the script of tryAcquire (Inference/Queue) selects, and what its loop leaves alone.
use daiki_aipass_backend.Prelude.{
  ℕ, ◌≡◌, refl, ◌∙◌, String, Option, none, some, Bool, true, false, not, ◌&&◌, List, [], ◌∷◌,
  str_eq, if◌then◌else◌, Bool-cases, inl, inr, eq_iff, eq_refl, subst,
}
use daiki_aipass_backend.Redis.Sorted.{Leases, both_eq}
use daiki_aipass_backend.Inference.Queue.{
  Workload, fast, deep, vision, image, embedding, batch, queue_key, global_lease_key,
  workload_lease_key, principal_hash, expiry_hash, remove_queued, has_expired, is_eligible, is_idle,
  select,
}

pub queue_ne_global : (w : Workload) → str_eq (queue_key w) global_lease_key ≡ false
queue_ne_global fast = refl
queue_ne_global deep = refl
queue_ne_global vision = refl
queue_ne_global image = refl
queue_ne_global embedding = refl
queue_ne_global batch = refl

pub queue_ne_lease : (w : Workload) → str_eq (queue_key w) (workload_lease_key w) ≡ false
queue_ne_lease fast = refl
queue_ne_lease deep = refl
queue_ne_lease vision = refl
queue_ne_lease image = refl
queue_ne_lease embedding = refl
queue_ne_lease batch = refl

pub global_ne_queue : (w : Workload) → str_eq global_lease_key (queue_key w) ≡ false
global_ne_queue fast = refl
global_ne_queue deep = refl
global_ne_queue vision = refl
global_ne_queue image = refl
global_ne_queue embedding = refl
global_ne_queue batch = refl

pub global_ne_lease : (w : Workload) → str_eq global_lease_key (workload_lease_key w) ≡ false
global_ne_lease fast = refl
global_ne_lease deep = refl
global_ne_lease vision = refl
global_ne_lease image = refl
global_ne_lease embedding = refl
global_ne_lease batch = refl

pub lease_ne_global : (w : Workload) → str_eq (workload_lease_key w) global_lease_key ≡ false
lease_ne_global fast = refl
lease_ne_global deep = refl
lease_ne_global vision = refl
lease_ne_global image = refl
lease_ne_global embedding = refl
lease_ne_global batch = refl

pub lease_ne_queue : (w : Workload) → str_eq (workload_lease_key w) (queue_key w) ≡ false
lease_ne_queue fast = refl
lease_ne_queue deep = refl
lease_ne_queue vision = refl
lease_ne_queue image = refl
lease_ne_queue embedding = refl
lease_ne_queue batch = refl

pub principal_ne_expiry : (w : Workload) → str_eq (principal_hash w) (expiry_hash w) ≡ false
principal_ne_expiry fast = refl
principal_ne_expiry deep = refl
principal_ne_expiry vision = refl
principal_ne_expiry image = refl
principal_ne_expiry embedding = refl
principal_ne_expiry batch = refl

expiry_ne_principal : (w : Workload) → str_eq (expiry_hash w) (principal_hash w) ≡ false
expiry_ne_principal fast = refl
expiry_ne_principal deep = refl
expiry_ne_principal vision = refl
expiry_ne_principal image = refl
expiry_ne_principal embedding = refl
expiry_ne_principal batch = refl

module _ (redis : Leases) where
  open redis use {
    Db, score, zcard, zrange, hget, hget_number, value, zrem, hdel, score-zrem, score-hdel,
    zcard-zrem, zcard-hdel, value-zrem, value-hdel, hget-zrem, hget-hdel, hget_number-zrem,
    hget_number-hdel,
  }

  -- A request that may run: it has not waited too long, and its principal holds no lease.
  unfoldable pub is_free : Db → Workload → ℕ → String → Bool
  is_free d w now m = not (has_expired redis d w now m) && is_eligible redis d w m

  unfoldable pub first_free : Db → Workload → ℕ → List String → Option String
  first_free d w now [] = none
  first_free d w now (m ∷ ms) =
      let rest = first_free d w now ms in if is_free d w now m then some m else rest

  pub value-remove_queued :
      (d : Db) (w : Workload) (m j : String) → value (remove_queued redis d w m) j ≡ value d j
  unfolding remove_queued
  value-remove_queued d w m j = rw (value-hdel, value-hdel, value-zrem)

  pub zcard-remove_queued :
      (d : Db) (w : Workload) (m j : String)
      → str_eq (queue_key w) j ≡ false
      → zcard (remove_queued redis d w m) j ≡ zcard d j
  unfolding remove_queued
  zcard-remove_queued d w m j h =
      zcard-hdel _ _ _ j ∙ zcard-hdel _ _ _ j ∙ zcard-zrem d (queue_key w) m j h

  pub score-remove_queued :
      (d : Db) (w : Workload) (m j n : String)
      → score (remove_queued redis d w m) j n
        ≡ (if both_eq (queue_key w) m j n then none else score d j n)
  unfolding remove_queued
  score-remove_queued d w m j n = rw (score-hdel, score-hdel, score-zrem)

  hget-remove_queued :
      (d : Db) (w : Workload) (m x : String)
      → hget (remove_queued redis d w m) (principal_hash w) x
        ≡ (if str_eq m x then none else hget d (principal_hash w) x)
  unfolding remove_queued
  hget-remove_queued d w m x = rw (hget-hdel, hget-hdel, hget-zrem, expiry_ne_principal w, eq_refl)

  hget_number-remove_queued :
      (d : Db) (w : Workload) (m x : String)
      → hget_number (remove_queued redis d w m) (expiry_hash w) x
        ≡ (if str_eq m x then none else hget_number d (expiry_hash w) x)
  unfolding remove_queued
  hget_number-remove_queued d w m x =
      rw (hget_number-hdel, hget_number-hdel, hget_number-zrem, principal_ne_expiry w, eq_refl)

  is_idle-remove_queued :
      (d : Db) (w : Workload) (m : String) (p : Option String)
      → is_idle redis (remove_queued redis d w m) p ≡ is_idle redis d p
  unfolding is_idle
  is_idle-remove_queued d w m none = refl
  is_idle-remove_queued d w m (some p) = rw (value-remove_queued d w m)

  -- Removing a request that waited too long changes for no other whether it may run.
  is_free-remove_queued :
      (d : Db) (w : Workload) (now : ℕ) (m x : String)
      → has_expired redis d w now m ≡ true
      → is_free (remove_queued redis d w m) w now x ≡ is_free d w now x
  unfolding is_free has_expired is_eligible is_idle
  is_free-remove_queued d w now m x h = elim (Bool-cases (str_eq m x)) [
    | inl e ↦
        let same : m ≡ x = (eq_iff m x).0 e in
        let gone : has_expired redis d w now x ≡ true =
          subst (λ y. has_expired redis d w now y ≡ true) same h in
        rw (hget-remove_queued d w m x, hget_number-remove_queued d w m x, e, gone, is_idle)
    | inr e ↦ rw (
      hget-remove_queued d w m x,
      hget_number-remove_queued d w m x,
      e,
      is_idle-remove_queued d w m,
    )
  ]

  first_free-remove_queued :
      (d : Db) (w : Workload) (now : ℕ) (m : String) (xs : List String)
      → has_expired redis d w now m ≡ true
      → first_free (remove_queued redis d w m) w now xs ≡ first_free d w now xs
  unfolding first_free
  first_free-remove_queued d w now m [] h = refl
  first_free-remove_queued d w now m (x ∷ xs) h =
      rw (is_free-remove_queued d w now m x h, first_free-remove_queued d w now m xs h)

  -- The loop selects the first candidate that may run in the store it starts from.
  pub select-first_free :
      (d : Db) (w : Workload) (now : ℕ) (ms : List String)
      → (select redis d w now ms).1 ≡ first_free d w now ms
  unfolding select first_free is_free
  select-first_free d w now [] = refl
  select-first_free d w now (m ∷ ms) = elim (Bool-cases (has_expired redis d w now m)) [
    | inl e ↦
        rw (select, e)
          (select-first_free (remove_queued redis d w m) w now ms
            ∙ first_free-remove_queued d w now m ms e)
    | inr e ↦ elim (Bool-cases (is_eligible redis d w m)) [
      | inl f ↦ rw (select, e, f)
      | inr f ↦ rw (select, e, f) (select-first_free d w now ms)
    ]
  ]

  -- What every removal of a queued request keeps, the loop keeps.
  pub select-keeps {ℓ} :
      (P : Db → Type ℓ) (w : Workload)
      → ((d : Db) (m : String) → P d → P (remove_queued redis d w m))
      → (d : Db) (now : ℕ) (ms : List String) → P d
      → P (select redis d w now ms).0
  unfolding select
  select-keeps P w keep d now [] h = h
  select-keeps P w keep d now (m ∷ ms) h = elim (Bool-cases (has_expired redis d w now m)) [
    | inl e ↦ rw (select, e) (select-keeps P w keep (remove_queued redis d w m) now ms (keep d m h))
    | inr e ↦ elim (Bool-cases (is_eligible redis d w m)) [
      | inl f ↦ rw (select, e, f) h
      | inr f ↦ rw (select, e, f) (select-keeps P w keep d now ms h)
    ]
  ]

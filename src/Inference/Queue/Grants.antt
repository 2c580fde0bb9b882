-- ===== src/Inference/Queue/Grants.antt =====
-- What tryAcquire (Inference/Queue) does when it grants a request a slot.
use daiki_aipass_backend.Prelude.{
  false_ne_true, ℕ, suc, ◌≡◌, refl, sym, ◌∙◌, ap, ◌+◌, ◌/◌, ◌≤◌, ◌<◌, String, Option, none, some,
  true, false, List, str_eq, if◌then◌else◌, arith, Bool-cases, inl, inr, eq_iff, eq_refl, subst,
}
use daiki_aipass_backend.Prelude.Int.{pos_part}
use daiki_aipass_backend.Redis.Sorted.{Leases, is_some, both_eq}
use daiki_aipass_backend.Inference.Queue.{
  Workload, QueueConfig, Request, workload_limit, milliseconds, queue_key, global_lease_key,
  workload_lease_key, principal_key, lease_principal_hash, remove_queued, select, grant, take_slot,
  names, is_at_capacity, drop_expired_leases, try_acquire,
}
use daiki_aipass_backend.Inference.Queue.Selection.{
  queue_ne_global, queue_ne_lease, global_ne_queue, global_ne_lease, lease_ne_global,
  lease_ne_queue, first_free, value-remove_queued, zcard-remove_queued, score-remove_queued,
  select-first_free, select-keeps,
}

pub names_eq : (o : Option String) (r : String) → names o r ≡ true → o ≡ some r
names_eq none r h = absurd (false_ne_true h)
names_eq (some x) r h = ap some ((eq_iff x r).0 h)

pub not_some {ℓ} : {A : Type ℓ} (o : Option A) → is_some o ≡ false → o ≡ none
not_some none h = refl
not_some (some a) h = absurd (false_ne_true (sym h))

module _ (redis : Leases) where
  open redis use {
    Db, score, zcard, zrange, value, zadd, set, hset, expire, score-zadd, score-hset, score-expire,
    score-set, zcard-zadd, zcard-zadd_other, zcard-hset, zcard-set, zcard-expire, zcard-zrem_up_to,
    value-zadd, value-hset, value-expire, value-set, value-zrem_up_to, zrange-zrem_up_to,
  }

  -- A slot is granted to `r`, at `now`, in the step from `d` to `e`.
  pub record IsGranted (cfg : QueueConfig) (d : Db) (r : Request) (now : ℕ) (e : Db) : Type 0 where
    pub global_capacity : zcard e global_lease_key ≤ pos_part cfg.global_limit
    pub workload_capacity : zcard e (workload_lease_key r.workload) ≤ workload_limit cfg r.workload
    pub was_first :
        first_free redis
          (drop_expired_leases redis d r.workload now)
          r.workload
          now
          (zrange d (queue_key r.workload) 64)
        ≡ some r.request_id
    pub was_idle : value d (principal_key r.principal) ≡ none
    pub owned : value e (principal_key r.principal) ≡ some r.request_id
    pub other_owners :
        (k : String) → str_eq (principal_key r.principal) k ≡ false → value e k ≡ value d k
    pub global_lease :
        score e global_lease_key r.request_id ≡ some (now + milliseconds cfg.lease_ttl)
    pub workload_lease :
        score e (workload_lease_key r.workload) r.request_id
        ≡ some (now + milliseconds cfg.lease_ttl)
    pub left_queue : score e (queue_key r.workload) r.request_id ≡ none

  enough_seconds : (cfg : QueueConfig) → 0 < (milliseconds cfg.lease_ttl + 999) / 1000 + 60
  enough_seconds cfg = omega arith

  score-grant :
      (cfg : QueueConfig) (d : Db) (r : Request) (now : ℕ) (j n : String)
      → score (grant redis cfg d r now) j n ≡ (
          if both_eq (workload_lease_key r.workload) r.request_id j n
          then some (now + milliseconds cfg.lease_ttl)
          else if both_eq global_lease_key r.request_id j n
          then some (now + milliseconds cfg.lease_ttl)
          else if both_eq (queue_key r.workload) r.request_id j n
          then none
          else score d j n)
  unfolding grant
  score-grant cfg d r now j n =
      score-expire _ lease_principal_hash _ j n (enough_seconds cfg)
      ∙ rw (score-hset, score-zadd, score-zadd, score-remove_queued redis, score-set)

  value-grant :
      (cfg : QueueConfig) (d : Db) (r : Request) (now : ℕ) (j : String)
      → 0 < milliseconds cfg.lease_ttl
      → value (grant redis cfg d r now) j
        ≡ (if str_eq (principal_key r.principal) j then some r.request_id else value d j)
  unfolding grant
  value-grant cfg d r now j h =
      value-expire _ lease_principal_hash _ j (enough_seconds cfg)
      ∙ rw (value-hset, value-zadd, value-zadd, value-remove_queued redis) (value-set _ _ _ _ _ h)

  global-grant :
      (cfg : QueueConfig) (d : Db) (r : Request) (now : ℕ)
      → zcard (grant redis cfg d r now) global_lease_key ≤ suc (zcard d global_lease_key)
  unfolding grant
  global-grant cfg d r now =
      let before : zcard
            (remove_queued redis
              (set d (principal_key r.principal) r.request_id (milliseconds cfg.lease_ttl))
              r.workload r.request_id)
            global_lease_key
          ≡ zcard d global_lease_key =
        zcard-remove_queued redis _ r.workload r.request_id global_lease_key
          (queue_ne_global r.workload)
        ∙ zcard-set _ _ _ _ _ in
      rw
        (
          zcard-expire _ _ _ _ (enough_seconds cfg),
          zcard-hset,
          zcard-zadd_other _ (workload_lease_key r.workload) _ _ global_lease_key
              (lease_ne_global r.workload),
          ← before,
        )
        (zcard-zadd _ _ _ _)

  workload-grant :
      (cfg : QueueConfig) (d : Db) (r : Request) (now : ℕ)
      → zcard (grant redis cfg d r now) (workload_lease_key r.workload)
        ≤ suc (zcard d (workload_lease_key r.workload))
  unfolding grant
  workload-grant cfg d r now =
      let w = r.workload in
      let lease = workload_lease_key w in
      let before : zcard
            (zadd
              (remove_queued redis
                (set d (principal_key r.principal) r.request_id (milliseconds cfg.lease_ttl)) w
                r.request_id)
              global_lease_key (now + milliseconds cfg.lease_ttl) r.request_id)
            lease
          ≡ zcard d lease =
        zcard-zadd_other _ global_lease_key _ _ lease (global_ne_lease w)
        ∙ zcard-remove_queued redis _ w r.request_id lease (queue_ne_lease w)
        ∙ zcard-set _ _ _ _ _ in
      rw (zcard-expire _ _ _ _ (enough_seconds cfg), zcard-hset, ← before) (zcard-zadd _ _ _ _)

  -- What the end of the script has checked when it grants.
  take_slot_granted :
      (cfg : QueueConfig) (d e : Db) (selected : Option String) (r : Request) (now : ℕ)
      → take_slot redis cfg (d, selected) r now ≡ (e, true)
      → (selected ≡ some r.request_id)
        × (value d (principal_key r.principal) ≡ none)
        × (grant redis cfg d r now ≡ e)
  unfolding take_slot
  take_slot_granted cfg d e selected r now h =
      let named : names selected r.request_id ≡ true = ground arith in
      let idle : is_some (value d (principal_key r.principal)) ≡ false = ground arith in
      let granted : take_slot redis cfg (d, selected) r now ≡ (grant redis cfg d r now, true) =
        rw (take_slot, named, idle) in
      (names_eq selected r.request_id named, not_some _ idle, ap (λ x. x.0) (sym granted ∙ h))

  abbrev Keeps : Db → Workload → Db → Type 0
  Keeps d w e =
      (zcard e global_lease_key ≡ zcard d global_lease_key)
      × (zcard e (workload_lease_key w) ≡ zcard d (workload_lease_key w))
      × ((k : String) → value e k ≡ value d k)

  select-Keeps :
      (d : Db) (w : Workload) (now : ℕ) (ms : List String) → Keeps d w (select redis d w now ms).0
  select-Keeps d w now ms =
      select-keeps redis (Keeps d w) w
        (λ e m (global, lease, owners). (
          zcard-remove_queued redis e w m global_lease_key (queue_ne_global w) ∙ global,
          zcard-remove_queued redis e w m (workload_lease_key w) (queue_ne_lease w) ∙ lease,
          λ k. value-remove_queued redis e w m k ∙ owners k,
        ))
        d now ms (refl, refl, λ k. refl)

  value-drop_expired_leases :
      (d : Db) (w : Workload) (now : ℕ) (k : String)
      → value (drop_expired_leases redis d w now) k ≡ value d k
  unfolding drop_expired_leases
  value-drop_expired_leases d w now k = rw (value-zrem_up_to, value-zrem_up_to)

  zrange-drop_expired_leases :
      (d : Db) (w : Workload) (now n : ℕ)
      → zrange (drop_expired_leases redis d w now) (queue_key w) n ≡ zrange d (queue_key w) n
  unfolding drop_expired_leases
  zrange-drop_expired_leases d w now n =
      zrange-zrem_up_to _ (workload_lease_key w) now (queue_key w) n (lease_ne_queue w)
      ∙ zrange-zrem_up_to d global_lease_key now (queue_key w) n (global_ne_queue w)

  -- The store in which the end of the script runs, its selected candidate, and what was checked.
  granted-cases :
      (cfg : QueueConfig) (d e : Db) (r : Request) (now : ℕ)
      → try_acquire redis cfg d r now ≡ (e, true)
      → (is_at_capacity redis cfg (drop_expired_leases redis d r.workload now) r.workload ≡ false)
        × (take_slot redis cfg
              (select redis
                (drop_expired_leases redis d r.workload now)
                r.workload
                now
                (zrange d (queue_key r.workload) 64))
              r
              now
            ≡ (e, true))
  unfolding try_acquire
  granted-cases cfg d e r now h =
      elim (Bool-cases
        (is_at_capacity redis cfg (drop_expired_leases redis d r.workload now) r.workload)) [
          | inl full ↦
              let refused : (try_acquire redis cfg d r now).1 ≡ false = rw (try_acquire, full) in
              absurd (false_ne_true (sym refused ∙ ap (λ x. x.1) h))
          | inr room ↦
              let rest : try_acquire redis cfg d r now
                  ≡ take_slot redis cfg
                      (select redis (drop_expired_leases redis d r.workload now) r.workload now
                        (zrange d (queue_key r.workload) 64))
                      r now =
                rw (try_acquire, room, zrange-drop_expired_leases d r.workload now 64) in
              (room, sym rest ∙ h)
        ]

  has_room :
      (cfg : QueueConfig) (d : Db) (w : Workload)
      → is_at_capacity redis cfg d w ≡ false
      → (zcard d global_lease_key < pos_part cfg.global_limit)
        × (zcard d (workload_lease_key w) < workload_limit cfg w)
  unfolding is_at_capacity
  has_room cfg d w h = ground arith

  -- When tryAcquire grants a request a slot (a positive lease of whole milliseconds is configured),
  -- the leases that are counted, the new one included, stay within the global limit and the
  -- workload's; the request was the first of the 64 at the head of its queue that had not waited
  -- too long and whose principal held no lease; its principal's key was free and now names the
  -- request, no other principal's key changed; and the request has left the queue and holds both
  -- leases until `now` plus the lease time.
  pub try_acquire-IsGranted :
      (cfg : QueueConfig) (d e : Db) (r : Request) (now : ℕ)
      → 0 < milliseconds cfg.lease_ttl
      → try_acquire redis cfg d r now ≡ (e, true)
      → IsGranted cfg d r now e
  try_acquire-IsGranted cfg d e r now positive h =
      let w = r.workload in
      let swept = drop_expired_leases redis d w now in
      let chosen = select redis swept w now (zrange d (queue_key w) 64) in
      let (room, end) = granted-cases cfg d e r now h in
      let (selected, idle, state) = take_slot_granted cfg chosen.0 e chosen.1 r now end in
      let (global, lease, owners) = select-Keeps swept w now (zrange d (queue_key w) 64) in
      let (free_global, free_lease) = has_room cfg swept w room in
      let old : (k : String) → value chosen.0 k ≡ value d k =
        λ k. owners k ∙ value-drop_expired_leases d w now k in
      subst (IsGranted cfg d r now) state (record {
        global_capacity = omega (arith, global-grant cfg chosen.0 r now, global, free_global);
        workload_capacity = omega (arith, workload-grant cfg chosen.0 r now, lease, free_lease);
        was_first =
            sym (select-first_free redis swept w now (zrange d (queue_key w) 64)) ∙ selected;
        was_idle = sym (old (principal_key r.principal)) ∙ idle;
        owned = rw (value-grant cfg chosen.0 r now (principal_key r.principal) positive, eq_refl);
        other_owners = λ k other. value-grant cfg chosen.0 r now k positive ∙ rw other (old k);
        global_lease = rw (score-grant cfg chosen.0 r now, lease_ne_global w, eq_refl);
        workload_lease = rw (score-grant cfg chosen.0 r now, eq_refl, eq_refl);
        left_queue =
            rw (
              score-grant cfg chosen.0 r now,
              lease_ne_queue w,
              global_ne_queue w,
              eq_refl,
              eq_refl,
            );
      })

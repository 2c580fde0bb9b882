-- ===== src/Inference/Queue/Outcomes.antt =====
-- How Acquire and Release (Inference/Queue) end, and the order of the queue.
use daiki_aipass_backend.Prelude.{
  ℕ, ◌≡◌, ap, ◌<◌, String, none, some, Bool, true, false, ◌&&◌, ◌||◌, List, [], ◌∷◌, str_eq,
  if◌then◌else◌, arith, Bool-cases, inl, inr, eq_refl, Result, ok, err,
}
use daiki_aipass_backend.Prelude.Int.{ℤ}
use daiki_aipass_backend.Redis.Sorted.{Leases, both_eq}
use daiki_aipass_backend.Inference.Queue.{
  Workload, QueueConfig, Request, milliseconds, queue_key, global_lease_key, workload_lease_key,
  principal_key, names, clamp_priority, queue_score, remove_queued, try_acquire, release, Poll,
  runs, fails, acquire_loop, acquire, enqueue,
}
use daiki_aipass_backend.Inference.Queue.Selection.{lease_ne_global, score-remove_queued}
use daiki_aipass_backend.Inference.Queue.Grants.{IsGranted, try_acquire-IsGranted}

-- Of two requests (their times before year 2286, in milliseconds), the one of the higher clamped
-- priority has the smaller score, and of two of the same priority the one that came first.
pub queue_score-order :
    (p q : ℤ) (t u : ℕ)
    → t < 10_000_000_000_000
    → u < 10_000_000_000_000
    → (clamp_priority q < clamp_priority p
        → queue_score (clamp_priority p) t < queue_score (clamp_priority q) u)
      × (clamp_priority p ≡ clamp_priority q
          → t < u
          → queue_score (clamp_priority p) t < queue_score (clamp_priority q) u)
unfolding clamp_priority queue_score
queue_score-order p q t u ht hu = (λ h. ground arith, λ h k. ground arith)

module _ (redis : Leases) where
  open redis use {
    Db, score, value, zadd, zrem, set, del, score-hdel, score-zrem, score-del, value-hdel,
    value-zrem, value-del,
  }

  -- What is left of a request once it is released.
  pub record IsReleased (d : Db) (r : Request) (e : Db) : Type 0 where
    pub global_gone : score e global_lease_key r.request_id ≡ none
    pub workload_gone : score e (workload_lease_key r.workload) r.request_id ≡ none
    pub others : (k m : String) → str_eq r.request_id m ≡ false → score e k m ≡ score d k m
    pub freed :
        value d (principal_key r.principal) ≡ some r.request_id
        → value e (principal_key r.principal) ≡ none
    pub kept :
        names (value d (principal_key r.principal)) r.request_id ≡ false
        → (k : String) → value e k ≡ value d k
    pub other_owners :
        (k : String) → str_eq (principal_key r.principal) k ≡ false → value e k ≡ value d k

  score-release :
      (d : Db) (r : Request) (k m : String)
      → score (release redis d r) k m ≡ (
          if both_eq (workload_lease_key r.workload) r.request_id k m
          then none
          else if both_eq global_lease_key r.request_id k m
          then none
          else score d k m)
  unfolding release
  score-release d r k m =
      elim (Bool-cases (names (value d (principal_key r.principal)) r.request_id)) [
        | inl e ↦ rw (score-hdel, score-zrem, score-zrem, e, score-del)
        | inr e ↦ rw (score-hdel, score-zrem, score-zrem, e)
      ]

  value-release :
      (d : Db) (r : Request) (k : String)
      → value (release redis d r) k ≡ (
          if names (value d (principal_key r.principal)) r.request_id
            && str_eq (principal_key r.principal) k
          then none
          else value d k)
  unfolding release
  value-release d r k =
      elim (Bool-cases (names (value d (principal_key r.principal)) r.request_id)) [
        | inl e ↦ rw (value-hdel, value-zrem, value-zrem, e, value-del)
        | inr e ↦ rw (value-hdel, value-zrem, value-zrem, e)
      ]

  -- Releasing a ticket removes both of its leases and no other request's, and frees its principal's
  -- key if that still names the request, but never a key that names another request.
  pub release-IsReleased : (d : Db) (r : Request) → IsReleased d r (release redis d r)
  release-IsReleased d r = record {
    global_gone = rw (score-release d r, lease_ne_global r.workload, eq_refl);
    workload_gone = rw (score-release d r, eq_refl, eq_refl);
    others = λ k m other. rw (score-release d r, other) (ground arith);
    freed = λ own. rw (value-release d r, own, eq_refl, eq_refl);
    kept = λ lost k. rw (value-release d r, lost);
    other_owners = λ k other. rw (value-release d r, other) (ground arith);
  }

  remove_queued_gone :
      (d : Db) (w : Workload) (m : String)
      → score (remove_queued redis d w m) (queue_key w) m ≡ none
  remove_queued_gone d w m = rw (score-remove_queued redis d w m, eq_refl, eq_refl)

  -- How a call of Acquire that reached the queue has ended.
  abbrev pub HasEnded : QueueConfig → Request → Bool → Db → Result ℕ → Type 0
  HasEnded cfg r reached e (ok now) = (d : Db) × IsGranted redis cfg d r now e
  HasEnded cfg r reached e (err _) =
      reached ≡ true → score e (queue_key r.workload) r.request_id ≡ none

  abandoned :
      (d : Db) (r : Request) (reached : Bool)
      → reached ≡ true
      → score
          (if reached then remove_queued redis d r.workload r.request_id else d)
          (queue_key r.workload)
          r.request_id
        ≡ none
  abandoned d r reached h = rw h (remove_queued_gone d r.workload r.request_id)

  acquire_loop-HasEnded :
      (cfg : QueueConfig) (d : Db) (r : Request) (ps : List (Poll redis)) (stop : String)
      (reached : Bool)
      → 0 < milliseconds cfg.lease_ttl
      → HasEnded cfg r reached
          (acquire_loop redis cfg d r ps stop reached).0
          (acquire_loop redis cfg d r ps stop reached).1
  unfolding acquire_loop
  acquire_loop-HasEnded cfg d r [] stop reached h = abandoned d r reached
  acquire_loop-HasEnded cfg d r (fails others e ∷ ps) stop reached h =
      abandoned (others d) r reached
  acquire_loop-HasEnded cfg d r (runs others now ∷ ps) stop reached h =
      let tried = try_acquire redis cfg (others d) r now in
      elim (Bool-cases tried.1) [
        | inl e ↦
            rw (acquire_loop, e)
              (
                others d,
                try_acquire-IsGranted redis cfg (others d) tried.0 r now h
                    (ap (λ b. (tried.0, b)) e),
              )
        | inr e ↦ rw (acquire_loop, e) (acquire_loop-HasEnded cfg tried.0 r ps stop reached h)
      ]

  -- A call of Acquire whose request was enqueued ends in one of two ways, whatever others do between
  -- its polls: with a ticket, and then the last poll granted it a slot; or with an error, and then,
  -- if the cancellation reaches Redis, its request is no longer in the queue.
  pub acquire-HasEnded :
      (cfg : QueueConfig) (d : Db) (r : Request) (priority : ℤ) (now : ℕ) (ps : List (Poll redis))
      (stop : String) (reached : Bool)
      → 0 < milliseconds cfg.lease_ttl
      → (str_eq r.request_id "" || str_eq r.principal "") ≡ false
      → HasEnded cfg r reached
          (acquire redis cfg d r priority now true ps stop reached).0
          (acquire redis cfg d r priority now true ps stop reached).1
  unfolding acquire
  acquire-HasEnded cfg d r priority now ps stop reached h named =
      rw (acquire, named)
        (acquire_loop-HasEnded cfg (enqueue redis cfg d r (clamp_priority priority) now) r ps stop
          reached h)

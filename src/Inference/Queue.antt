-- ===== src/Inference/Queue.antt =====
-- internal/inference/queue.go. Times are milliseconds since 1970; a time that one call reads twice is
-- read once. `q` and `q.redis` are not nil. A call that fails is taken not to have run. A poll of Acquire sees the store after whatever others did since the last one.
pub mod Selection
pub mod Grants
pub mod Outcomes
use Prim.Native.String
use daiki_aipass_backend.Prelude.{
  ℕ, zero, ◌+◌, ◌-◌, ◌*◌, ◌/◌, ◌≤◌, String, Option, none, some, Bool, true, false, not, ◌&&◌, ◌||◌,
  List, [], ◌∷◌, str_eq, ltb, leb, if◌then◌else◌, Result, ok, err,
}
use daiki_aipass_backend.Prelude.Int.{ℤ, pos, negsuc, is_pos, is_neg, pos_part, ltb_ℤ}
use daiki_aipass_backend.Redis.Sorted.{Leases, is_some}

infixr 65 ◌+++◌
abbrev ◌+++◌ : String → String → String
s +++ t = String.◌++◌ s t

pub data Workload : Type 0 where
  fast deep vision image embedding batch : Workload

abbrev pub workload_name : Workload → String
workload_name fast = "fast"
workload_name deep = "deep"
workload_name vision = "vision"
workload_name image = "image"
workload_name embedding = "embedding"
workload_name batch = "batch"

-- Durations in nanoseconds. `workload_limits` is nil or a map, where a missing key reads 0.
pub record QueueConfig : Type 0 where
  pub global_limit : ℤ
  pub per_principal_limit : ℤ
  pub workload_limits : Option (Workload → ℤ)
  pub lease_ttl : ℤ
  pub max_wait : ℤ
  pub poll_interval : ℤ

abbrev or_default : ℤ → ℕ → ℤ
or_default given standard = if is_pos given then given else pos standard

default_limits : Workload → ℤ
default_limits fast = pos 4
default_limits embedding = pos 2
default_limits _ = pos 1

or_limits : Option (Workload → ℤ) → Workload → ℤ
or_limits none = default_limits
or_limits (some limits) = limits

-- NewQueue
unfoldable pub new_queue : QueueConfig → QueueConfig
unfolding or_limits default_limits
new_queue cfg = record {
  global_limit = or_default cfg.global_limit 4;
  per_principal_limit = or_default cfg.per_principal_limit 1;
  workload_limits = some (or_limits cfg.workload_limits);
  lease_ttl = or_default cfg.lease_ttl 30_000_000_000;
  max_wait = or_default cfg.max_wait 120_000_000_000;
  poll_interval = or_default cfg.poll_interval 100_000_000;
}

abbrev pub queue_key : Workload → String
queue_key w = "daiki:queue:" +++ workload_name w

abbrev pub global_lease_key : String
global_lease_key = "daiki:queue:leases:global"

abbrev pub workload_lease_key : Workload → String
workload_lease_key w = "daiki:queue:leases:" +++ workload_name w

abbrev pub lease_principal_hash : String
lease_principal_hash = "daiki:queue:lease-principals"

abbrev pub principal_key : String → String
principal_key p = "daiki:queue:principal:" +++ p

abbrev pub principal_hash : Workload → String
principal_hash w = queue_key w +++ ":principal"

abbrev pub expiry_hash : Workload → String
expiry_hash w = queue_key w +++ ":expiry"

-- Duration.Milliseconds of a duration that is not negative.
abbrev pub milliseconds : ℤ → ℕ
milliseconds ns = pos_part ns / 1_000_000

unfoldable pub clamp_priority : ℤ → ℕ
clamp_priority p = if is_neg p then 0 else if ltb_ℤ (pos 9) p then 9 else pos_part p

-- A float64 holds these integers exactly, as they stay below 2^53.
unfoldable pub queue_score : ℕ → ℕ → ℕ
queue_score priority now = (9 - priority) * 10_000_000_000_000 + now

limit_of : Option (Workload → ℤ) → Workload → ℤ
limit_of none w = pos 0
limit_of (some limits) w = limits w

-- The limit of a workload, at least 1 as in tryAcquire.
unfoldable pub workload_limit : QueueConfig → Workload → ℕ
unfolding limit_of
workload_limit cfg w =
    let limit = limit_of cfg.workload_limits w in if is_pos limit then pos_part limit else 1

pub record Request : Type 0 where
  pub request_id : String
  pub principal : String
  pub workload : Workload

-- `x == r` where `x` may be nil.
abbrev pub names : Option String → String → Bool
names none r = false
names (some x) r = str_eq x r

module _ (redis : Leases) where
  open redis use {
    Db, score, zcard, zrange, hget, hget_number, value, zadd, zrem, zrem_up_to, hset, hset_number,
    hdel, set, del, expire,
  }

  -- `q.cancel`, and the three removals of the script.
  unfoldable pub remove_queued : Db → Workload → String → Db
  remove_queued d w m = hdel (hdel (zrem d (queue_key w) m) (principal_hash w) m) (expiry_hash w) m

  -- `exp>0 and exp<now`
  abbrev pub is_past : Option ℕ → ℕ → Bool
  is_past none now = false
  is_past (some e) now = ltb 0 e && ltb e now

  unfoldable pub has_expired : Db → Workload → ℕ → String → Bool
  has_expired d w now m = is_past (hget_number d (expiry_hash w) m) now

  -- `p and EXISTS(principal key of p)==0`
  unfoldable pub is_idle : Db → Option String → Bool
  is_idle d none = false
  is_idle d (some p) = not (is_some (value d (principal_key p)))

  unfoldable pub is_eligible : Db → Workload → String → Bool
  is_eligible d w m = is_idle d (hget d (principal_hash w) m)

  -- The loop over the candidates: the store it leaves and `selected`.
  unfoldable pub select : Db → Workload → ℕ → List String → Db × Option String
  select d w now [] = (d, none)
  select d w now (m ∷ ms) = elim (has_expired d w now m) [
    | true ↦ select (remove_queued d w m) w now ms
    | false ↦ elim (is_eligible d w m) [ true ↦ (d, some m) | false ↦ select d w now ms ]
  ]

  -- The two removals at the start of the script.
  unfoldable pub drop_expired_leases : Db → Workload → ℕ → Db
  drop_expired_leases d w now =
      zrem_up_to (zrem_up_to d global_lease_key now) (workload_lease_key w) now

  unfoldable pub is_at_capacity : QueueConfig → Db → Workload → Bool
  is_at_capacity cfg d w =
      leb (pos_part cfg.global_limit) (zcard d global_lease_key)
      || leb (workload_limit cfg w) (zcard d (workload_lease_key w))

  -- The last lines of the script.
  unfoldable pub grant : QueueConfig → Db → Request → ℕ → Db
  grant cfg d r now =
      let ttl = milliseconds cfg.lease_ttl in
      let d1 = set d (principal_key r.principal) r.request_id ttl in
      let d2 = remove_queued d1 r.workload r.request_id in
      let d3 = zadd d2 global_lease_key (now + ttl) r.request_id in
      let d4 = zadd d3 (workload_lease_key r.workload) (now + ttl) r.request_id in
      let d5 = hset d4 lease_principal_hash r.request_id r.principal in
      expire d5 lease_principal_hash ((ttl + 999) / 1000 + 60)

  -- From `selected~=request` on; SET … NX does nothing where the key exists.
  unfoldable pub take_slot : QueueConfig → Db × Option String → Request → ℕ → Db × Bool
  take_slot cfg (d, selected) r now =
      if not (names selected r.request_id) || is_some (value d (principal_key r.principal))
      then (d, false)
      else (grant cfg d r now, true)

  unfoldable pub try_acquire : QueueConfig → Db → Request → ℕ → Db × Bool
  try_acquire cfg d r now =
      let swept = drop_expired_leases d r.workload now in
      if is_at_capacity cfg swept r.workload
      then (swept, false)
      else take_slot cfg (select swept r.workload now (zrange swept (queue_key r.workload) 64)) r
          now

  -- The transaction at the start of Acquire.
  unfoldable pub enqueue : QueueConfig → Db → Request → ℕ → ℕ → Db
  enqueue cfg d r priority now =
      let seconds = pos_part cfg.max_wait / 1_000_000_000 + 60 in
      let w = r.workload in
      let d1 = zadd d (queue_key w) (queue_score priority now) r.request_id in
      let d2 = hset d1 (principal_hash w) r.request_id r.principal in
      let d3 = hset_number d2 (expiry_hash w) r.request_id (now + milliseconds cfg.max_wait) in
      expire (expire (expire d3 (queue_key w) seconds) (principal_hash w) seconds) (expiry_hash w)
        seconds

  -- The script of renew; the reply is whether the caller still owns the principal's key.
  unfoldable pub renew : QueueConfig → Db → Request → ℕ → Db × Bool
  renew cfg d r now =
      let ttl = milliseconds cfg.lease_ttl in
      if names (value d (principal_key r.principal)) r.request_id
      then (
        zadd
            (zadd (expire d (principal_key r.principal) ttl) global_lease_key (now + ttl)
              r.request_id)
            (workload_lease_key r.workload) (now + ttl) r.request_id,
        true,
      )
      else (d, false)

  unfoldable pub release : Db → Request → Db
  release d r =
      let pk = principal_key r.principal in
      let d1 = if names (value d pk) r.request_id then del d pk else d in
      hdel
        (zrem (zrem d1 global_lease_key r.request_id) (workload_lease_key r.workload) r.request_id)
        lease_principal_hash r.request_id

  -- What happens before the next poll of Acquire: others change the store, and then the script runs
  -- at some time, or its call fails.
  pub data Poll : Type 0 where
    runs : (Db → Db) → ℕ → Poll
    fails : (Db → Db) → String → Poll

  -- The loop of Acquire over the polls until the wait ends, for the reason `stop`, after the last;
  -- `reached` tells whether the cancellation reaches Redis.
  unfoldable pub acquire_loop :
      QueueConfig → Db → Request → List Poll → String → Bool → Db × Result ℕ
  acquire_loop cfg d r [] stop reached =
      (if reached then remove_queued d r.workload r.request_id else d, err stop)
  acquire_loop cfg d r (fails others e ∷ ps) stop reached =
      (if reached then remove_queued (others d) r.workload r.request_id else others d, err e)
  acquire_loop cfg d r (runs others now ∷ ps) stop reached =
      let tried = try_acquire cfg (others d) r now in
      elim tried.1 [ true ↦ (tried.0, ok now) | false ↦ acquire_loop cfg tried.0 r ps stop reached ]

  -- Acquire on a queue that has Redis; `sent` tells whether the transaction reaches it.
  unfoldable pub acquire :
      QueueConfig → Db → Request → ℤ → ℕ → Bool → List Poll → String → Bool → Db × Result ℕ
  acquire cfg d r priority now sent polls stop reached =
      if str_eq r.request_id "" || str_eq r.principal ""
      then (d, err "invalid queue identity")
      else if not sent
      then (d, err "redis unavailable")
      else acquire_loop cfg (enqueue cfg d r (clamp_priority priority) now) r polls stop reached

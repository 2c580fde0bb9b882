-- ===== src/Redis/Sorted.antt =====
-- What internal/inference relies on of Redis: sorted sets, hashes and keys with an owner. A script or
-- a transaction runs as one step. `score`, `hget`, `hget_number` and `value` read what is stored; a
-- key's own expiry is an event of its environment. A key holds values of one type: the laws that
-- relate commands of two types (such as score-set or hget-hset_number) are used at different keys
-- only, where Redis neither overwrites nor refuses.
pub mod Memory
use daiki_aipass_backend.Prelude.{
  ℕ, suc, ◌≤◌, ◌<◌, ◌≡◌, refl, String, Option, none, some, Bool, true, false, ◌&&◌, List, [], ◌∷◌,
  str_eq, leb, length, take, map, ap, arith, if◌then◌else◌,
}

abbrev pub is_some {ℓ} : {A : Type ℓ} → Option A → Bool
is_some none = false
is_some (some _) = true

-- Two names at once.
abbrev pub both_eq : String → String → String → String → Bool
both_eq k m j n = str_eq k j && str_eq m n

pub record Leases : Type 1 where
  pub Db : Type 0
  pub score : Db → String → String → Option ℕ
  pub zcard : Db → String → ℕ
  pub zrange : Db → String → ℕ → List String
  pub hget : Db → String → String → Option String
  pub hget_number : Db → String → String → Option ℕ
  pub value : Db → String → Option String
  pub zadd : Db → String → ℕ → String → Db
  pub zrem : Db → String → String → Db
  pub zrem_up_to : Db → String → ℕ → Db
  pub hset : Db → String → String → String → Db
  pub hset_number : Db → String → String → ℕ → Db
  pub hdel : Db → String → String → Db
  pub set : Db → String → String → ℕ → Db
  pub del : Db → String → Db
  pub expire : Db → String → ℕ → Db
  pub score-zadd :
      (d : Db) (k : String) (s : ℕ) (m j n : String)
      → score (zadd d k s m) j n ≡ (if both_eq k m j n then some s else score d j n)
  pub score-zrem :
      (d : Db) (k m j n : String)
      → score (zrem d k m) j n ≡ (if both_eq k m j n then none else score d j n)
  pub score-zrem_up_to_kept :
      (d : Db) (k : String) (top : ℕ) (n : String) (s : ℕ)
      → score d k n ≡ some s
      → top < s
      → score (zrem_up_to d k top) k n ≡ some s
  pub score-zrem_up_to_other :
      (d : Db) (k : String) (top : ℕ) (j n : String)
      → str_eq k j ≡ false
      → score (zrem_up_to d k top) j n ≡ score d j n
  pub score-hset : (d : Db) (k f v j n : String) → score (hset d k f v) j n ≡ score d j n
  pub score-hset_number :
      (d : Db) (k f : String) (v : ℕ) (j n : String) → score (hset_number d k f v) j n ≡ score d j n
  pub score-hdel : (d : Db) (k f j n : String) → score (hdel d k f) j n ≡ score d j n
  pub score-set :
      (d : Db) (k v : String) (ttl : ℕ) (j n : String) → score (set d k v ttl) j n ≡ score d j n
  pub score-del : (d : Db) (k j n : String) → score (del d k) j n ≡ score d j n
  pub score-expire :
      (d : Db) (k : String) (t : ℕ) (j n : String) → 0 < t → score (expire d k t) j n ≡ score d j n
  pub zcard-zadd :
      (d : Db) (k : String) (s : ℕ) (m : String) → zcard (zadd d k s m) k ≤ suc (zcard d k)
  pub zcard-zadd_other :
      (d : Db) (k : String) (s : ℕ) (m j : String)
      → str_eq k j ≡ false
      → zcard (zadd d k s m) j ≡ zcard d j
  pub zcard-zrem : (d : Db) (k m j : String) → str_eq k j ≡ false → zcard (zrem d k m) j ≡ zcard d j
  pub zcard-hset : (d : Db) (k f v j : String) → zcard (hset d k f v) j ≡ zcard d j
  pub zcard-hdel : (d : Db) (k f j : String) → zcard (hdel d k f) j ≡ zcard d j
  pub zcard-set :
      (d : Db) (k v : String) (ttl : ℕ) (j : String) → zcard (set d k v ttl) j ≡ zcard d j
  pub zcard-expire :
      (d : Db) (k : String) (t : ℕ) (j : String) → 0 < t → zcard (expire d k t) j ≡ zcard d j
  pub hget-hset :
      (d : Db) (k f v j g : String)
      → hget (hset d k f v) j g ≡ (if both_eq k f j g then some v else hget d j g)
  pub hget-hset_number :
      (d : Db) (k f : String) (v : ℕ) (j g : String) → hget (hset_number d k f v) j g ≡ hget d j g
  pub hget-hdel :
      (d : Db) (k f j g : String)
      → hget (hdel d k f) j g ≡ (if both_eq k f j g then none else hget d j g)
  pub hget-zrem : (d : Db) (k m j g : String) → hget (zrem d k m) j g ≡ hget d j g
  pub hget-zrem_up_to :
      (d : Db) (k : String) (top : ℕ) (j g : String) → hget (zrem_up_to d k top) j g ≡ hget d j g
  pub hget_number-hdel :
      (d : Db) (k f j g : String)
      → hget_number (hdel d k f) j g ≡ (if both_eq k f j g then none else hget_number d j g)
  pub hget_number-zrem :
      (d : Db) (k m j g : String) → hget_number (zrem d k m) j g ≡ hget_number d j g
  pub hget_number-zrem_up_to :
      (d : Db) (k : String) (top : ℕ) (j g : String)
      → hget_number (zrem_up_to d k top) j g ≡ hget_number d j g
  pub zcard-zrem_up_to :
      (d : Db) (k : String) (top : ℕ) (j : String) → zcard (zrem_up_to d k top) j ≤ zcard d j
  pub zrange-zrem_up_to :
      (d : Db) (k : String) (top : ℕ) (j : String) (n : ℕ)
      → str_eq k j ≡ false
      → zrange (zrem_up_to d k top) j n ≡ zrange d j n
  pub value-zadd : (d : Db) (k : String) (s : ℕ) (m j : String) → value (zadd d k s m) j ≡ value d j
  pub value-zrem : (d : Db) (k m j : String) → value (zrem d k m) j ≡ value d j
  pub value-zrem_up_to :
      (d : Db) (k : String) (top : ℕ) (j : String) → value (zrem_up_to d k top) j ≡ value d j
  pub value-hset : (d : Db) (k f v j : String) → value (hset d k f v) j ≡ value d j
  pub value-hdel : (d : Db) (k f j : String) → value (hdel d k f) j ≡ value d j
  pub value-expire :
      (d : Db) (k : String) (t : ℕ) (j : String) → 0 < t → value (expire d k t) j ≡ value d j
  pub value-set :
      (d : Db) (k v : String) (ttl : ℕ) (j : String)
      → 0 < ttl
      → value (set d k v ttl) j ≡ (if str_eq k j then some v else value d j)
  pub value-del :
      (d : Db) (k j : String) → value (del d k) j ≡ (if str_eq k j then none else value d j)

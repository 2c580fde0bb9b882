-- ===== src/Redis.antt =====
-- What the backend relies on of Redis, which is not part of this repository: interfaces of commands
-- with their documented behaviour. A key's own expiry is an event of its environment: EXPIRE with a
-- positive number of seconds leaves the value.
pub mod Sorted
use daiki_aipass_backend.Prelude.{
  ℕ, ◌<◌, ◌≡◌, refl, String, Option, none, some, str_eq, if◌then◌else◌,
}
use daiki_aipass_backend.Prelude.Int.{ℤ, pos, ◌+ℤ◌}

-- `tonumber(redis.call('GET', k) or '0')`
abbrev pub or_zero : Option ℤ → ℤ
or_zero none = pos 0
or_zero (some n) = n

-- Keys that hold integers. A script runs as one step, so commands follow one another on one `Db`.
pub record Counters : Type 1 where
  pub Db : Type 0
  pub get : Db → String → Option ℤ
  pub set : Db → String → ℤ → Db
  pub del : Db → String → Db
  pub incr_by : Db → String → ℤ → Db
  pub expire : Db → String → ℕ → Db
  pub get-set :
      (d : Db) (k : String) (v : ℤ) (j : String)
      → get (set d k v) j ≡ (if str_eq k j then some v else get d j)
  pub get-del : (d : Db) (k j : String) → get (del d k) j ≡ (if str_eq k j then none else get d j)
  pub get-incr_by :
      (d : Db) (k : String) (n : ℤ) (j : String)
      → get (incr_by d k n) j ≡ (if str_eq k j then some (or_zero (get d k) +ℤ n) else get d j)
  pub get-expire :
      (d : Db) (k : String) (seconds : ℕ) (j : String)
      → 0 < seconds
      → get (expire d k seconds) j ≡ get d j

abbrev Table : Type 0
Table = String → Option ℤ

abbrev write : Table → String → Option ℤ → Table
write d k v j = if str_eq k j then v else d j

-- A store in memory that behaves so.
abbrev pub in_memory : Counters
in_memory = record {
  Db = Table;
  get = λ d k. d k;
  set = λ d k v. write d k (some v);
  del = λ d k. write d k none;
  incr_by = λ d k n. write d k (some (or_zero (d k) +ℤ n));
  expire = λ d k seconds. d;
  get-set = λ d k v j. refl;
  get-del = λ d k j. refl;
  get-incr_by = λ d k n j. refl;
  get-expire = λ d k seconds j h. refl;
}

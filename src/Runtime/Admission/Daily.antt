-- ===== src/Runtime/Admission/Daily.antt =====
-- What the daily admission of Runtime/Admission guarantees.
use daiki_aipass_backend.Prelude.{
  false_ne_true, ℕ, ◌≡◌, refl, sym, ◌∙◌, ap, subst, if_both, ◌<◌, String, true, false, ◌&&◌,
  if◌then◌else◌, arith, Bool-cases, inl, inr, eq_refl, str_eq,
}
use daiki_aipass_backend.Prelude.Int.{ℤ, pos, is_pos, is_neg, leb_ℤ, neg, ◌≤ℤ◌, ◌<ℤ◌, ◌+ℤ◌}
use daiki_aipass_backend.Redis.{Counters, or_zero}
use daiki_aipass_backend.Runtime.Budget.{model_daily_admission_capacity}
use daiki_aipass_backend.Runtime.Admission.{DailyAdmission, daily_script, try_model_daily_admission}

capacity-pos : (limit : ℤ) → is_pos limit ≡ true → pos 1 ≤ℤ model_daily_admission_capacity limit
unfolding model_daily_admission_capacity
capacity-pos limit h = ground arith

neg-neg : (a : ℤ) → neg (neg a) ≡ a
unfolding neg
neg-neg a = ground arith

neg-is_neg : (a cap : ℤ) → leb_ℤ cap a ≡ true → pos 1 ≤ℤ cap → is_neg (neg a) ≡ true
unfolding neg
neg-is_neg a cap h k = ground arith

succ_not_neg : (a : ℤ) → pos 0 ≤ℤ a → is_neg (a +ℤ pos 1) ≡ false
unfolding ◌+ℤ◌
succ_not_neg a h = ground arith

succ_at_most : (a cap : ℤ) → leb_ℤ cap a ≡ false → (a +ℤ pos 1) ≤ℤ cap
unfolding ◌+ℤ◌
succ_at_most a cap h = ground arith

module _ (redis : Counters) where
  open redis use {Db, get, incr_by, expire, get-incr_by, get-expire}

  abbrev pub count : Db → String → ℤ
  count d key = or_zero (get d key)

  -- The two ends of a call that reached the counter: a slot was left and is counted, or none was
  -- left and nothing changed.
  pub record IsDaily (d : Db) (key : String) (limit : ℤ) (e : Db) (a : DailyAdmission)
      : Type 0 where
    pub admits :
        a.admitted ≡ true
        → (count d key <ℤ model_daily_admission_capacity limit)
          × (count e key ≡ count d key +ℤ pos 1)
          × (count e key ≤ℤ model_daily_admission_capacity limit)
          × (a.used ≡ count e key)
    pub refuses :
        a.admitted ≡ false
        → (model_daily_admission_capacity limit ≤ℤ count d key) × (e ≡ d) × (a.used ≡ count d key)
    pub others : (j : String) → str_eq key j ≡ false → get e j ≡ get d j

  counted : (d : Db) (key : String) → count (incr_by d key (pos 1)) key ≡ count d key +ℤ pos 1
  counted d key = rw (get-incr_by, eq_refl)

  -- The store after a request is counted.
  counted_store : Db → String → ℕ → Db
  counted_store d key ttl =
      let e = incr_by d key (pos 1) in
      if leb_ℤ (count e key) (pos 1) && leb_ℤ (pos 1) (count e key) then expire e key ttl else e

  get-counted_store :
      (d : Db) (key : String) (ttl : ℕ) (j : String)
      → 0 < ttl
      → get (counted_store d key ttl) j ≡ get (incr_by d key (pos 1)) j
  unfolding counted_store
  get-counted_store d key ttl j h =
      let e = incr_by d key (pos 1) in
      if_both (λ x. get x j ≡ get e j) (leb_ℤ (count e key) (pos 1) && leb_ℤ (pos 1) (count e key))
        (get-expire e key ttl j h) refl

  daily_script-room :
      (d : Db) (key : String) (cap : ℤ) (ttl : ℕ)
      → leb_ℤ cap (count d key) ≡ false
      → daily_script redis d key cap ttl
        ≡ (counted_store d key ttl, count (incr_by d key (pos 1)) key)
  unfolding daily_script counted_store
  daily_script-room d key cap ttl h = rw (daily_script, h)

  daily_script-full :
      (d : Db) (key : String) (cap : ℤ) (ttl : ℕ)
      → leb_ℤ cap (count d key) ≡ true
      → daily_script redis d key cap ttl ≡ (d, neg (count d key))
  unfolding daily_script
  daily_script-full d key cap ttl h = rw (daily_script, h)

  -- With a daily limit, a count that is not negative and time left of the day, a call that reaches
  -- Redis is admitted only if the count lies below the capacity, and then adds one to it, so that it
  -- never exceeds the capacity; a refused call leaves the store as it is; and no other key changes.
  pub try_model_daily_admission-IsDaily :
      (d : Db) (key : String) (limit : ℤ) (ttl : ℕ)
      → is_pos limit ≡ true
      → pos 0 ≤ℤ count d key
      → 0 < ttl
      → IsDaily d key limit
          (try_model_daily_admission redis d true key limit ttl).0
          (try_model_daily_admission redis d true key limit ttl).1
  unfolding try_model_daily_admission
  try_model_daily_admission-IsDaily d key limit ttl h old left =
      let cap = model_daily_admission_capacity limit in
      elim (Bool-cases (leb_ℤ cap (count d key))) [
        | inl e ↦
            let below : is_neg (neg (count d key)) ≡ true =
              neg-is_neg (count d key) cap e (capacity-pos limit h) in
            rw (try_model_daily_admission, h, daily_script-full d key cap ttl e, below)
              (record {
                admits = λ k. absurd (false_ne_true k);
                refuses = λ k. (ground arith, refl, neg-neg (count d key));
                others = λ j other. refl;
              })
        | inr e ↦
            let above : is_neg (count d key +ℤ pos 1) ≡ false = succ_not_neg (count d key) old in
            let same : count (counted_store d key ttl) key ≡ count d key +ℤ pos 1 =
              ap or_zero (get-counted_store d key ttl key left) ∙ counted d key in
            rw
              (
                try_model_daily_admission,
                h,
                daily_script-room d key cap ttl e,
                counted d key,
                above,
              )
              (record {
                admits = λ k. (
                  ground arith,
                  same,
                  subst (λ x. x ≤ℤ cap) (sym same) (succ_at_most (count d key) cap e),
                  sym same,
                );
                refuses = λ k. absurd (false_ne_true (sym k));
                others = λ j other. get-counted_store d key ttl j left ∙ rw (get-incr_by, other);
              })
      ]

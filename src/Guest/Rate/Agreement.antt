-- ===== src/Guest/Rate/Agreement.antt =====
-- How the check of Guest/Rate and its enforcement agree.
use daiki_aipass_backend.Prelude.{
  false_ne_true, ◌≡◌, refl, sym, ◌∙◌, subst, String, some, Bool, true, false, str_eq, if◌then◌else◌,
  arith, Bool-cases, inl, inr, eq_refl, if_both,
}
use daiki_aipass_backend.Prelude.Int.{ℤ, pos, is_pos, is_neg, ltb_ℤ, eqb_ℤ, neg, ◌+ℤ◌, ◌≤ℤ◌}
use daiki_aipass_backend.Redis.{Counters, or_zero}
use daiki_aipass_backend.Guest.Rate.{
  hour_key, last_key, gap_left, is_spent, hour_left, check_script, count_request, let_through,
  enforce_script,
}

neg-is_neg : (a : ℤ) → is_pos a ≡ true → is_neg (neg a) ≡ true
unfolding neg
neg-is_neg a h = ground arith

hour_left-pos : (t : ℤ) → is_pos (hour_left t) ≡ true
hour_left-pos t = ground arith

wait_of_gap :
    (c : Bool) (gap left : ℤ)
    → is_pos gap ≡ true
    → is_pos (if c then (if ltb_ℤ gap left then left else gap) else gap) ≡ true
wait_of_gap c gap left h = ground arith

wait_of_hour :
    (gap left : ℤ)
    → is_pos gap ≡ false
    → is_pos left ≡ true
    → is_pos (if ltb_ℤ gap left then left else gap) ≡ is_pos left
wait_of_hour gap left h k = ground arith

not_neg_succ : (a : ℤ) → pos 0 ≤ℤ a → is_neg (a +ℤ pos 1) ≡ false
unfolding ◌+ℤ◌
not_neg_succ a h = ground arith

room_for_one :
    (hourly a : ℤ) → is_pos hourly ≡ true → is_spent hourly a ≡ false → (a +ℤ pos 1) ≤ℤ hourly
unfolding ◌+ℤ◌
room_for_one hourly a h k = ground arith

module _ (redis : Counters) (ttl : redis.Db → String → ℤ) where
  open redis use {Db, get, set, incr_by, expire, get-set, get-incr_by, get-expire}

  abbrev pub count : Db → String → ℤ
  count d subject = or_zero (get d (hour_key subject))

  get-count_request :
      (d : Db) (key j : String)
      → get (count_request redis ttl d key) j ≡ get (incr_by d key (pos 1)) j
  unfolding count_request
  get-count_request d key j =
      let e = incr_by d key (pos 1) in
      if_both (λ x. get x j ≡ get e j) (eqb_ℤ (or_zero (get e key)) (pos 1))
        (get-expire e key 3600 j (omega arith)) refl

  let_through-not_neg :
      (d : Db) (subject : String) (now min_gap hourly : ℤ)
      → pos 0 ≤ℤ count d subject
      → is_neg (let_through redis ttl d subject now min_gap hourly).1 ≡ false
  unfolding let_through
  let_through-not_neg d subject now min_gap hourly old =
      let counted : get (count_request redis ttl d (hour_key subject)) (hour_key subject)
          ≡ some (count d subject +ℤ pos 1) =
        get-count_request d (hour_key subject) (hour_key subject) ∙ rw (get-incr_by, eq_refl) in
      if_both (λ x. is_neg (or_zero (get x (hour_key subject))) ≡ false) (is_pos hourly)
        (rw counted (not_neg_succ (count d subject) old)) (ground arith)

  -- Where the hour's count is not negative, the script lets a request through exactly if the
  -- check asks for no wait; refusing one, it leaves the store as it is.
  pub enforce_script-check_script :
      (d : Db) (subject : String) (now min_gap hourly : ℤ)
      → pos 0 ≤ℤ count d subject
      → (is_neg (enforce_script redis ttl d subject now min_gap hourly).1
          ≡ is_pos (check_script redis ttl d subject now min_gap hourly))
        × (is_neg (enforce_script redis ttl d subject now min_gap hourly).1 ≡ true
            → (enforce_script redis ttl d subject now min_gap hourly).0 ≡ d)
  unfolding enforce_script check_script
  enforce_script-check_script d subject now min_gap hourly old =
      let gap = gap_left now min_gap (or_zero (get d (last_key subject))) in
      let left = hour_left (ttl d (hour_key subject)) in
      elim (Bool-cases (is_pos gap)) [
        | inl g ↦
            rw
              (
                enforce_script,
                check_script,
                g,
                neg-is_neg gap g,
                wait_of_gap (is_spent hourly (count d subject)) gap left g,
              )
              (refl, λ h. refl)
        | inr g ↦ elim (Bool-cases (is_spent hourly (count d subject))) [
          | inl s ↦
              rw
                (
                  enforce_script,
                  check_script,
                  g,
                  s,
                  neg-is_neg left (hour_left-pos (ttl d (hour_key subject))),
                  wait_of_hour gap left g (hour_left-pos (ttl d (hour_key subject))),
                  hour_left-pos (ttl d (hour_key subject)),
                )
                (refl, λ h. refl)
          | inr s ↦
              rw
                (
                  enforce_script,
                  check_script,
                  g,
                  s,
                  let_through-not_neg d subject now min_gap hourly old,
                )
                (sym g, λ h. absurd (false_ne_true h))
        ]
      ]

  let_through-count :
      (d : Db) (subject : String) (now min_gap hourly : ℤ)
      → str_eq (last_key subject) (hour_key subject) ≡ false
      → is_pos hourly ≡ true
      → count (let_through redis ttl d subject now min_gap hourly).0 subject
        ≡ count d subject +ℤ pos 1
  unfolding let_through
  let_through-count d subject now min_gap hourly apart limited =
      let key = hour_key subject in
      let counted : count (count_request redis ttl d key) subject ≡ count d subject +ℤ pos 1 =
        rw (get-count_request d key key, get-incr_by, eq_refl) in
      rw (let_through, limited)
        (if_both (λ x. count x subject ≡ count d subject +ℤ pos 1) (is_pos min_gap)
          (rw (get-set (count_request redis ttl d key) (last_key subject) now key, apart) counted)
          counted)

  -- Where an hourly limit is set, the hour's count is not negative and the two keys differ, a request
  -- that is let through adds one to the count, which stays within the limit.
  pub enforce_script-bounds :
      (d : Db) (subject : String) (now min_gap hourly : ℤ)
      → str_eq (last_key subject) (hour_key subject) ≡ false
      → pos 0 ≤ℤ count d subject
      → is_pos hourly ≡ true
      → is_neg (enforce_script redis ttl d subject now min_gap hourly).1 ≡ false
      → (count (enforce_script redis ttl d subject now min_gap hourly).0 subject
          ≡ count d subject +ℤ pos 1)
        × (count (enforce_script redis ttl d subject now min_gap hourly).0 subject ≤ℤ hourly)
  unfolding enforce_script
  enforce_script-bounds d subject now min_gap hourly apart old limited passed =
      let gap = gap_left now min_gap (or_zero (get d (last_key subject))) in
      let left = hour_left (ttl d (hour_key subject)) in
      elim (Bool-cases (is_pos gap)) [
        | inl g ↦
            let refused : is_neg (enforce_script redis ttl d subject now min_gap hourly).1 ≡ true =
              rw (enforce_script, g) (neg-is_neg gap g) in
            absurd (false_ne_true (sym passed ∙ refused))
        | inr g ↦ elim (Bool-cases (is_spent hourly (count d subject))) [
          | inl s ↦
              let refused : is_neg (enforce_script redis ttl d subject now min_gap hourly).1
                  ≡ true =
                rw (enforce_script, g, s)
                  (neg-is_neg left (hour_left-pos (ttl d (hour_key subject)))) in
              absurd (false_ne_true (sym passed ∙ refused))
          | inr s ↦
              let counted = let_through-count d subject now min_gap hourly apart limited in
              rw (enforce_script, g, s)
                (
                  counted,
                  subst (λ x. x ≤ℤ hourly) (sym counted)
                      (room_for_one hourly (count d subject) limited s),
                )
        ]
      ]

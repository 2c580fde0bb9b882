-- ===== src/Quota/Reserve/Locality.antt =====
-- What a round of the scripts of Quota/Reserve writes and reads: its own two keys only.
use daiki_aipass_backend.Prelude.{
  ◌≡◌, refl, sym, ◌∙◌, ◌≢◌, inl, inr, String, none, some, List, [], ◌∷◌, str_eq, if◌then◌else◌,
  arith, All, Bool-cases, str_eq_of_ne,
}
use daiki_aipass_backend.Prelude.Int.{ℤ, is_pos, min_ℤ, ◌-ℤ◌, ◌+ℤ◌}
use daiki_aipass_backend.Redis.{Counters, or_zero}
use daiki_aipass_backend.Quota.Reserve.{Slot, headroom, each_slot, reserve_slot, release_slot}

abbrev pub IsFresh : String → List Slot → Type 0
IsFresh k ss = All (λ s. (s.pending_key ≢ k) × (s.reservation_key ≢ k)) ss

-- All keys of the slots differ.
abbrev pub AreDistinct : List Slot → Type 0
AreDistinct [] = Unit
AreDistinct (s ∷ ss) =
    (s.pending_key ≢ s.reservation_key)
    × IsFresh s.pending_key ss
    × IsFresh s.reservation_key ss
    × AreDistinct ss

module _ (redis : Counters) where
  open redis use {Db, get, set, del, incr_by, expire, get-set, get-del, get-incr_by, get-expire}

  -- A round writes its own two keys only, and reads no other.
  pub record IsLocal (round : Db → Slot → Db) : Type 0 where
    frame :
        (d : Db) (s : Slot) (j : String)
        → s.pending_key ≢ j
        → s.reservation_key ≢ j
        → get (round d s) j ≡ get d j
    pending_local :
        (d e : Db) (s : Slot)
        → get d s.pending_key ≡ get e s.pending_key
        → get d s.reservation_key ≡ get e s.reservation_key
        → get (round d s) s.pending_key ≡ get (round e s) s.pending_key
    reservation_local :
        (d e : Db) (s : Slot)
        → get d s.pending_key ≡ get e s.pending_key
        → get d s.reservation_key ≡ get e s.reservation_key
        → get (round d s) s.reservation_key ≡ get (round e s) s.reservation_key

  -- What a round alone, on the first store, does to a slot's keys is what the second store has.
  abbrev pub Ran : (Db → Slot → Db) → Db → Db → Slot → Type 0
  Ran round d e s =
      (get e s.pending_key ≡ get (round d s) s.pending_key)
      × (get e s.reservation_key ≡ get (round d s) s.reservation_key)

  module _ (round : Db → Slot → Db) (local : IsLocal round) where
    pub each_slot_frame :
        (d : Db) (ss : List Slot) (j : String)
        → IsFresh j ss
        → get (each_slot redis round d ss) j ≡ get d j
    unfolding each_slot
    each_slot_frame d [] j h = refl
    each_slot_frame d (s ∷ ss) j h =
        each_slot_frame (round d s) ss j h.1 ∙ local.frame d s j h.0.0 h.0.1

    -- A round of another slot before changes nothing for these slots.
    Ran-before :
        (d e : Db) (s : Slot) (ss : List Slot)
        → IsFresh s.pending_key ss
        → IsFresh s.reservation_key ss
        → All (Ran round (round d s) e) ss
        → All (Ran round d e) ss
    Ran-before d e s [] fp fr h = tt
    Ran-before d e s (x ∷ xs) (p, fp) (r, fr) ((hp, hr), h) =
        let same_p : get (round d s) x.pending_key ≡ get d x.pending_key =
          local.frame d s x.pending_key (λ k. p.0 (sym k)) (λ k. r.0 (sym k)) in
        let same_r : get (round d s) x.reservation_key ≡ get d x.reservation_key =
          local.frame d s x.reservation_key (λ k. p.1 (sym k)) (λ k. r.1 (sym k)) in
        (
          (
            hp ∙ local.pending_local (round d s) d x same_p same_r,
            hr ∙ local.reservation_local (round d s) d x same_p same_r,
          ),
          Ran-before d e s xs fp fr h,
        )

    -- The loop does to each slot what its round alone would do.
    pub each_slot-Ran :
        (d : Db) (ss : List Slot)
        → AreDistinct ss
        → All (Ran round d (each_slot redis round d ss)) ss
    unfolding each_slot
    each_slot-Ran d [] h = tt
    each_slot-Ran d (s ∷ ss) (own, fresh_p, fresh_r, rest) = (
      (
        each_slot_frame (round d s) ss s.pending_key fresh_p,
        each_slot_frame (round d s) ss s.reservation_key fresh_r,
      ),
      Ran-before d (each_slot redis round (round d s) ss) s ss fresh_p fresh_r
          (each_slot-Ran (round d s) ss rest),
    )

  unfoldable pub share_of : ℤ → Db → Slot → ℤ
  unfolding headroom
  share_of amount d s = min_ℤ amount (headroom redis d s)

  pub share_of_local :
      (amount : ℤ) (d e : Db) (s : Slot)
      → get d s.pending_key ≡ get e s.pending_key
      → share_of amount d s ≡ share_of amount e s
  unfolding share_of headroom
  share_of_local amount d e s h = rw h

  get-expire_hour : (d : Db) (k j : String) → get (expire d k 3600) j ≡ get d j
  get-expire_hour d k j = get-expire d k 3600 j (omega arith)

  pub get-reserve_slot :
      (amount : ℤ) (d : Db) (s : Slot) (j : String)
      → get (reserve_slot redis amount d s) j ≡ (
          if str_eq s.reservation_key j
          then some (share_of amount d s)
          else if str_eq s.pending_key j
          then some (or_zero (get d s.pending_key) +ℤ share_of amount d s)
          else get d j)
  unfolding reserve_slot share_of
  get-reserve_slot amount d s j = rw (get-set, get-expire_hour, get-incr_by)

  -- `next` of the release script.
  unfoldable pub left_after : Db → Slot → ℤ
  left_after d s = or_zero (get d s.pending_key) -ℤ or_zero (get d s.reservation_key)

  pub get-release_slot :
      (d : Db) (s : Slot) (j : String)
      → get (release_slot redis d s) j ≡ (
          if str_eq s.reservation_key j
          then none
          else if str_eq s.pending_key j
          then (if is_pos (left_after d s) then some (left_after d s) else none)
          else get d j)
  unfolding release_slot left_after
  get-release_slot d s j = elim (Bool-cases (is_pos (left_after d s))) [
    | inl e ↦ rw (get-del, e, get-set)
    | inr e ↦ rw (get-del, e, get-del)
  ]

  pub reserve_slot-IsLocal : (amount : ℤ) → IsLocal (reserve_slot redis amount)
  reserve_slot-IsLocal amount = record {
    frame = λ d s j p r. rw (
      get-reserve_slot amount d s j,
      str_eq_of_ne s.reservation_key j r,
      str_eq_of_ne s.pending_key j p,
    );
    pending_local = λ d e s p r. rw (
      get-reserve_slot amount d s,
      get-reserve_slot amount e s,
      share_of_local amount d e s p,
      p,
    );
    reservation_local = λ d e s p r. rw (
      get-reserve_slot amount d s,
      get-reserve_slot amount e s,
      share_of_local amount d e s p,
      p,
      r,
    );
  }

  pub release_slot-IsLocal : IsLocal (release_slot redis)
  unfolding left_after
  release_slot-IsLocal = record {
    frame = λ d s j p r. rw (
      get-release_slot d s j,
      str_eq_of_ne s.reservation_key j r,
      str_eq_of_ne s.pending_key j p,
    );
    pending_local = λ d e s p r. rw (get-release_slot d s, get-release_slot e s, p, r);
    reservation_local = λ d e s p r. rw (get-release_slot d s, get-release_slot e s, p, r);
  }

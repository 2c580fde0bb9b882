-- ===== src/Quota/Reserve/Headroom.antt =====
-- What the reservation scripts of Quota/Reserve guarantee.
use daiki_aipass_backend.Prelude.{
  ◌≡◌, sym, ◌∙◌, ◌≢◌, ◌⊎◌, inl, inr, String, some, true, false, List, [], ◌∷◌, str_eq, arith, All,
  Any, All-zip, Bool-cases, str_eq_of_ne, eq_refl,
}
use daiki_aipass_backend.Prelude.Int.{
  ℤ, pos, negsuc, is_pos, min_ℤ, ◌-ℤ◌, ◌+ℤ◌, ◌≤ℤ◌, ◌<ℤ◌, int_laws,
}
use daiki_aipass_backend.Redis.{Counters, or_zero}
use daiki_aipass_backend.Quota.Reserve.{
  Slot, headroom, is_full, each_slot, reserve_slot, reserve_script,
}
use daiki_aipass_backend.Quota.Reserve.Locality.{
  AreDistinct, IsFresh, Ran, each_slot_frame, each_slot-Ran, get-reserve_slot, reserve_slot-IsLocal,
  share_of,
}

full_of_no_room : (l u p : ℤ) → is_pos (l -ℤ u -ℤ p) ≡ false → l ≤ℤ (u +ℤ p)
full_of_no_room l u p h = grind int_laws

share_within : (a l u p : ℤ) → (u +ℤ (p +ℤ min_ℤ a (l -ℤ u -ℤ p))) ≤ℤ l
share_within a l u p = grind int_laws

min_at_most : (a b : ℤ) → min_ℤ a b ≤ℤ a
min_at_most a b = ground arith

min_positive : (a b : ℤ) → is_pos b ≡ true → pos 0 <ℤ a → pos 0 <ℤ min_ℤ a b
min_positive a b h k = ground arith

module _ (redis : Counters) where
  open redis use {Db, get}

  abbrev pub pending : Db → Slot → ℤ
  pending d s = or_zero (get d s.pending_key)

  abbrev pub IsFull : Db → Slot → Type 0
  IsFull d s = s.limit ≤ℤ (s.durable +ℤ pending d s)

  -- What a granted reservation leaves behind for one window.
  pub record IsReserved (amount : ℤ) (d e : Db) (s : Slot) : Type 0 where
    pub share : ℤ
    pub at_most : share ≤ℤ amount
    pub some_of_it : pos 0 <ℤ amount → pos 0 <ℤ share
    pub added : get e s.pending_key ≡ some (pending d s +ℤ share)
    pub within : (s.durable +ℤ (pending d s +ℤ share)) ≤ℤ s.limit
    pub recorded : get e s.reservation_key ≡ some share

  abbrev HasRoom : Db → Slot → Type 0
  HasRoom d s = is_pos (headroom redis d s) ≡ true

  is_full-Any : (d : Db) (ss : List Slot) → is_full redis d ss ≡ true → Any (IsFull d) ss
  unfolding is_full headroom
  is_full-Any d [] h = ground arith
  is_full-Any d (s ∷ ss) h = elim (Bool-cases (is_pos (headroom redis d s))) [
    | inl e ↦ inr (is_full-Any d ss (ground arith))
    | inr e ↦ inl (full_of_no_room s.limit s.durable (pending d s) e)
  ]

  not_full-All : (d : Db) (ss : List Slot) → is_full redis d ss ≡ false → All (HasRoom d) ss
  unfolding is_full
  not_full-All d [] h = tt
  not_full-All d (s ∷ ss) h = (ground arith, not_full-All d ss (ground arith))

  pub own_key :
      (s : Slot)
      → s.pending_key ≢ s.reservation_key
      → str_eq s.reservation_key s.pending_key ≡ false
  own_key s h = str_eq_of_ne _ _ λ e. h (sym e)

  round-IsReserved :
      (amount : ℤ) (d e : Db) (s : Slot)
      → (s.pending_key ≢ s.reservation_key) × HasRoom d s
      → Ran redis (reserve_slot redis amount) d e s
      → IsReserved amount d e s
  unfolding share_of headroom
  round-IsReserved amount d e s (own, room) (p, r) = record {
    share = share_of redis amount d s;
    at_most = min_at_most amount (headroom redis d s);
    some_of_it = λ h. min_positive amount (headroom redis d s) room h;
    added = p ∙ rw (get-reserve_slot redis amount d s, own_key s own, eq_refl);
    within = share_within amount s.limit s.durable (pending d s);
    recorded = r ∙ rw (get-reserve_slot redis amount d s, eq_refl);
  }

  zip_own :
      (d : Db) (ss : List Slot)
      → AreDistinct ss
      → All (HasRoom d) ss
      → All (λ s. (s.pending_key ≢ s.reservation_key) × HasRoom d s) ss
  zip_own d [] h k = tt
  zip_own d (s ∷ ss) (own, fp, fr, h) (room, k) = ((own, room), zip_own d ss h k)

  -- The reserve script (reserveQuota), on windows whose keys all differ, either returns -1, writes
  -- nothing and has met a window that is full; or it returns 1, no window was full, and in every
  -- window a share of at most the amount asked for (some of it, if that is positive) is added to
  -- what is pending, which with the durable use stays within the limit, and is recorded under the
  -- request's key, while every other key stays as it was.
  pub reserve_script-IsReserved :
      (d : Db) (amount : ℤ) (ss : List Slot)
      → AreDistinct ss
      → (reserve_script redis d amount ss ≡ (d, negsuc 0)) × Any (IsFull d) ss
        ⊎ (e : Db) × (reserve_script redis d amount ss ≡ (e, pos 1))
          × All (IsReserved amount d e) ss
          × ((j : String) → IsFresh j ss → get e j ≡ get d j)
  unfolding reserve_script
  reserve_script-IsReserved d amount ss distinct = elim (Bool-cases (is_full redis d ss)) [
    | inl full ↦ inl (rw full, is_full-Any d ss full)
    | inr room ↦
        let local = reserve_slot-IsLocal redis amount in
        inr (
          each_slot redis (reserve_slot redis amount) d ss,
          rw room,
          All-zip _ _ (IsReserved amount d (each_slot redis (reserve_slot redis amount) d ss)) ss
              (round-IsReserved amount d _) (zip_own d ss distinct (not_full-All d ss room))
              (each_slot-Ran redis (reserve_slot redis amount) local d ss distinct),
          each_slot_frame redis (reserve_slot redis amount) local d ss,
        )
  ]

-- ===== src/Quota/Reserve/Restore.antt =====
-- Releasing a reservation (Quota/Reserve) takes back what it added.
use daiki_aipass_backend.Prelude.{
  ◌≡◌, sym, ap, ◌∙◌, ◌≢◌, inl, inr, String, none, some, List, [], ◌∷◌, if◌then◌else◌, arith, All,
  All-zip, eq_refl, subst,
}
use daiki_aipass_backend.Prelude.Int.{ℤ, pos, negsuc, is_pos, ◌-ℤ◌, ◌+ℤ◌, ◌≤ℤ◌, int_laws}
use daiki_aipass_backend.Redis.{Counters, or_zero}
use daiki_aipass_backend.Quota.Reserve.{Slot, each_slot, reserve_script, release_slot}
use daiki_aipass_backend.Quota.Reserve.Locality.{
  AreDistinct, IsFresh, Ran, each_slot_frame, each_slot-Ran, get-release_slot, release_slot-IsLocal,
  left_after,
}
use daiki_aipass_backend.Quota.Reserve.Headroom.{
  IsReserved, pending, own_key, reserve_script-IsReserved,
}

take_back : (p share : ℤ) → p +ℤ share -ℤ share ≡ p
take_back p share = grind int_laws

or_zero_if : (p : ℤ) → pos 0 ≤ℤ p → or_zero (if is_pos p then some p else none) ≡ p
or_zero_if p h = ground arith

one_ne_minus_one : pos 1 ≢ negsuc 0
one_ne_minus_one h = ground arith

module _ (redis : Counters) where
  open redis use {Db, get}

  -- What is pending in the window is what was pending before the reservation, and the
  -- reservation's own record is gone.
  abbrev pub IsRestored : Db → Db → Slot → Type 0
  IsRestored d e s = (pending redis e s ≡ pending redis d s) × (get e s.reservation_key ≡ none)

  round-IsRestored :
      (d e f : Db) (s : Slot)
      → s.pending_key ≢ s.reservation_key
      → pos 0 ≤ℤ pending redis d s
      → {amount : ℤ} → IsReserved redis amount d e s
      → Ran redis (release_slot redis) e f s
      → IsRestored d f s
  unfolding left_after
  round-IsRestored d e f s own old h (p, r) =
      let left : left_after redis e s ≡ pending redis d s =
        rw (h.added, h.recorded) (take_back (pending redis d s) h.share) in
      let here : get f s.pending_key
          ≡ (if is_pos (pending redis d s) then some (pending redis d s) else none) =
        p ∙ rw (get-release_slot redis e s, own_key redis s own, eq_refl, left) in
      (
        ap or_zero here ∙ or_zero_if (pending redis d s) old,
        r ∙ rw (get-release_slot redis e s, eq_refl),
      )

  distinct_own : (ss : List Slot) → AreDistinct ss → All (λ s. s.pending_key ≢ s.reservation_key) ss
  distinct_own [] h = tt
  distinct_own (s ∷ ss) (own, fp, fr, h) = (own, distinct_own ss h)

  release_of_reserved :
      (d e : Db) (amount : ℤ) (ss : List Slot)
      → AreDistinct ss
      → All (λ s. pos 0 ≤ℤ pending redis d s) ss
      → All (IsReserved redis amount d e) ss
      → All (IsRestored d (each_slot redis (release_slot redis) e ss)) ss
  release_of_reserved d e amount ss distinct old reserved =
      All-zip
        (λ s.
          ((s.pending_key ≢ s.reservation_key) × (pos 0 ≤ℤ pending redis d s))
          × IsReserved redis amount d e s)
        (Ran redis (release_slot redis) e (each_slot redis (release_slot redis) e ss))
        (IsRestored d (each_slot redis (release_slot redis) e ss)) ss
        (λ s ((own, o), r). round-IsRestored d e _ s own o r)
        (All-zip _ (IsReserved redis amount d e) _ ss (λ s h k. (h, k))
          (All-zip _ (λ s. pos 0 ≤ℤ pending redis d s) _ ss (λ s h k. (h, k))
            (distinct_own ss distinct) old)
          reserved)
        (each_slot-Ran redis (release_slot redis) (release_slot-IsLocal redis) e ss distinct)

  -- Releasing what a successful reservation recorded (releaseReservation after reserveQuota), in
  -- windows whose keys all differ and whose pending counts were not negative, gives every window the
  -- pending count it had before, removes the request's records, and leaves every other key alone.
  pub release-reserve_script :
      (d e : Db) (amount : ℤ) (ss : List Slot)
      → AreDistinct ss
      → All (λ s. pos 0 ≤ℤ pending redis d s) ss
      → reserve_script redis d amount ss ≡ (e, pos 1)
      → All (IsRestored d (each_slot redis (release_slot redis) e ss)) ss
        × ((j : String)
            → IsFresh j ss
            → get (each_slot redis (release_slot redis) e ss) j ≡ get d j)
  release-reserve_script d e amount ss distinct old h =
      elim (reserve_script-IsReserved redis d amount ss distinct) [
        | inl (refused, _) ↦
            absurd (one_ne_minus_one (sym (ap (λ x. x.1) h) ∙ ap (λ x. x.1) refused))
        | inr (e', granted, reserved, same) ↦
            let state : e' ≡ e = sym (ap (λ x. x.0) granted) ∙ ap (λ x. x.0) h in
            (
              release_of_reserved d e amount ss distinct old
                  (subst (λ x. All (IsReserved redis amount d x) ss) state reserved),
              λ j fresh.
                  each_slot_frame redis (release_slot redis) (release_slot-IsLocal redis) e ss j
                    fresh
                  ∙ subst (λ x. get x j ≡ get d j) state (same j fresh),
            )
      ]

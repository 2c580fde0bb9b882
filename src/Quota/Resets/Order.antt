-- ===== src/Quota/Resets/Order.antt =====
-- The order in which the grants of a user (Quota/Resets) are read, and what a redemption takes.
use daiki_aipass_backend.Prelude.{
  ◌≡◌, refl, Bool, true, false, List, [], ◌∷◌, arith, inl, inr, ◌⊎◌, All, Any, All-map, if_cases,
}
use daiki_aipass_backend.Quota.Evaluate.{QuotaResetGrant}
use daiki_aipass_backend.Quota.Resets.{grants_where, comes_first, insert_ordered, ordered}

module _ {ℓ} (P : QuotaResetGrant → Type ℓ) where
  pub All-insert_ordered :
      (g : QuotaResetGrant) (gs : List QuotaResetGrant)
      → P g
      → All P gs
      → All P (insert_ordered g gs)
  All-insert_ordered g [] p h = (p, tt)
  All-insert_ordered g (x ∷ xs) p h =
      if_cases (All P) (comes_first x g) (λ later. (h.0, All-insert_ordered g xs p h.1))
        (λ now. (p, h))

  pub All-ordered : (gs : List QuotaResetGrant) → All P gs → All P (ordered gs)
  All-ordered [] h = tt
  All-ordered (g ∷ gs) h = All-insert_ordered g (ordered gs) h.0 (All-ordered gs h.1)

  pub All-grants_where :
      (test : QuotaResetGrant → Bool) (gs : List QuotaResetGrant)
      → All P gs
      → All (λ g. P g × (test g ≡ true)) (grants_where test gs)
  All-grants_where test [] h = tt
  All-grants_where test (g ∷ gs) h =
      if_cases (All (λ g. P g × (test g ≡ true))) (test g)
        (λ e. ((h.0, e), All-grants_where test gs h.1)) (λ e. All-grants_where test gs h.1)

-- No grant comes before the first of the list.
abbrev pub IsFirst : QuotaResetGrant → List QuotaResetGrant → Type 0
IsFirst g gs = All (λ h. comes_first h g ≡ false) gs

comes_first_asym : (a b : QuotaResetGrant) → comes_first a b ≡ true → comes_first b a ≡ false
comes_first_asym a b h = ground arith

comes_first_trans :
    (a b c : QuotaResetGrant)
    → comes_first b a ≡ false
    → comes_first c b ≡ false
    → comes_first c a ≡ false
comes_first_trans a b c h k = ground arith

pub comes_first_irrefl : (g : QuotaResetGrant) → comes_first g g ≡ false
comes_first_irrefl g = ground arith

abbrev pub InOrder : List QuotaResetGrant → Type 0
InOrder [] = Unit
InOrder (g ∷ gs) = IsFirst g gs × InOrder gs

insert_ordered-InOrder :
    (g : QuotaResetGrant) (gs : List QuotaResetGrant) → InOrder gs → InOrder (insert_ordered g gs)
insert_ordered-InOrder g [] h = (tt, tt)
insert_ordered-InOrder g (x ∷ xs) h =
    if_cases InOrder (comes_first x g)
      (λ later. (
        All-insert_ordered (λ y. comes_first y x ≡ false) g xs (comes_first_asym x g later) h.0,
        insert_ordered-InOrder g xs h.1,
      ))
      (λ now. (
        (
          now,
          All-map (λ y. comes_first y x ≡ false) (λ y. comes_first y g ≡ false) xs
              (λ y k. comes_first_trans g x y now k) h.0,
        ),
        h,
      ))

pub ordered-InOrder : (gs : List QuotaResetGrant) → InOrder (ordered gs)
ordered-InOrder [] = tt
ordered-InOrder (g ∷ gs) = insert_ordered-InOrder g (ordered gs) (ordered-InOrder gs)

module _ {ℓ} (P : QuotaResetGrant → Type ℓ) where
  of_insert_ordered :
      (g : QuotaResetGrant) (gs : List QuotaResetGrant)
      → All P (insert_ordered g gs)
      → P g × All P gs
  of_insert_ordered g [] h = h
  of_insert_ordered g (x ∷ xs) h =
      if_cases (λ l. All P l → P g × All P (x ∷ xs)) (comes_first x g)
        (λ later k. let (p, rest) = of_insert_ordered g xs k.1 in (p, (k.0, rest))) (λ now k. k) h

  pub of_ordered : (gs : List QuotaResetGrant) → All P (ordered gs) → All P gs
  of_ordered [] h = tt
  of_ordered (g ∷ gs) h =
      let (p, rest) = of_insert_ordered g (ordered gs) h in (p, of_ordered gs rest)

  pub of_grants_where :
      (test : QuotaResetGrant → Bool) (gs : List QuotaResetGrant)
      → All P (grants_where test gs)
      → All (λ g. test g ≡ true → P g) gs
  of_grants_where test [] h = tt
  of_grants_where test (g ∷ gs) m =
      if_cases (λ l. All P l → (test g ≡ true → P g) × All (λ x. test x ≡ true → P x) gs) (test g)
        (λ e h. ((λ k. h.0), of_grants_where test gs h.1))
        (λ e h. ((λ k. absurd (absurd_test k e)), of_grants_where test gs h)) m
    where
      absurd_test : test g ≡ true → test g ≡ false → ⊥
      absurd_test k e = cc

-- Every row of a table stands in it.
pub members : (gs : List QuotaResetGrant) → All (λ g. Any (λ h. h ≡ g) gs) gs
members [] = tt
members (g ∷ gs) = (
  inl refl,
  All-map (λ x. Any (λ h. h ≡ x) gs) (λ x. (g ≡ x) ⊎ Any (λ h. h ≡ x) gs) gs (λ x m. inr m)
      (members gs),
)

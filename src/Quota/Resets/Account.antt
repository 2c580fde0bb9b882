-- ===== src/Quota/Resets/Account.antt =====
-- The account of the resets that Quota/Resets grants: what is left and what was redeemed.
use daiki_aipass_backend.Prelude.{
  ℕ, suc, ◌+◌, ◌≡◌, refl, String, Option, none, some, Bool, true, false, not, ◌||◌, List, [], ◌∷◌,
  ◌++◌, if◌then◌else◌, ltb, arith, All, All-map, All-snoc, if_both, if_cases,
}
use daiki_aipass_backend.Prelude.Int.{
  ℤ, pos, is_pos, ltb_ℤ, eqb_ℤ, ◌+ℤ◌, ◌≤ℤ◌, ◌<ℤ◌, eq_of_parts, +ℤ_parts,
}
use daiki_aipass_backend.Quota.Evaluate.{QuotaResetGrant}
use daiki_aipass_backend.Quota.Resets.{
  Tables, QuotaResetEvent, has_user, new_grant, grant_quota_resets,
}

abbrev pub names_grant : ℤ → Option ℤ → Bool
names_grant id none = false
names_grant id (some i) = eqb_ℤ i id

-- The redemptions that are logged of a grant.
abbrev pub credits : ℤ → List QuotaResetEvent → ℕ
credits id [] = 0
credits id (e ∷ es) = (if names_grant id e.grant_id then 1 else 0) + credits id es

-- Of 1 to 1000 resets, those that are left and those that were redeemed make up the whole.
abbrev pub IsBalanced : List QuotaResetEvent → QuotaResetGrant → Type 0
IsBalanced events g =
    (pos 0 <ℤ g.total_resets)
    × (g.total_resets ≤ℤ pos 1000)
    × (pos 0 ≤ℤ g.remaining_resets)
    × (g.remaining_resets +ℤ pos (credits g.id events) ≡ g.total_resets)

abbrev pub Distinct : List QuotaResetGrant → Type 0
Distinct [] = Unit
Distinct (g ∷ gs) = All (λ h. eqb_ℤ g.id h.id ≡ false) gs × Distinct gs

abbrev pub IsKnown : ℕ → Option ℤ → Type 0
IsKnown n none = Unit
IsKnown n (some id) = id <ℤ pos n

-- What holds of the tables at all times.
pub record IsAccounted (db : Tables) : Type 0 where
  pub distinct : Distinct db.grants
  pub numbered : All (λ g. g.id <ℤ pos db.next_grant) db.grants
  pub known : All (λ e. IsKnown db.next_grant e.grant_id) db.events
  pub balanced : All (IsBalanced db.events) db.grants

pub credits-snoc :
    (id : ℤ) (es : List QuotaResetEvent) (x : QuotaResetEvent)
    → credits id (es ++ x ∷ []) ≡ credits id es + (if names_grant id x.grant_id then 1 else 0)
credits-snoc id [] x = omega arith
credits-snoc id (e ∷ es) x = omega (arith, credits-snoc id es x)

not_named : (n : ℕ) (o : Option ℤ) → IsKnown n o → names_grant (pos n) o ≡ false
not_named n none h = refl
not_named n (some i) h = ground arith

credits-fresh :
    (n : ℕ) (es : List QuotaResetEvent)
    → All (λ e. IsKnown n e.grant_id) es
    → credits (pos n) es ≡ 0
credits-fresh n [] h = refl
credits-fresh n (e ∷ es) h = rw (not_named n e.grant_id h.0) (omega (arith, credits-fresh n es h.1))

Distinct-snoc :
    (n : ℕ) (gs : List QuotaResetGrant) (x : QuotaResetGrant)
    → x.id ≡ pos n
    → All (λ g. g.id <ℤ pos n) gs
    → Distinct gs
    → Distinct (gs ++ x ∷ [])
Distinct-snoc n [] x e h d = (tt, tt)
Distinct-snoc n (g ∷ gs) x e h d =
    (All-snoc (λ y. eqb_ℤ g.id y.id ≡ false) gs x d.0 (apart h.0 e), Distinct-snoc n gs x e h.1 d.1)
  where
    apart : g.id <ℤ pos n → x.id ≡ pos n → eqb_ℤ g.id x.id ≡ false
    apart lt e = rw e (ground arith)

later-IsKnown : (n : ℕ) (o : Option ℤ) → IsKnown n o → IsKnown (suc n) o
later-IsKnown n none h = tt
later-IsKnown n (some i) h = omega arith

new_grant-IsBalanced :
    (created : ℕ) (db : Tables) (subject actor : String) (count : ℤ) (expires : ℕ) (note : String)
    → IsAccounted db
    → is_pos count ≡ true
    → ltb_ℤ (pos 1000) count ≡ false
    → IsBalanced db.events (new_grant created db actor subject count expires note)
new_grant-IsBalanced created db subject actor count expires note a p q = (
  ground arith,
  ground arith,
  ground arith,
  rw (credits-fresh db.next_grant db.events a.known)
      (eq_of_parts (count +ℤ pos 0) count (omega (arith, +ℤ_parts count (pos 0)))),
)

abbrev pub Keeps {ℓ} : {A : Type ℓ} → Tables × A → Type 0
Keeps r = IsAccounted r.0

with_grant :
    (db after : Tables) (x : QuotaResetGrant)
    → IsAccounted db
    → x.id ≡ pos db.next_grant
    → IsBalanced db.events x
    → after.grants ≡ db.grants ++ x ∷ []
    → after.next_grant ≡ suc db.next_grant
    → after.events ≡ db.events
    → IsAccounted after
with_grant db after x a e b grants next events = record {
  distinct = rw grants (Distinct-snoc db.next_grant db.grants x e a.numbered a.distinct);
  numbered =
      rw (grants, next)
        (All-snoc (λ g. g.id <ℤ pos (suc db.next_grant)) db.grants x
          (All-map (λ g. g.id <ℤ pos db.next_grant) (λ g. g.id <ℤ pos (suc db.next_grant)) db.grants
            (λ g h. omega arith) a.numbered)
          (rw e (omega arith)));
  known =
      rw (events, next)
        (All-map (λ y. IsKnown db.next_grant y.grant_id)
          (λ y. IsKnown (suc db.next_grant) y.grant_id) db.events
          (λ y. later-IsKnown db.next_grant y.grant_id) a.known);
  balanced = rw (grants, events) (All-snoc (IsBalanced db.events) db.grants x a.balanced b);
}

module _ (stored : ℕ → ℕ) (inserts audits : Bool) (now created : ℕ) (db : Tables)
    (actor subject : String) (count : ℤ) (expires : ℕ) (note : String) where
  granted_lem :
      (after : Tables)
      → IsAccounted db
      → (not (is_pos count) || ltb_ℤ (pos 1000) count) ≡ false
      → after.grants
        ≡ db.grants ++ new_grant created db actor subject count (stored expires) note ∷ []
      → after.next_grant ≡ suc db.next_grant
      → after.events ≡ db.events
      → IsAccounted after
  granted_lem after a e =
      with_grant db after (new_grant created db actor subject count (stored expires) note) a refl (
        new_grant-IsBalanced created db subject actor count (stored expires) note a (ground arith)
          (ground arith))

  pub grant_quota_resets-IsAccounted :
      IsAccounted db
      → Keeps
          (grant_quota_resets stored inserts audits now created db actor subject count expires note)
  unfolding grant_quota_resets
  grant_quota_resets-IsAccounted a =
      if_cases Keeps (not (is_pos count) || ltb_ℤ (pos 1000) count) (λ e. a)
        (λ e. if_both Keeps (not (ltb now expires)) a (
          if_both Keeps (not inserts) a (
            if_both Keeps (not (has_user subject db.users)) a (
              if_both IsAccounted audits (granted_lem _ a e refl refl refl)
                (granted_lem _ a e refl refl refl)))))

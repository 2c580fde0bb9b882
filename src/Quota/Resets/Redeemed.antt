-- ===== src/Quota/Resets/Redeemed.antt =====
-- What UseQuotaResetCredit (Quota/Resets) takes, and when it fails.
use daiki_aipass_backend.Prelude.{
  ℕ, ◌≤◌, ◌<◌, ◌≢◌, eq_iff, ◌≡◌, refl, String, some, Bool, true, false, not, ◌&&◌, List, [], ◌∷◌,
  ◌++◌, map, arith, Bool-cases, inl, inr, All, Any, All-map, if_cases, Result, ok, err, fail_if,
  ◌>>=◌, ◌>>◌,
}
use daiki_aipass_backend.Prelude.Int.{ℤ, pos, ◌-ℤ◌, ◌≤ℤ◌, ◌<ℤ◌, eq_of_parts}
use daiki_aipass_backend.Quota.Evaluate.{QuotaResetGrant}
use daiki_aipass_backend.Quota.Resets.{
  Tables, QuotaResetEvent, is_available, grants_where, comes_first, Statements, is_taken,
  take_reset, first_of, redeemable, credit_event, redeemed, complete, redemption, or_rollback,
  use_quota_reset_credit,
}
use daiki_aipass_backend.Quota.Resets.Order.{
  InOrder, ordered-InOrder, comes_first_irrefl, All-ordered, All-grants_where, of_ordered,
  of_grants_where, members,
}

-- Every statement of the redemption is answered.
abbrev pub all_answered : Statements → Bool
all_answered a = a.begins && a.selects && a.updates && a.inserts && a.audits && a.commits

module _ (locked : ℤ → Bool) (now : ℕ) (subject : String) where
  -- The grant is the user's, has a reset left, has not expired, and is not locked.
  pub record IsUsable (h : QuotaResetGrant) : Type 0 where
    pub owned : h.user_subject ≡ subject
    pub left : pos 0 <ℤ h.remaining_resets
    pub alive : now < h.expires_at
    pub free : locked h.id ≡ false

  abbrev can_redeem : QuotaResetGrant → Bool
  can_redeem g = is_available now subject g && not (locked g.id)

  IsUsable-of : (h : QuotaResetGrant) → can_redeem h ≡ true → IsUsable h
  IsUsable-of h can = ground (arith, eq_iff h.user_subject subject)

  can_of : (h : QuotaResetGrant) → IsUsable h → can_redeem h ≡ true
  can_of h u = ground (arith, eq_iff h.user_subject subject)

-- `g` expires no later than `h`, and of two that expire together it has the smaller id.
abbrev pub Precedes : QuotaResetGrant → QuotaResetGrant → Type 0
Precedes g h = (g.expires_at ≤ h.expires_at) × (g.expires_at ≡ h.expires_at → g.id ≤ℤ h.id)

not_before : (g h : QuotaResetGrant) → comes_first h g ≡ false → Precedes g h
not_before g h e = (ground arith, λ same. ground arith)

-- A row of that id with resets left loses one; no other row changes.
abbrev pub Taken : ℤ → List QuotaResetGrant → List QuotaResetGrant → Type 0
Taken id [] [] = Unit
Taken id [] (h ∷ hs) = ⊥
Taken id (g ∷ gs) [] = ⊥
Taken id (g ∷ gs) (h ∷ hs) =
    (g.id ≡ id
      → pos 0 <ℤ g.remaining_resets
      → h ≡ record g { remaining_resets = g.remaining_resets -ℤ pos 1 })
    × (g.id ≢ id → h ≡ g)
    × Taken id gs hs

take_reset-Taken : (id : ℤ) (gs : List QuotaResetGrant) → Taken id gs (map (take_reset id) gs)
take_reset-Taken id [] = tt
take_reset-Taken id (g ∷ gs) =
    (λ same more. rw (taken same more), λ other. rw (kept other), take_reset-Taken id gs)
  where
    taken : g.id ≡ id → pos 0 <ℤ g.remaining_resets → is_taken id g ≡ true
    taken same more = ground arith

    kept : g.id ≢ id → is_taken id g ≡ false
    kept other = elim (Bool-cases (is_taken id g)) [
      | inl e ↦ absurd (other (eq_of_parts g.id id (ground arith)))
      | inr e ↦ e
    ]

module _ (locked : ℤ → Bool) (answers : Statements) (now : ℕ) (db : Tables) (subject : String) where
  -- What has changed after the redemption of a reset of the grant `g`.
  pub record IsRedeemed (g : QuotaResetGrant) (after : Tables) (x : QuotaResetEvent) : Type 0 where
    pub stored : Any (λ h. h ≡ g) db.grants
    pub usable : IsUsable locked now subject g
    pub first : All (λ h. IsUsable locked now subject h → Precedes g h) db.grants
    pub taken : Taken g.id db.grants after.grants
    pub logged : after.events ≡ db.events ++ x ∷ []
    pub named : x.grant_id ≡ some g.id
    pub owner : x.user_subject ≡ subject
    pub instant : x.reset_at ≡ now

  -- No grant of the user can be redeemed now.
  abbrev pub NoneLeft : Type 0
  NoneLeft = All (λ h. IsUsable locked now subject h → ⊥) db.grants

  abbrev pub HasEnded : Tables × Result QuotaResetEvent → Type 0
  HasEnded (after, err e) = (after ≡ db) × (all_answered answers ≡ true → NoneLeft)
  HasEnded (after, ok x) = (g : QuotaResetGrant) × IsRedeemed g after x

  -- The same of the transaction, before a failure is rolled back.
  abbrev Ends : Result (Tables × QuotaResetEvent) → Type 0
  Ends (err e) = all_answered answers ≡ true → NoneLeft
  Ends (ok (after, x)) = (g : QuotaResetGrant) × IsRedeemed g after x

  rolled_back : (r : Result (Tables × QuotaResetEvent)) → Ends r → HasEnded (or_rollback db r)
  rolled_back (err e) h = (refl, h)
  rolled_back (ok (after, x)) h = h

  answered :
      (bad : Bool) (e : String) (rest : Result (Tables × QuotaResetEvent))
      → (bad ≡ true → all_answered answers ≡ false)
      → Ends rest
      → Ends (fail_if bad e >> rest)
  answered true e rest h k = λ all. absurd (clash (h refl) all)
    where
      clash : all_answered answers ≡ false → all_answered answers ≡ true → ⊥
      clash a b = cc
  answered false e rest h k = k

  -- What is known of a grant that the query returns.
  abbrev IsFound : QuotaResetGrant → Type 0
  IsFound g = Any (λ h. h ≡ g) db.grants × (can_redeem locked now subject g ≡ true)

  found : All IsFound (redeemable locked now subject db)
  found = All-ordered IsFound (grants_where (can_redeem locked now subject) db.grants) (
      All-grants_where (λ g. Any (λ h. h ≡ g) db.grants) (can_redeem locked now subject) db.grants
        (members db.grants))

  left_of :
      (P : QuotaResetGrant → Type 0)
      → All P (redeemable locked now subject db)
      → All (λ g. can_redeem locked now subject g ≡ true → P g) db.grants
  left_of P h =
      of_grants_where P (can_redeem locked now subject) db.grants
        (of_ordered P (grants_where (can_redeem locked now subject) db.grants) h)

  abbrev Filled : List QuotaResetGrant → Type 0
  Filled [] = ⊥
  Filled (g ∷ gs) = Unit

  filled :
      (test : QuotaResetGrant → Bool) (g : QuotaResetGrant) (gs : List QuotaResetGrant)
      → test g ≡ true
      → Any (λ h. h ≡ g) gs
      → Filled (grants_where test gs)
  filled test g [] h m = m
  filled test g (x ∷ xs) h (inl e) = rw (e, h) tt
  filled test g (x ∷ xs) h (inr m) = if_cases Filled (test x) (λ e. tt) (λ e. filled test g xs h m)

  finished :
      (g : QuotaResetGrant)
      → IsFound g
      → All (λ h. can_redeem locked now subject h ≡ true → comes_first h g ≡ false) db.grants
      → (taken : QuotaResetGrant)
      → IsRedeemed g (redeemed now db subject g taken) (credit_event now db subject g.id)
  finished g (stored, can) first taken = record {
    stored = stored;
    usable = IsUsable-of locked now subject g can;
    first =
        All-map (λ h. can_redeem locked now subject h ≡ true → comes_first h g ≡ false)
          (λ h. IsUsable locked now subject h → Precedes g h) db.grants
          (λ h k u. not_before g h (k (can_of locked now subject h u))) first;
    taken = take_reset-Taken g.id db.grants;
    logged = refl;
    named = refl;
    owner = refl;
    instant = refl;
  }

  complete-Ends :
      (g : QuotaResetGrant)
      → IsFound g
      → All (λ h. can_redeem locked now subject h ≡ true → comes_first h g ≡ false) db.grants
      → Ends (complete answers now db subject g)
  complete-Ends g f first =
      answered (not answers.updates) _ _ (λ bad. ground arith)
        (go (grants_where (is_taken g.id) db.grants)
          (filled (is_taken g.id) g db.grants (own f.1) f.0))
    where
      own : can_redeem locked now subject g ≡ true → is_taken g.id g ≡ true
      own can = ground arith

      go :
          (rows : List QuotaResetGrant)
          → Filled rows
          → Ends (
              first_of (map (take_reset g.id) rows) >>= (λ taken.
                fail_if
                  (not (answers.inserts && answers.audits && answers.commits))
                  "database error"
                >> ok (redeemed now db subject g taken, credit_event now db subject g.id)))
      go [] h = absurd h
      go (r ∷ rows) h =
          answered (not (answers.inserts && answers.audits && answers.commits)) _ _
            (λ bad. ground arith) (g, finished g f first (take_reset g.id r))

  first-Ends :
      (gs : List QuotaResetGrant)
      → InOrder gs
      → All IsFound gs
      → ((P : QuotaResetGrant → Type 0)
          → All P gs
          → All (λ g. can_redeem locked now subject g ≡ true → P g) db.grants)
      → Ends (first_of gs >>= λ g. complete answers now db subject g)
  first-Ends [] o f left = λ all.
      All-map (λ h. can_redeem locked now subject h ≡ true → ⊥)
        (λ h. IsUsable locked now subject h → ⊥) db.grants
        (λ h none u. none (can_of locked now subject h u)) (left (λ h. ⊥) tt)
  first-Ends (g ∷ gs) o f left =
      complete-Ends g f.0 (left (λ h. comes_first h g ≡ false) (comes_first_irrefl g, o.0))

  -- A redemption takes one reset of the grant of the user that expires first among those that have
  -- not expired, have resets left and are not locked, and logs one event for it; or it fails and
  -- changes nothing. It fails only if a statement is not answered or no such grant is left.
  pub use_quota_reset_credit-HasEnded :
      HasEnded (use_quota_reset_credit locked answers now db subject)
  unfolding use_quota_reset_credit
  use_quota_reset_credit-HasEnded = rolled_back (redemption locked answers now db subject) (
      answered (not (answers.begins && answers.selects)) _ _ (λ bad. ground arith)
        (first-Ends (redeemable locked now subject db)
          (ordered-InOrder (grants_where (can_redeem locked now subject) db.grants)) found left_of))

-- ===== src/Quota/Resets/History.antt =====
-- The account of the resets (Quota/Resets) over any history of operations.
use native.Mathlib.Nat.{add-zero}
use daiki_aipass_backend.Prelude.{
  ℕ, ◌+◌, ◌≡◌, refl, ◌∙◌, String, none, some, Bool, true, false, not, ◌&&◌, List, [], ◌∷◌, ◌++◌,
  map, arith, All, All-map, All-zip, All-snoc, if_both, if_cases, Result, ok, fail_if, ◌>>=◌, ◌>>◌,
}
use daiki_aipass_backend.Prelude.Int.{
  ℤ, pos, is_pos, eqb_ℤ, ◌+ℤ◌, ◌-ℤ◌, ◌≤ℤ◌, ◌<ℤ◌, int_laws, -ℤ_parts,
}
use daiki_aipass_backend.Quota.Evaluate.{QuotaResetGrant}
use daiki_aipass_backend.Quota.Resets.{
  Tables, QuotaResetEvent, has_user, grant_quota_resets, admin_reset_quota, is_available,
  grants_where, Statements, is_taken, take_reset, first_of, redeemable, credit_event, redeemed,
  complete, or_rollback, use_quota_reset_credit,
}
use daiki_aipass_backend.Quota.Resets.Order.{All-ordered, All-grants_where}
use daiki_aipass_backend.Quota.Resets.Account.{
  names_grant, credits, IsBalanced, Distinct, IsKnown, IsAccounted, credits-snoc, Keeps,
  grant_quota_resets-IsAccounted,
}

none_more : (r : ℤ) (n : ℕ) → r +ℤ pos (n + 0) ≡ r +ℤ pos n
none_more r n = rw add-zero

one_more : (r : ℤ) (n : ℕ) → (r -ℤ pos 1) +ℤ pos (n + 1) ≡ r +ℤ pos n
one_more r n = omega int_laws

less : (r : ℤ) → is_pos r ≡ true → pos 0 ≤ℤ r -ℤ pos 1
less r h = ground (arith, -ℤ_parts r (pos 1))

-- An event that redeems nothing leaves every grant in balance.
still-IsBalanced :
    (es : List QuotaResetEvent) (x : QuotaResetEvent) (g : QuotaResetGrant)
    → names_grant g.id x.grant_id ≡ false
    → IsBalanced es g
    → IsBalanced (es ++ x ∷ []) g
still-IsBalanced es x g e h =
    rw (credits-snoc g.id es x, e)
      (h.0, h.1, h.2, none_more g.remaining_resets (credits g.id es) ∙ h.3)

with_event :
    (db after : Tables) (x : QuotaResetEvent)
    → IsAccounted db
    → x.grant_id ≡ none
    → after.grants ≡ db.grants
    → after.next_grant ≡ db.next_grant
    → after.events ≡ db.events ++ x ∷ []
    → IsAccounted after
with_event db after x a e grants next events = record {
  distinct = rw grants a.distinct;
  numbered = rw (grants, next) a.numbered;
  known =
      rw (events, next)
        (All-snoc (λ y. IsKnown db.next_grant y.grant_id) db.events x a.known (rw e tt));
  balanced =
      rw (grants, events)
        (All-map (IsBalanced db.events) (IsBalanced (db.events ++ x ∷ [])) db.grants
          (λ g. still-IsBalanced db.events x g (rw e refl)) a.balanced);
}

admin_reset_quota-IsAccounted :
    (inserts audits : Bool) (at : ℕ) (db : Tables) (actor subject note : String)
    → IsAccounted db
    → Keeps (admin_reset_quota inserts audits at db actor subject note)
unfolding admin_reset_quota
admin_reset_quota-IsAccounted inserts audits at db actor subject note a =
    if_both Keeps (not inserts) a (
      if_both Keeps (not (has_user subject db.users)) a (
        if_both IsAccounted audits (with_event db _ _ a refl refl refl refl)
          (with_event db _ _ a refl refl refl refl)))

-- Every row of the id of `g` has resets left, if `g` has.
abbrev Positives : List QuotaResetGrant → QuotaResetGrant → Type 0
Positives gs g =
    is_pos g.remaining_resets ≡ true
    → All (λ h. eqb_ℤ h.id g.id ≡ true → is_pos h.remaining_resets ≡ true) gs

alone :
    (g : QuotaResetGrant) (gs : List QuotaResetGrant)
    → All (λ h. eqb_ℤ g.id h.id ≡ false) gs
    → All (λ h. eqb_ℤ h.id g.id ≡ true → is_pos h.remaining_resets ≡ true) gs
alone g gs =
    All-map (λ h. eqb_ℤ g.id h.id ≡ false)
      (λ h. eqb_ℤ h.id g.id ≡ true → is_pos h.remaining_resets ≡ true) gs (λ h e k. ground arith)

same_row : (gs : List QuotaResetGrant) → Distinct gs → All (Positives gs) gs
same_row [] d = tt
same_row (g ∷ gs) d = (
  λ p. (λ e. p, alone g gs d.0),
  All-zip (λ h. eqb_ℤ g.id h.id ≡ false) (Positives gs) (Positives (g ∷ gs)) gs
      (λ h apart k p. (λ e. ground arith, k p)) d.0 (same_row gs d.1),
)

take_reset-IsBalanced :
    (es : List QuotaResetEvent) (x : QuotaResetEvent) (g h : QuotaResetGrant)
    → x.grant_id ≡ some g.id
    → (eqb_ℤ h.id g.id ≡ true → is_pos h.remaining_resets ≡ true)
    → IsBalanced es h
    → IsBalanced (es ++ x ∷ []) (take_reset g.id h)
take_reset-IsBalanced es x g h e p b =
    if_cases (IsBalanced (es ++ x ∷ [])) (is_taken g.id h)
      (λ t.
        rw (credits-snoc h.id es x, e, same t)
          (b.0, b.1, left t, one_more h.remaining_resets (credits h.id es) ∙ b.3))
      (λ t. still-IsBalanced es x h (rw e (other t)) b)
  where
    same : is_taken g.id h ≡ true → names_grant h.id (some g.id) ≡ true
    same t = ground arith

    left : is_taken g.id h ≡ true → pos 0 ≤ℤ h.remaining_resets -ℤ pos 1
    left t = omega (arith, less h.remaining_resets (ground arith))

    other : is_taken g.id h ≡ false → names_grant h.id (some g.id) ≡ false
    other t = ground (arith, p)

kept_apart :
    (id : ℤ) (g : QuotaResetGrant) (gs : List QuotaResetGrant)
    → All (λ h. eqb_ℤ g.id h.id ≡ false) gs
    → All (λ h. eqb_ℤ (take_reset id g).id h.id ≡ false) (map (take_reset id) gs)
kept_apart id g [] d = tt
kept_apart id g (h ∷ hs) d = (rw (kept_id g, kept_id h) d.0, kept_apart id g hs d.1)
  where
    kept_id : (y : QuotaResetGrant) → (take_reset id y).id ≡ y.id
    kept_id y = if_both (λ (z : QuotaResetGrant). z.id ≡ y.id) (is_taken id y) refl refl

kept-Distinct :
    (id : ℤ) (gs : List QuotaResetGrant) → Distinct gs → Distinct (map (take_reset id) gs)
kept-Distinct id [] d = tt
kept-Distinct id (g ∷ gs) d = (kept_apart id g gs d.0, kept-Distinct id gs d.1)

kept_below :
    (id : ℤ) (n : ℕ) (gs : List QuotaResetGrant)
    → All (λ g. g.id <ℤ pos n) gs
    → All (λ g. g.id <ℤ pos n) (map (take_reset id) gs)
kept_below id n [] h = tt
kept_below id n (g ∷ gs) h = (
  if_both (λ (z : QuotaResetGrant). z.id <ℤ pos n) (is_taken id g) h.0 h.0,
  kept_below id n gs h.1,
)

all-IsBalanced :
    (es : List QuotaResetEvent) (x : QuotaResetEvent) (g : QuotaResetGrant)
    (gs : List QuotaResetGrant)
    → x.grant_id ≡ some g.id
    → All (λ h. eqb_ℤ h.id g.id ≡ true → is_pos h.remaining_resets ≡ true) gs
    → All (IsBalanced es) gs
    → All (IsBalanced (es ++ x ∷ [])) (map (take_reset g.id) gs)
all-IsBalanced es x g [] e p b = tt
all-IsBalanced es x g (h ∷ hs) e p b =
    (take_reset-IsBalanced es x g h e p.0 b.0, all-IsBalanced es x g hs e p.1 b.1)

module _ (locked : ℤ → Bool) (answers : Statements) (now : ℕ) (db : Tables) (subject : String) where
  abbrev IsSound : QuotaResetGrant → Type 0
  IsSound g =
      (g.id <ℤ pos db.next_grant)
      × All (λ h. eqb_ℤ h.id g.id ≡ true → is_pos h.remaining_resets ≡ true) db.grants

  redeemed-IsAccounted :
      (g taken : QuotaResetGrant)
      → IsAccounted db
      → IsSound g
      → IsAccounted (redeemed now db subject g taken)
  redeemed-IsAccounted g taken a s = record {
    distinct = kept-Distinct g.id db.grants a.distinct;
    numbered = kept_below g.id db.next_grant db.grants a.numbered;
    known =
        All-snoc (λ y. IsKnown db.next_grant y.grant_id) db.events
          (credit_event now db subject g.id) a.known s.0;
    balanced =
        all-IsBalanced db.events (credit_event now db subject g.id) g db.grants refl s.1 a.balanced;
  }

  abbrev can_redeem : QuotaResetGrant → Bool
  can_redeem g = is_available now subject g && not (locked g.id)

  sound : IsAccounted db → All IsSound (redeemable locked now subject db)
  sound a = All-ordered IsSound (grants_where can_redeem db.grants) (
      All-map (λ g. ((g.id <ℤ pos db.next_grant) × Positives db.grants g) × (can_redeem g ≡ true))
        IsSound (grants_where can_redeem db.grants) (λ g f. (f.0.0, f.0.1 (left g f.1)))
        (All-grants_where (λ g. (g.id <ℤ pos db.next_grant) × Positives db.grants g) can_redeem
          db.grants
          (All-zip (λ g. g.id <ℤ pos db.next_grant) (Positives db.grants)
            (λ g. (g.id <ℤ pos db.next_grant) × Positives db.grants g) db.grants (λ g n p. (n, p))
            a.numbered (same_row db.grants a.distinct))))
    where
      left : (g : QuotaResetGrant) → can_redeem g ≡ true → is_pos g.remaining_resets ≡ true
      left g h = ground arith

  abbrev Accounts : Result (Tables × QuotaResetEvent) → Type 0
  Accounts r = IsAccounted (or_rollback db r).0

  passed :
      (bad : Bool) (e : String) (rest : Result (Tables × QuotaResetEvent))
      → IsAccounted db
      → Accounts rest
      → Accounts (fail_if bad e >> rest)
  passed true e rest a h = a
  passed false e rest a h = h

  taken-IsAccounted :
      (g : QuotaResetGrant) (rows : List QuotaResetGrant)
      → IsAccounted db
      → IsSound g
      → Accounts (
          first_of rows >>= (λ taken.
            fail_if (not (answers.inserts && answers.audits && answers.commits)) "database error"
            >> ok (redeemed now db subject g taken, credit_event now db subject g.id)))
  taken-IsAccounted g [] a s = a
  taken-IsAccounted g (r ∷ rows) a s =
      passed (not (answers.inserts && answers.audits && answers.commits)) _ _ a
        (redeemed-IsAccounted g r a s)

  chosen-IsAccounted :
      (gs : List QuotaResetGrant)
      → IsAccounted db
      → All IsSound gs
      → Accounts (first_of gs >>= λ g. complete answers now db subject g)
  chosen-IsAccounted [] a s = a
  chosen-IsAccounted (g ∷ gs) a s =
      passed (not answers.updates) _ _ a
        (taken-IsAccounted g (map (take_reset g.id) (grants_where (is_taken g.id) db.grants)) a s.0)

  use_quota_reset_credit-IsAccounted :
      IsAccounted db → Keeps (use_quota_reset_credit locked answers now db subject)
  unfolding use_quota_reset_credit
  use_quota_reset_credit-IsAccounted a =
      passed (not (answers.begins && answers.selects)) _ _ a
        (chosen-IsAccounted (redeemable locked now subject db) a (sound a))

-- What the operations make of the tables, in any order and with any failures, from empty ones.
pub data History : Tables → Type 0 where
  nothing_granted : (db : Tables) → db.grants ≡ [] → db.events ≡ [] → History db
  user_created :
      (db : Tables) (subject : String)
      → History db
      → History (record db { users = subject ∷ db.users })
  resets_granted :
      (stored : ℕ → ℕ) (inserts audits : Bool) (now created : ℕ) (db : Tables)
      (actor subject : String) (count : ℤ) (expires : ℕ) (note : String)
      → History db
      → History
          (grant_quota_resets stored inserts audits now created db actor subject count expires
            note).0
  quota_reset :
      (inserts audits : Bool) (at : ℕ) (db : Tables) (actor subject note : String)
      → History db
      → History (admin_reset_quota inserts audits at db actor subject note).0
  credit_used :
      (locked : ℤ → Bool) (answers : Statements) (now : ℕ) (db : Tables) (subject : String)
      → History db
      → History (use_quota_reset_credit locked answers now db subject).0

History-IsAccounted : {db : Tables} → History db → IsAccounted db
History-IsAccounted (nothing_granted db g e) = record {
  distinct = rw g tt;
  numbered = rw g tt;
  known = rw e tt;
  balanced = rw g tt;
}
History-IsAccounted (user_created db subject h) =
    let a = History-IsAccounted h in
    record { distinct = a.distinct; numbered = a.numbered; known = a.known; balanced = a.balanced }
History-IsAccounted (resets_granted stored i u now created db actor subject count expires note h) =
    grant_quota_resets-IsAccounted stored i u now created db actor subject count expires note
      (History-IsAccounted h)
History-IsAccounted (quota_reset i u at db actor subject note h) =
    admin_reset_quota-IsAccounted i u at db actor subject note (History-IsAccounted h)
History-IsAccounted (credit_used locked answers now db subject h) =
    use_quota_reset_credit-IsAccounted locked answers now db subject (History-IsAccounted h)

-- Whatever operations follow on tables without grants and events, in whatever order and with
-- whatever failures: of every grant, which is of 1 to 1000 resets, the resets that are left (at
-- least 0) and the redemptions that are logged add up to the resets that were granted.
pub History-IsBalanced : {db : Tables} → History db → All (IsBalanced db.events) db.grants
History-IsBalanced h = (History-IsAccounted h).balanced

-- ===== src/Runtime/Context/Picked.antt =====
-- What the loop of Runtime/Context/Trim keeps of a chat.
use daiki_aipass_backend.Prelude.{
  false_ne_true, ℕ, ◌+◌, ◌-◌, ◌≤◌, max, ◌≡◌, refl, subst, ◌⊎◌, inl, inr, String, Bool, true, ◌&&◌,
  Bool-cases, leb→le, List, [], ◌∷◌, ◌++◌, arith,
}
use daiki_aipass_backend.Prelude.Int.{ℤ, pos}
use daiki_aipass_backend.Payload.{Json}
use daiki_aipass_backend.Payload.Capped.{Bytes}
use daiki_aipass_backend.Runtime.Context.{cost_of, total_cost, compact_message}
use daiki_aipass_backend.Runtime.Context.Trim.{
  is_instruction, reverse_onto, is_empty, fits, pick_messages,
}

-- The first list is what is left of the second when some messages are dropped.
abbrev pub IsSub : List Json → List Json → Type 0
IsSub [] ys = Unit
IsSub (x ∷ xs) [] = ⊥
IsSub (x ∷ xs) (y ∷ ys) = ((x ≡ y) × IsSub xs ys) ⊎ IsSub (x ∷ xs) ys

abbrev pub EndsWith : Json → List Json → Type 0
EndsWith m [] = ⊥
EndsWith m (x ∷ []) = x ≡ m
EndsWith m (x ∷ y ∷ ys) = EndsWith m (y ∷ ys)

and_right : (a b : Bool) → (a && b) ≡ true → b ≡ true
and_right a b h = ground arith

all_of_last :
    (older : List Json) (m : Json) (processed kept : List Json)
    → (is_empty older && is_instruction m) ≡ true
    → IsSub kept processed
    → IsSub kept (reverse_onto older (m ∷ processed))
all_of_last [] m processed [] k i = tt
all_of_last [] m processed (x ∷ xs) k i = inr i
all_of_last (o ∷ older) m processed kept k i = absurd (false_ne_true k)

at_most_bound : {a b c : ℕ} → a ≤ b → b ≤ c → a ≤ c
at_most_bound h k = omega (arith, h, k)

module _ (bytes_of : String → Bytes) (text_of : Bytes → String) where
  -- Messages of the chat in their order with the newest among them, within the bound, after at most
  -- one instruction that is compacted.
  pub record IsPicked (all : List Json) (newest : Json) (bound : ℕ) (result : List Json)
      : Type 0 where
    pub front : List Json
    pub kept : List Json
    pub parts : result ≡ front ++ kept
    pub instruction :
        (front ≡ [])
        ⊎ ((m : Json) × (budget : ℤ) × (front ≡ compact_message bytes_of text_of m budget ∷ [])
            × (is_instruction m ≡ true))
    pub order : IsSub kept all
    pub cost : total_cost bytes_of text_of kept ≤ bound
    pub ends : EndsWith newest kept

  same_sum : {a b : ℕ} (c : ℕ) → a ≡ b → a + c ≡ c + b
  same_sum c h = omega (arith, h)

  pick_messages-from :
      (budget bound used : ℕ) (s : Json) (ss processed : List Json) (newest : Json)
      (older : List Json)
      → budget ≤ bound
      → IsSub (s ∷ ss) processed
      → used ≡ total_cost bytes_of text_of (s ∷ ss)
      → used ≤ bound
      → EndsWith newest (s ∷ ss)
      → IsPicked
          (reverse_onto older processed)
          newest
          bound
          (pick_messages bytes_of text_of budget used (s ∷ ss) older)
  unfolding pick_messages total_cost
  pick_messages-from budget bound used s ss processed newest [] b i u l e = record {
    front = [];
    kept = s ∷ ss;
    parts = refl;
    instruction = inl refl;
    order = i;
    cost = subst (λ n. n ≤ bound) u l;
    ends = e;
  }
  pick_messages-from budget bound used s ss processed newest (m ∷ older) b i u l e =
      let c = cost_of bytes_of text_of m in
      elim (Bool-cases (fits bytes_of text_of budget used (s ∷ ss) m)) [
        | inl f ↦
            rw (pick_messages, f)
              (pick_messages-from budget bound (used + c) m (s ∷ ss) (m ∷ processed) newest older b
                (inl (refl, i)) (same_sum c u) (at_most_bound (leb→le (used + c) budget f) b) e)
        | inr f ↦ elim (Bool-cases (is_empty older && is_instruction m)) [
          | inl k ↦
              rw (pick_messages, f, k)
                (record {
                  front = compact_message bytes_of text_of m (pos (max 64 (budget - used))) ∷ [];
                  kept = s ∷ ss;
                  parts = refl;
                  instruction = inr (
                    m,
                    pos (max 64 (budget - used)),
                    refl,
                    and_right (is_empty older) (is_instruction m) k,
                  );
                  order = all_of_last older m processed (s ∷ ss) k i;
                  cost = subst (λ n. n ≤ bound) u l;
                  ends = e;
                })
          | inr k ↦
              rw (pick_messages, f, k)
                (pick_messages-from budget bound used s ss (m ∷ processed) newest older b (inr i) u
                  l e)
        ]
      ]

  -- Of a chat that is not empty, the loop picks messages in the order of the chat, the newest always
  -- among them; together they cost at most the budget, or what the newest costs alone; and before them
  -- stands at most one message more, an instruction that is compacted.
  pub pick_messages-IsPicked :
      (budget : ℕ) (newest : Json) (older : List Json)
      → IsPicked
          (reverse_onto older (newest ∷ []))
          newest
          (max budget (cost_of bytes_of text_of newest))
          (pick_messages bytes_of text_of budget 0 [] (newest ∷ older))
  unfolding pick_messages total_cost
  pick_messages-IsPicked budget newest older =
      let c = cost_of bytes_of text_of newest in
      pick_messages-from budget (max budget c) (0 + c) newest [] (newest ∷ []) newest older
        (omega arith) (inl (refl, tt)) (omega arith) (omega arith) refl

-- ===== src/Payload/Capped/Limits.antt =====
-- What the capped buffer and the snapshots of Payload/Capped keep.
use daiki_aipass_backend.Prelude.{
  ℕ, suc, zero, ◌-◌, ◌≤◌, ◌<◌, ◌≡◌, refl, sym, ap, ◌∙◌, Option, some, true, ◌⊎◌, none, ltb,
  if_cases, ◌↔◌, List, [], ◌∷◌, ◌++◌, map, length, take, length-take, arith,
}
use daiki_aipass_backend.Payload.{Json}
use daiki_aipass_backend.Payload.Redaction.{IsRedacted}
use daiki_aipass_backend.Payload.Capped.{
  Bytes, stored_payload_limit, CappedBuffer, cut, write, write_all, Snapshot, no_payload, whole,
  truncated, raw,
}

-- Every byte of the chunks in order.
abbrev pub joined : List Bytes → Bytes
joined [] = []
joined (p ∷ ps) = p ++ joined ps

module _ {A : Type 0} where
  append_nil : (xs : List A) → xs ++ [] ≡ xs
  append_nil [] = refl
  append_nil (x ∷ xs) = ap (x ∷◌) (append_nil xs)

  append_assoc : (xs ys zs : List A) → (xs ++ ys) ++ zs ≡ xs ++ (ys ++ zs)
  append_assoc [] ys zs = refl
  append_assoc (x ∷ xs) ys zs = ap (x ∷◌) (append_assoc xs ys zs)

  take_zero : (n : ℕ) (xs : List A) → n ≡ 0 → take n xs ≡ []
  take_zero zero xs h = refl
  take_zero (suc n) xs h = absurd (omega (arith, h))

  take_long : (n : ℕ) (xs : List A) → length xs ≤ n → take n xs ≡ xs
  take_long zero [] h = refl
  take_long zero (x ∷ xs) h = absurd (omega (arith, h))
  take_long (suc n) [] h = refl
  take_long (suc n) (x ∷ xs) h = ap (x ∷◌) (take_long n xs (omega (arith, h)))

  take-append : (n : ℕ) (xs ys : List A) → take n (xs ++ ys) ≡ take n xs ++ take (n - length xs) ys
  take-append zero [] ys = refl
  take-append zero (x ∷ xs) ys = sym (take_zero (0 - length (x ∷ xs)) ys (omega arith))
  take-append (suc n) [] ys = let e : suc n ≡ suc n - 0 = omega arith in ap (λ m. take m ys) e
  take-append (suc n) (x ∷ xs) ys =
      let e : n - length xs ≡ suc n - suc (length xs) = omega arith in
      ap (x ∷◌) (take-append n xs ys ∙ ap (λ m. take n xs ++ take m ys) e)

  take_again : (n : ℕ) (xs ys : List A) → take n (take n xs ++ ys) ≡ take n (xs ++ ys)
  take_again zero xs ys = refl
  take_again (suc n) [] ys = refl
  take_again (suc n) (x ∷ xs) ys = ap (x ∷◌) (take_again n xs ys)

cut-take : (n : ℕ) (p : Bytes) → cut n p ≡ take n p
cut-take n p =
    if_cases (λ x. x ≡ take n p) (ltb n (length p)) (λ h. refl)
      λ h. sym (take_long n p (ground arith))

-- What one write keeps, and that it reports the whole chunk.
write_lem :
    (c : CappedBuffer) (p : Bytes)
    → length c.buf ≤ c.max
    → ((write c p).0.buf ≡ take c.max (c.buf ++ p))
      × ((write c p).0.max ≡ c.max)
      × ((write c p).1 ≡ length p)
unfolding write
write_lem c p h =
    let kept : take c.max (c.buf ++ p) ≡ c.buf ++ take (c.max - length c.buf) p =
      rw (take-append c.max c.buf p, take_long c.max c.buf h) refl in
    if_cases
      (λ (x : CappedBuffer × ℕ).
        (x.0.buf ≡ take c.max (c.buf ++ p)) × (x.0.max ≡ c.max) × (x.1 ≡ length p))
      (ltb 0 (c.max - length c.buf))
      (λ e. (ap (c.buf ++◌) (cut-take (c.max - length c.buf) p) ∙ sym kept, refl, refl))
      λ e. (
        sym (
            kept
            ∙ ap (c.buf ++◌) (take_zero (c.max - length c.buf) p (ground arith))
            ∙ append_nil c.buf),
        refl,
        refl,
      )

write_all-kept :
    (c : CappedBuffer) (old : Bytes) (ps : List Bytes)
    → c.buf ≡ take c.max old
    → ((write_all c ps).0.buf ≡ take c.max (old ++ joined ps))
      × ((write_all c ps).1 ≡ map length ps)
unfolding write_all
write_all-kept c old [] h = (rw (append_nil old) h, refl)
write_all-kept c old (p ∷ ps) h =
    let fits : length c.buf ≤ c.max = rw (h, length-take c.max old) (omega arith) in
    let (kept, same, count) = write_lem c p fits in
    let again : (write c p).0.buf ≡ take (write c p).0.max (old ++ p) =
      kept
      ∙ ap (λ b. take c.max (b ++ p)) h
      ∙ take_again c.max old p
      ∙ sym (ap (λ m. take m (old ++ p)) same) in
    let (rest, counts) = write_all-kept (write c p).0 (old ++ p) ps again in
    (
      rest
          ∙ ap (λ m. take m ((old ++ p) ++ joined ps)) same
          ∙ ap (take c.max) (append_assoc old p (joined ps)),
      rw (count, counts) refl,
    )

take_zero_nil : {A : Type 0} (n : ℕ) → take {A = A} n [] ≡ []
take_zero_nil zero = refl
take_zero_nil (suc n) = refl

-- An empty buffer that receives a body in chunks holds the first `max` bytes of the body, whatever
-- the chunks are, and every Write reports that its whole chunk was written.
pub write_all-refines :
    (max : ℕ) (ps : List Bytes)
    → ((write_all (record { buf = []; max = max }) ps).0.buf ≡ take max (joined ps))
      × ((write_all (record { buf = []; max = max }) ps).1 ≡ map length ps)
write_all-refines max ps =
    write_all-kept (record { buf = []; max = max }) [] ps (sym (take_zero_nil max))

module _ (unmarshal : Bytes → Option Json) (marshal : Json → Option Bytes) where
  -- What a snapshot shows of a body: nothing of an empty one; a value in which every sensitive member
  -- is redacted; the first bytes of its encoding if that is too long; or, only if the body cannot be
  -- decoded or its redacted value not encoded, the body's own first bytes, which are not redacted.
  abbrev pub Shows : Bytes → Snapshot → Type 0
  Shows body no_payload = body ≡ []
  Shows body (whole v) =
      IsRedacted v × ((e : Bytes) × (marshal v ≡ some e) × (length e ≤ stored_payload_limit))
  Shows body (truncated size preview) =
      (length preview ≡ stored_payload_limit)
      × ((v : Json) × (e : Bytes) × IsRedacted v
          × (marshal v ≡ some e)
          × (size ≡ length e)
          × (stored_payload_limit < size)
          × (preview ≡ take stored_payload_limit e))
  Shows body (raw preview is_cut size) =
      (preview ≡ take stored_payload_limit body)
      × (length preview ≤ stored_payload_limit)
      × (size ≡ length body)
      × ((is_cut ≡ true) ↔ (stored_payload_limit < length body))
      × ((unmarshal body ≡ none) ⊎ ((v : Json) × IsRedacted v × (marshal v ≡ none)))

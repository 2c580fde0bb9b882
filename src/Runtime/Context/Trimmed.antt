-- ===== src/Runtime/Context/Trimmed.antt =====
-- What trimChatContext of Runtime/Context/Trim makes of a body, from the loop's result
-- (Runtime/Context/Picked) to the body that is returned.
use mathlib.Core.List.{append-nil, append_assoc}
use daiki_aipass_backend.Prelude.{
  ℕ, max, ◌≡◌, refl, sym, ap, subst, ◌∙◌, inl, inr, String, Option, some, none, Bool, true, false,
  not, ◌&&◌, if_cases, Option-cases, List, [], ◌∷◌, ◌++◌, Result, Ensures, arith,
}
use daiki_aipass_backend.Prelude.Int.{
  ℤ, pos, pos_part, is_pos, max_ℤ, leb_ℤ, ltb_ℤ, ◌-ℤ◌, ◌≤ℤ◌, ◌<ℤ◌,
}
use daiki_aipass_backend.Payload.{Json, Members, Codec}
use daiki_aipass_backend.Payload.Capped.{Bytes}
use daiki_aipass_backend.Payload.Names.{find_member}
use daiki_aipass_backend.Runtime.Context.{
  map_of, cost_of, estimate_chat_input_tokens, compact_message,
}
use daiki_aipass_backend.Runtime.Context.Picked.{EndsWith, IsPicked, pick_messages-IsPicked}
use daiki_aipass_backend.Runtime.Context.Trim.{
  Trimmed, is_empty, reverse_onto, pick_messages, compact_newest, with_messages, finished,
  with_selected, trim_messages, messages_in, trim_payload, trim_chat_context,
}

reverse_twice :
    (xs acc ys : List Json) → reverse_onto (reverse_onto xs acc) ys ≡ reverse_onto acc (xs ++ ys)
reverse_twice [] acc ys = refl
reverse_twice (x ∷ xs) acc ys = reverse_twice xs (x ∷ acc) ys

-- A chat that is not empty has a newest message.
newest_first :
    (xs : List Json) (y : Json) (acc : List Json)
    → (newest : Json) × ((older : List Json) × (reverse_onto xs (y ∷ acc) ≡ newest ∷ older))
newest_first [] y acc = (y, (acc, refl))
newest_first (x ∷ xs) y acc = newest_first xs x (y ∷ acc)

last_of :
    (m : Json) (xs : List Json) → EndsWith m xs → (before : List Json) × (xs ≡ before ++ (m ∷ []))
last_of m [] h = elim h [ ]
last_of m (x ∷ []) h = ([], ap (λ y. y ∷ []) h)
last_of m (x ∷ y ∷ ys) h = let (before, e) = last_of m (y ∷ ys) h in (x ∷ before, ap (x ∷◌) e)

module _ (bytes_of : String → Bytes) (text_of : Bytes → String) (c : Codec) (body : String)
    (target : ℤ) where
  abbrev estimate : String → ℕ
  estimate = estimate_chat_input_tokens bytes_of text_of c

  abbrev written : Members → List Json → Option String
  written ms messages = with_messages bytes_of text_of c ms messages

  abbrev chat_of : Members → List Json
  chat_of ms = messages_in bytes_of text_of c (find_member ms "messages")

  abbrev bound : Json → ℕ
  bound newest = max (max 256 (pos_part (target -ℤ pos 96))) (cost_of bytes_of text_of newest)

  abbrev shortened_last : Json → Json
  shortened_last m = compact_message bytes_of text_of m (max_ℤ (pos 128) (target -ℤ pos 192))

  -- The messages that the loop keeps of the chat in the body; `before` are those before the newest.
  pub record IsSelection (ms : Members) (newest : Json) (before : List Json) : Type 0 where
    pub read : map_of (c.decode body) ≡ some ms
    pub picked :
        IsPicked bytes_of text_of (chat_of ms) newest (bound newest) (before ++ (newest ∷ []))

  -- The body that is returned.
  pub data IsTrimmed (t : Trimmed) : Type 0 where
    off : t.body ≡ body → target ≤ℤ pos 0 → IsTrimmed t
    short : t.body ≡ body → pos (estimate body) ≤ℤ target → IsTrimmed t
    silent :
        (ms : Members)
        → t.body ≡ body
        → map_of (c.decode body) ≡ some ms
        → chat_of ms ≡ []
        → IsTrimmed t
    shortened :
        (ms : Members) (newest : Json) (before : List Json)
        → IsSelection ms newest before
        → written ms (before ++ (newest ∷ [])) ≡ some t.body
        → pos (estimate t.body) ≤ℤ target
        → IsTrimmed t
    compacted :
        (ms : Members) (newest : Json) (before : List Json) (too_long : String)
        → IsSelection ms newest before
        → written ms (before ++ (newest ∷ [])) ≡ some too_long
        → target <ℤ pos (estimate too_long)
        → written ms (before ++ (shortened_last newest ∷ [])) ≡ some t.body
        → IsTrimmed t

  abbrev Trims : Result Trimmed → Type 0
  Trims r = Ensures IsTrimmed r

  compact_newest-last :
      (budget : ℤ) (before : List Json) (m : Json)
      → compact_newest bytes_of text_of budget (before ++ (m ∷ []))
        ≡ before ++ (compact_message bytes_of text_of m budget ∷ [])
  unfolding compact_newest
  compact_newest-last budget [] m = refl
  compact_newest-last budget (x ∷ []) m = refl
  compact_newest-last budget (x ∷ y ∷ ys) m = ap (x ∷◌) (compact_newest-last budget (y ∷ ys) m)

  not_empty : (before : List Json) (m : Json) → is_empty (before ++ (m ∷ [])) ≡ false
  not_empty [] m = refl
  not_empty (x ∷ xs) m = refl

  too_long_lem :
      (a : ℤ) (b : ℕ) (e : Bool) → e ≡ false → (ltb_ℤ a (pos b) && not e) ≡ true → a <ℤ pos b
  too_long_lem a b e h k = ground arith

  fits_lem :
      (a : ℤ) (b : ℕ) (e : Bool) → e ≡ false → (ltb_ℤ a (pos b) && not e) ≡ false → pos b ≤ℤ a
  fits_lem a b e h k = ground arith

  finished-Trims :
      (original : ℕ) (out : Option String) (P : String → Type 0)
      → ((s : String) → out ≡ some s → P s)
      → ((t : Trimmed) → P t.body → IsTrimmed t)
      → Trims (finished bytes_of text_of c original out)
  finished-Trims original none P h k = tt
  finished-Trims original (some s) P h k =
      k (record { body = s; original = original; final = estimate s }) (h s refl)

  -- What is made of the messages that the loop kept.
  with_selected-Trims :
      (ms : Members) (original : ℕ) (newest : Json) (before : List Json)
      → IsSelection ms newest before
      → Trims (
          with_selected bytes_of text_of c ms original target
            (before ++ (newest ∷ []))
            (written ms (before ++ (newest ∷ []))))
  with_selected-Trims ms original newest before v =
      elim (Option-cases (written ms (before ++ (newest ∷ [])))) [
        | inl e ↦ rw e tt
        | inr (out, e) ↦ rw e (
            if_cases Trims
              (ltb_ℤ target (pos (estimate out)) && not (is_empty (before ++ (newest ∷ []))))
              (λ l.
                finished-Trims original
                  (written ms (
                    compact_newest bytes_of text_of (max_ℤ (pos 128) (target -ℤ pos 192))
                      (before ++ (newest ∷ []))))
                  (λ s. written ms (before ++ (shortened_last newest ∷ [])) ≡ some s)
                  (λ s k.
                    ap (written ms) (
                      sym (compact_newest-last (max_ℤ (pos 128) (target -ℤ pos 192)) before newest))
                    ∙ k)
                  λ t k.
                    compacted ms newest before out v e
                      (too_long_lem target (estimate out) _ (not_empty before newest) l) k)
              λ l.
                shortened ms newest before v e
                  (fits_lem target (estimate out) _ (not_empty before newest) l))
      ]

  -- The loop over a chat whose newest message is `newest`.
  selection_lem :
      (ms : Members) (m newest : Json) (rest older : List Json)
      → map_of (c.decode body) ≡ some ms
      → chat_of ms ≡ m ∷ rest
      → reverse_onto (m ∷ rest) [] ≡ newest ∷ older
      → let selected =
          pick_messages bytes_of text_of
            (max 256 (pos_part (target -ℤ pos 96)))
            0
            []
            (newest ∷ older) in
        (before : List Json) × ((selected ≡ before ++ (newest ∷ [])) × IsSelection ms newest before)
  selection_lem ms m newest rest older read chat e =
      let budget = max 256 (pos_part (target -ℤ pos 96)) in
      let p = pick_messages-IsPicked bytes_of text_of budget newest older in
      let (before, last) = last_of newest p.kept p.ends in
      let whole : pick_messages bytes_of text_of budget 0 [] (newest ∷ older)
          ≡ (p.front ++ before) ++ (newest ∷ []) =
        p.parts ∙ ap (p.front ++◌) last ∙ sym (append_assoc p.front before (newest ∷ [])) in
      let in_order : reverse_onto older (newest ∷ []) ≡ chat_of ms =
        ap (λ l. reverse_onto l []) (sym e)
        ∙ reverse_twice (m ∷ rest) [] []
        ∙ append-nil (m ∷ rest)
        ∙ sym chat in
      (
        p.front ++ before,
        (
          whole,
          record {
            read = read;
            picked =
                subst (λ l. IsPicked bytes_of text_of (chat_of ms) newest (bound newest) l) whole
                  (subst
                    (λ l.
                      IsPicked bytes_of text_of l newest (bound newest)
                        (pick_messages bytes_of text_of budget 0 [] (newest ∷ older)))
                    in_order p);
          },
        ),
      )

  trim_messages-Trims :
      (ms : Members) (messages : List Json)
      → map_of (c.decode body) ≡ some ms
      → chat_of ms ≡ messages
      → Trims (trim_messages bytes_of text_of c body ms target messages)
  trim_messages-Trims ms [] read chat = silent ms refl read chat
  trim_messages-Trims ms (m ∷ rest) read chat =
      let budget = max 256 (pos_part (target -ℤ pos 96)) in
      let (newest, (older, e)) = newest_first rest m [] in
      let (before, (whole, v)) = selection_lem ms m newest rest older read chat e in
      let kept : pick_messages bytes_of text_of budget 0 [] (reverse_onto (m ∷ rest) [])
          ≡ before ++ (newest ∷ []) =
        ap (pick_messages bytes_of text_of budget 0 []) e ∙ whole in
      if_cases Trims (leb_ℤ (pos (estimate body)) target) (λ h. short refl (ground arith))
        λ h.
          subst
            (λ l.
              Trims (with_selected bytes_of text_of c ms (estimate body) target l (written ms l)))
            (sym kept) (with_selected-Trims ms (estimate body) newest before v)

  trim_payload-Trims :
      (o : Option Members)
      → map_of (c.decode body) ≡ o
      → Trims (trim_payload bytes_of text_of c body target o)
  trim_payload-Trims none e = tt
  trim_payload-Trims (some ms) e = trim_messages-Trims ms (chat_of ms) e refl

  -- Whatever the conversions of texts and the codec do, the body that trimChatContext returns without
  -- an error is one of these. It is the body that was given, if the target is not positive, the
  -- estimate is within the target, or there are no messages. Or its messages are those that the loop
  -- keeps: messages of the chat in their order with the newest last, which cost at most the budget
  -- (the target less 96, at least 256) or what the newest costs alone, and before them at most one
  -- compacted instruction more, which the budget does not count; then the estimate is within the
  -- target. Or the estimate of those messages is beyond the target, and they are returned with the
  -- newest compacted; of the estimate of that body nothing is said.
  pub trim_chat_context-IsTrimmed :
      Ensures IsTrimmed (trim_chat_context bytes_of text_of c body target)
  unfolding trim_chat_context
  trim_chat_context-IsTrimmed =
      if_cases Trims (not (is_pos target)) (λ h. off refl (ground arith))
        λ h. trim_payload-Trims (map_of (c.decode body)) refl

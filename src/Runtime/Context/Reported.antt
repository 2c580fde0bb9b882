-- ===== src/Runtime/Context/Reported.antt =====
-- What trimChatContext of Runtime/Context/Trim reports of the body that it returns.
use daiki_aipass_backend.Prelude.{
  ℕ, max, ◌≡◌, refl, String, Option, some, none, Bool, true, false, not, ◌&&◌, if_cases, if_both,
  List, [], ◌∷◌, Result, Ensures, arith,
}
use daiki_aipass_backend.Prelude.Int.{ℤ, pos, pos_part, is_pos, max_ℤ, leb_ℤ, ltb_ℤ, ◌-ℤ◌}
use daiki_aipass_backend.Payload.{Json, Members, Codec}
use daiki_aipass_backend.Payload.Capped.{Bytes}
use daiki_aipass_backend.Payload.Names.{find_member}
use daiki_aipass_backend.Runtime.Context.{map_of, estimate_chat_input_tokens}
use daiki_aipass_backend.Runtime.Context.Trim.{
  Trimmed, is_empty, reverse_onto, pick_messages, compact_newest, with_messages, unchanged,
  finished, with_selected, trim_messages, messages_in, trim_payload, trim_chat_context,
}

true_ne_false : {b : Bool} → b ≡ true → b ≡ false → ⊥
true_ne_false h k = ground arith

module _ (bytes_of : String → Bytes) (text_of : Bytes → String) (c : Codec) (body : String)
    (target : ℤ) where
  abbrev estimate : String → ℕ
  estimate = estimate_chat_input_tokens bytes_of text_of c

  -- The estimates are those of the two bodies, and a body within the target is returned as it is.
  pub record IsReported (t : Trimmed) : Type 0 where
    pub final_right : t.final ≡ estimate t.body
    pub original_right : t.original ≡ estimate body
    pub short_kept : leb_ℤ (pos (estimate body)) target ≡ true → t.body ≡ body

  abbrev Reports : Result Trimmed → Type 0
  Reports r = Ensures IsReported r

  unchanged-Reports : Reports (unchanged bytes_of text_of c body)
  unchanged-Reports = record { final_right = refl; original_right = refl; short_kept = λ h. refl }

  finished-Reports :
      (out : Option String)
      → leb_ℤ (pos (estimate body)) target ≡ false
      → Reports (finished bytes_of text_of c (estimate body) out)
  finished-Reports none h = tt
  finished-Reports (some out) h = record {
    final_right = refl;
    original_right = refl;
    short_kept = λ k. absurd (true_ne_false k h);
  }

  with_selected-Reports :
      (ms : Members) (selected : List Json) (out : Option String)
      → leb_ℤ (pos (estimate body)) target ≡ false
      → Reports (with_selected bytes_of text_of c ms (estimate body) target selected out)
  with_selected-Reports ms selected none h = tt
  with_selected-Reports ms selected (some out) h =
      let newest = compact_newest bytes_of text_of (max_ℤ (pos 128) (target -ℤ pos 192)) selected in
      if_both Reports (ltb_ℤ target (pos (estimate out)) && not (is_empty selected))
        (finished-Reports (with_messages bytes_of text_of c ms newest) h)
        (finished-Reports (some out) h)

  trim_messages-Reports :
      (ms : Members) (messages : List Json)
      → Reports (trim_messages bytes_of text_of c body ms target messages)
  trim_messages-Reports ms [] = unchanged-Reports
  trim_messages-Reports ms (m ∷ rest) =
      let budget = max 256 (pos_part (target -ℤ pos 96)) in
      let selected = pick_messages bytes_of text_of budget 0 [] (reverse_onto (m ∷ rest) []) in
      if_cases Reports (leb_ℤ (pos (estimate body)) target) (λ h. unchanged-Reports)
        λ h. with_selected-Reports ms selected (with_messages bytes_of text_of c ms selected) h

  trim_payload-Reports :
      (o : Option Members) → Reports (trim_payload bytes_of text_of c body target o)
  trim_payload-Reports none = tt
  trim_payload-Reports (some ms) =
      trim_messages-Reports ms (messages_in bytes_of text_of c (find_member ms "messages"))

  -- Where trimChatContext returns a body, the two numbers beside it are the estimates of that body and
  -- of the one it was given, and a body whose estimate is within the target is returned unchanged.
  pub trim_chat_context-IsReported :
      Ensures IsReported (trim_chat_context bytes_of text_of c body target)
  unfolding trim_chat_context
  trim_chat_context-IsReported =
      if_both Reports (not (is_pos target)) unchanged-Reports
        (trim_payload-Reports (map_of (c.decode body)))

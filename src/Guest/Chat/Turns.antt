-- ===== src/Guest/Chat/Turns.antt =====
-- What Guest/Chat leaves of the payload of a guest.
use daiki_aipass_backend.Prelude.{
  ◌≤◌, ◌≡◌, ◌⊎◌, inl, inr, refl, String, Option, some, none, Bool, true, false, not, ◌&&◌, ◌||◌,
  str_eq, if_cases, List, [], ◌∷◌, All, length, err, ok, ◌>>=◌, Ensures, >>=-Ensures, arith,
}
use daiki_aipass_backend.Prelude.Int.{ℤ, pos, ltb_ℤ, ◌≤ℤ◌}
use daiki_aipass_backend.Payload.{
  Json, Members, Elements, object, array, text, number, boolean, nil, member, close,
}
use daiki_aipass_backend.Payload.Names.{find_member, name_of}
use daiki_aipass_backend.Runtime.Context.{map_of, list_of, elements_of}
use daiki_aipass_backend.Guest.Policy.{GuestAccessPolicy}
use daiki_aipass_backend.Guest.Chat.{
  guest_prompt, ResearchFields, message, text_message, clean_message, clean_messages,
  attachment_count, attachments_of, clean_payload, messages_in, clean_chat, restrict_members,
  restrict_guest_chat,
}

-- A text that the user or the assistant said, and nothing else.
pub record IsTurn (m : Json) : Type 0 where
  pub role : String
  pub content : String
  pub whole : m ≡ message role content
  pub said : (str_eq role "user" || str_eq role "assistant") ≡ true

one_of : (a b : Bool) → (not a && not b) ≡ false → (a || b) ≡ true
one_of a b h = ground arith

at_most : (a b : ℤ) → ltb_ℤ a b ≡ false → b ≤ℤ a
at_most a b h = ground arith

clean_message-Ensures : (m : Json) → Ensures IsTurn (clean_message m)
unfolding clean_message
clean_message-Ensures (object ms) =
    let role = name_of (find_member ms "role") in
    if_cases (Ensures IsTurn) (not (str_eq role "user") && not (str_eq role "assistant"))
      {a = err "guest chat supports user and assistant messages only"}
      {b = text_message role (find_member ms "content")} (λ h. tt)
      λ h.
        content_cases role (one_of (str_eq role "user") (str_eq role "assistant") h)
          (find_member ms "content")
  where
    content_cases :
        (role : String)
        → (str_eq role "user" || str_eq role "assistant") ≡ true
        → (o : Option Json) → Ensures IsTurn (text_message role o)
    content_cases role h none = tt
    content_cases role h (some (text content)) = record {
      role = role;
      content = content;
      whole = refl;
      said = h;
    }
    content_cases role h (some (object ms)) = tt
    content_cases role h (some (array es)) = tt
    content_cases role h (some (number n)) = tt
    content_cases role h (some (boolean b)) = tt
    content_cases role h (some nil) = tt
clean_message-Ensures (array es) = tt
clean_message-Ensures (text s) = tt
clean_message-Ensures (number n) = tt
clean_message-Ensures (boolean b) = tt
clean_message-Ensures nil = tt

-- As many turns as there were messages.
abbrev AreTurns : List Json → List Json → Type 0
AreTurns ms turns = All IsTurn turns × (length turns ≡ length ms)

clean_messages-Ensures : (ms : List Json) → Ensures (AreTurns ms) (clean_messages ms)
unfolding clean_messages
clean_messages-Ensures [] = (tt, refl)
clean_messages-Ensures (m ∷ ms) =
    let later = clean_messages-Ensures ms in
    >>=-Ensures IsTurn (AreTurns (m ∷ ms)) (clean_message m)
      (λ c. clean_messages ms >>= (λ cs. ok (c ∷ cs))) (clean_message-Ensures m)
      λ c h.
        >>=-Ensures (AreTurns ms) (AreTurns (m ∷ ms)) (clean_messages ms) (λ cs. ok (c ∷ cs)) later
          λ cs k. ((h, k.0), omega (arith, k.1))

module _ (research : ResearchFields) (p : GuestAccessPolicy) where
  -- No attachments, or at most as many as the policy and the platform allow.
  abbrev AreFew : Members → Type 0
  AreFew attachments =
      (attachments ≡ close)
      ⊎ ((es : Elements) × (attachments ≡ member "attachmentIds" (array es) close)
          × (pos (length (list_of es)) ≤ℤ attachment_count p))

  -- The payload is made of what is allowed: the backend's own instruction, then what the user and the
  -- assistant said, the fast model, the cap of the policy and few attachments.
  pub record IsGuestChat (out : Members) : Type 0 where
    pub asked : Members
    pub turns : List Json
    pub attachments : Members
    pub whole : out ≡ clean_payload research p asked turns attachments
    pub messages :
        find_member out "messages"
        ≡ some (array (elements_of (message "system" guest_prompt ∷ turns)))
    pub model : find_member out "model" ≡ some (text "fast")
    pub are_turns : All IsTurn turns
    pub some_turn : 1 ≤ length turns
    pub few : AreFew attachments

  attachments_of-Ensures : (o : Option Json) → Ensures AreFew (attachments_of p o)
  attachments_of-Ensures none = inl refl
  attachments_of-Ensures (some (array es)) =
      if_cases (Ensures AreFew) (ltb_ℤ (attachment_count p) (pos (length (list_of es))))
        {b = ok (member "attachmentIds" (array es) close)} (λ h. tt)
        λ h. inr (es, refl, at_most (attachment_count p) (pos (length (list_of es))) h)
  attachments_of-Ensures (some (object ms)) = inl refl
  attachments_of-Ensures (some (text s)) = inl refl
  attachments_of-Ensures (some (number n)) = inl refl
  attachments_of-Ensures (some (boolean b)) = inl refl
  attachments_of-Ensures (some nil) = inl refl

  clean_chat-Ensures :
      (ms : Members) (messages : List Json)
      → Ensures IsGuestChat (clean_chat research p ms messages)
  unfolding find_member
  clean_chat-Ensures ms [] = tt
  clean_chat-Ensures ms (m ∷ rest) =
      let ids = find_member ms "attachmentIds" in
      >>=-Ensures (AreTurns (m ∷ rest)) IsGuestChat (clean_messages (m ∷ rest))
        (λ turns. attachments_of p ids >>= (λ a. ok (clean_payload research p ms turns a)))
        (clean_messages-Ensures (m ∷ rest))
        λ turns h.
          >>=-Ensures AreFew IsGuestChat (attachments_of p ids)
            (λ a. ok (clean_payload research p ms turns a)) (attachments_of-Ensures ids)
            λ a k. record {
              asked = ms;
              turns = turns;
              attachments = a;
              whole = refl;
              messages = refl;
              model = refl;
              are_turns = h.0;
              some_turn = omega (arith, h.1);
              few = k;
            }

  -- The chat of a guest is refused, or becomes a payload for the fast model whose messages are the
  -- backend's own instruction and then at least one text, each said by the user or the assistant, so
  -- that no other instruction and no image is sent on; and it has at most as many attachments as the
  -- policy and the platform allow.
  pub restrict_guest_chat-IsGuestChat :
      (payload : Option Json) → Ensures IsGuestChat (restrict_guest_chat research p payload)
  unfolding restrict_guest_chat
  restrict_guest_chat-IsGuestChat payload = members_cases (map_of payload)
    where
      members_cases : (o : Option Members) → Ensures IsGuestChat (restrict_members research p o)
      members_cases none = tt
      members_cases (some ms) =
          clean_chat-Ensures ms (messages_in research p (find_member ms "messages"))

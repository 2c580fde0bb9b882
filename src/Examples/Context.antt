-- ===== src/Examples/Context.antt =====
-- Concrete inputs of the results on the context of chats.
use daiki_aipass_backend.Prelude.{Ensures, some, ◌≡◌, refl, String, [], ◌∷◌}
use daiki_aipass_backend.Prelude.Int.{pos}
use daiki_aipass_backend.Payload.{Json, object, array, element, stop, text, member, close, Codec}
use daiki_aipass_backend.Payload.Capped.{Bytes}
use daiki_aipass_backend.Runtime.Context.{compact_text}
use daiki_aipass_backend.Runtime.Context.Trim.{trim_chat_context}
use daiki_aipass_backend.Runtime.Context.Trimmed.{IsTrimmed, trim_chat_context-IsTrimmed}

-- Texts of one length.
abbrev four_bytes : String → Bytes
four_bytes s = 104 ∷ 105 ∷ 33 ∷ 33 ∷ []

abbrev no_text : Bytes → String
no_text b = ""

abbrev said : String → String → Json
said role content = object (member "role" (text role) (member "content" (text content) close))

compacted_tail : compact_text (1 ∷ 2 ∷ 3 ∷ 4 ∷ 5 ∷ []) (pos 1) ≡ 2 ∷ 3 ∷ 4 ∷ 5 ∷ []
unfolding compact_text
compacted_tail = refl

abbrev chat : Json
chat = object (
    member "messages"
      (array
        (element (said "system" "b") (element (said "user" "a") (element (said "user" "c") stop))))
      close)

abbrev three_messages : Codec
three_messages = record { decode = λ body. some chat; encode = λ v. some "{}" }

trim_chat_context-IsTrimmed_example :
    Ensures
      (IsTrimmed four_bytes no_text three_messages "chat" (pos 90))
      (trim_chat_context four_bytes no_text three_messages "chat" (pos 90))
trim_chat_context-IsTrimmed_example =
    trim_chat_context-IsTrimmed four_bytes no_text three_messages "chat" (pos 90)

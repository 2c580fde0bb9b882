-- ===== src/Quota/Effective/Pending.antt =====
-- What Quota/Effective leaves of the chat of a user whose approval is pending.
use daiki_aipass_backend.Prelude.{
  ◌≡◌, ◌⊎◌, refl, sym, ap, subst, ◌∙◌, String, Option, some, none, true, false, Bool-cases, inl,
  inr, str_eq, eq_iff, eq_refl, if_cases, false_ne_true, contains, Occurs, contains-Occurs,
  Occurs-contains, arith,
}
use daiki_aipass_backend.Payload.{
  Json, Members, object, array, text, number, boolean, nil, member, close, Codec,
}
use daiki_aipass_backend.Payload.Names.{find_member}
use daiki_aipass_backend.Runtime.Context.{map_of, set_member}
use daiki_aipass_backend.Quota.Effective.{
  PendingConfig, PendingChat, sent, refused, panics, delete_member, restricted, restrict_payload,
  has_image_part, restrict_pending_chat,
}

find_member-set_member :
    (ms : Members) (k : String) (v : Json) → find_member (set_member ms k v) k ≡ some v
unfolding find_member set_member
find_member-set_member close k v = rw eq_refl refl
find_member-set_member (member j w ms) k v = elim (Bool-cases (str_eq j k)) [
  | inl e ↦ rw (set_member, e, e) refl
  | inr e ↦ rw (set_member, e, e) (find_member-set_member ms k v)
]

find_member-set_member_other :
    (ms : Members) (k : String) (v : Json) (j : String)
    → str_eq k j ≡ false
    → find_member (set_member ms k v) j ≡ find_member ms j
unfolding find_member set_member
find_member-set_member_other close k v j h = rw h refl
find_member-set_member_other (member i w ms) k v j h = elim (Bool-cases (str_eq i k)) [
  | inl e ↦
      let other : str_eq i j ≡ false = subst (λ x. str_eq x j ≡ false) (sym ((eq_iff i k).0 e)) h in
      rw (set_member, e, other) refl
  | inr e ↦ rw (set_member, e, find_member-set_member_other ms k v j h) refl
]

find_member-delete_member : (ms : Members) (k : String) → find_member (delete_member ms k) k ≡ none
unfolding find_member delete_member
find_member-delete_member close k = refl
find_member-delete_member (member j w ms) k = elim (Bool-cases (str_eq j k)) [
  | inl e ↦ rw (delete_member, e) (find_member-delete_member ms k)
  | inr e ↦ rw (delete_member, e, e) (find_member-delete_member ms k)
]

find_member-delete_member_other :
    (ms : Members) (k j : String)
    → str_eq k j ≡ false
    → find_member (delete_member ms k) j ≡ find_member ms j
unfolding find_member delete_member
find_member-delete_member_other close k j h = refl
find_member-delete_member_other (member i w ms) k j h = elim (Bool-cases (str_eq i k)) [
  | inl e ↦
      let other : str_eq i j ≡ false = subst (λ x. str_eq x j ≡ false) (sym ((eq_iff i k).0 e)) h in
      rw (delete_member, e, other) (find_member-delete_member_other ms k j h)
  | inr e ↦ rw (delete_member, e, find_member-delete_member_other ms k j h) refl
]

module _ (cfg : PendingConfig) (c : Codec) (body : String) where
  -- A payload for the fast model with the cap on its completion, of a body whose text has neither of
  -- the two names of image parts.
  pub record IsRestricted (v : Json) : Type 0 where
    pub members : Members
    pub whole : v ≡ object members
    pub model : find_member members "model" ≡ some (text "fast")
    pub cap : find_member members "max_completion_tokens" ≡ some (number cfg.max_completion_tokens)
    pub no_other_cap : find_member members "max_tokens" ≡ none
    pub no_image_url : ¬ (Occurs "\"image_url\"" body)
    pub no_input_image : ¬ (Occurs "\"input_image\"" body)

  restricted-IsRestricted :
      (ms : Members) → has_image_part body ≡ false → IsRestricted (object (restricted cfg ms))
  unfolding restricted
  restricted-IsRestricted ms h =
      let fast = set_member ms "model" (text "fast") in
      let less = delete_member fast "max_tokens" in
      let cap = number cfg.max_completion_tokens in
      record {
        members = restricted cfg ms;
        whole = refl;
        model =
            find_member-set_member_other less "max_completion_tokens" cap "model" refl
            ∙ find_member-delete_member_other fast "max_tokens" "model" refl
            ∙ find_member-set_member ms "model" (text "fast");
        cap = find_member-set_member less "max_completion_tokens" cap;
        no_other_cap =
            find_member-set_member_other less "max_completion_tokens" cap "max_tokens" refl
            ∙ find_member-delete_member fast "max_tokens";
        no_image_url = λ o.
            let found : contains body "\"image_url\"" ≡ true =
              Occurs-contains body "\"image_url\"" o in
            false_ne_true (sym h ∙ rw found refl);
        no_input_image = λ o. let found = Occurs-contains body "\"input_image\"" o in ground arith;
      }

  abbrev pub NamesImagePart : Type 0
  NamesImagePart = Occurs "\"image_url\"" body ⊎ Occurs "\"input_image\"" body

  names_image_part : has_image_part body ≡ true → NamesImagePart
  names_image_part h = elim (Bool-cases (contains body "\"image_url\"")) [
    | inl e ↦ inl (contains-Occurs body "\"image_url\"" e)
    | inr e ↦
        let found : contains body "\"input_image\"" ≡ true = ground arith in
        inr (contains-Occurs body "\"input_image\"" found)
  ]

  -- What each outcome says of the chat.
  abbrev pub IsPendingOutcome : PendingChat → Type 0
  IsPendingOutcome (sent v) = IsRestricted v
  IsPendingOutcome (refused message) = NamesImagePart ⊎ (map_of (c.decode body) ≡ none)
  IsPendingOutcome panics = c.decode body ≡ some nil

  -- The chat of a user whose approval is pending is sent on as a payload that asks for the fast model
  -- and has the configured cap on the completion as its only one, and then the text of its body
  -- contains neither `"image_url"` nor `"input_image"`. It is refused only if the text contains one of
  -- the two, or is neither an object nor `null`; and restrictPendingChat panics only on `null`.
  pub restrict_pending_chat-IsRestricted : IsPendingOutcome (restrict_pending_chat cfg c body)
  unfolding restrict_pending_chat
  restrict_pending_chat-IsRestricted = payload_cases (c.decode body) refl
    where
      no_map :
          (o : Option Json) → c.decode body ≡ o → map_of o ≡ none → map_of (c.decode body) ≡ none
      no_map o e h = ap map_of e ∙ h

      payload_cases :
          (o : Option Json)
          → c.decode body ≡ o
          → IsPendingOutcome (restrict_payload cfg (has_image_part body) o)
      payload_cases none e = inr (no_map none e refl)
      payload_cases (some (object ms)) e =
          if_cases IsPendingOutcome (has_image_part body)
            {a = refused "pending accounts support text chat only"}
            {b = sent (object (restricted cfg ms))} (λ h. inl (names_image_part h))
            λ h. restricted-IsRestricted ms h
      payload_cases (some nil) e =
          if_cases IsPendingOutcome (has_image_part body)
            {a = refused "pending accounts support text chat only"} {b = panics}
            (λ h. inl (names_image_part h)) λ _. e
      payload_cases (some (array es)) e = inr (no_map (some (array es)) e refl)
      payload_cases (some (text t)) e = inr (no_map (some (text t)) e refl)
      payload_cases (some (number n)) e = inr (no_map (some (number n)) e refl)
      payload_cases (some (boolean b)) e = inr (no_map (some (boolean b)) e refl)

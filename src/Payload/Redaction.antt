-- ===== src/Payload/Redaction.antt =====
-- What redaction and the stripping of private reasoning in Payload guarantee.
use daiki_aipass_backend.Prelude.{
  ◌≡◌, ◌⊎◌, refl, ap, String, some, none, Bool, true, false, if◌then◌else◌, if_cases, Occurs, arith,
}
use daiki_aipass_backend.Payload.{
  Json, Members, Elements, object, array, text, number, boolean, nil, member, close, element, stop,
  redacted, sensitive_payload_key, redact_value, redact_members, redact_elements, is_private_key,
  strip_private_reasoning, strip_members, strip_elements, Codec,
}

-- Every member whose key is sensitive holds the mark, at any depth.
abbrev mutual
  pub IsRedacted : Json → Type 0
  IsRedacted (object ms) = MembersRedacted ms
  IsRedacted (array es) = ElementsRedacted es
  IsRedacted v = Unit

  pub MembersRedacted : Members → Type 0
  MembersRedacted (member k v ms) =
      (sensitive_payload_key k ≡ true → v ≡ redacted)
      × (sensitive_payload_key k ≡ false → IsRedacted v)
      × MembersRedacted ms
  MembersRedacted close = Unit

  pub ElementsRedacted : Elements → Type 0
  ElementsRedacted (element v es) = IsRedacted v × ElementsRedacted es
  ElementsRedacted stop = Unit

-- A member whose value is given the mark exactly if its key is sensitive.
member_redacted :
    (sensitive : Bool) (v : Json)
    → IsRedacted v
    → (sensitive ≡ true → (if sensitive then redacted else v) ≡ redacted)
      × (sensitive ≡ false → IsRedacted (if sensitive then redacted else v))
member_redacted true v h = (λ e. refl, λ e. ground arith)
member_redacted false v h = (λ e. ground arith, λ e. h)

mutual
  unfolding redact_value

  redact-IsRedacted : (v : Json) → IsRedacted (redact_value v)
  redact-IsRedacted (object ms) = redact-MembersRedacted ms
  redact-IsRedacted (array es) = redact-ElementsRedacted es
  redact-IsRedacted (text s) = tt
  redact-IsRedacted (number s) = tt
  redact-IsRedacted (boolean b) = tt
  redact-IsRedacted nil = tt

  redact-MembersRedacted : (ms : Members) → MembersRedacted (redact_members ms)
  redact-MembersRedacted (member k v ms) =
      let m = member_redacted (sensitive_payload_key k) (redact_value v) (redact-IsRedacted v) in
      (m.0, m.1, redact-MembersRedacted ms)
  redact-MembersRedacted close = tt

  redact-ElementsRedacted : (es : Elements) → ElementsRedacted (redact_elements es)
  redact-ElementsRedacted (element v es) = (redact-IsRedacted v, redact-ElementsRedacted es)
  redact-ElementsRedacted stop = tt

kept_member :
    (sensitive : Bool) (v w : Json)
    → (sensitive ≡ true → v ≡ redacted)
    → (sensitive ≡ false → w ≡ v)
    → (if sensitive then redacted else w) ≡ v
kept_member true v w h k = ground arith
kept_member false v w h k = k refl

mutual
  unfolding redact_value

  redact_same : (v : Json) → IsRedacted v → redact_value v ≡ v
  redact_same (object ms) h = ap object (redact_members_same ms h)
  redact_same (array es) h = ap array (redact_elements_same es h)
  redact_same (text s) h = refl
  redact_same (number s) h = refl
  redact_same (boolean b) h = refl
  redact_same nil h = refl

  redact_members_same : (ms : Members) → MembersRedacted ms → redact_members ms ≡ ms
  redact_members_same (member k v ms) (p, q, h) =
      let m : (if sensitive_payload_key k then redacted else redact_value v) ≡ v =
        kept_member (sensitive_payload_key k) v (redact_value v) p λ e. redact_same v (q e) in
      rw (m, redact_members_same ms h) refl
  redact_members_same close h = refl

  redact_elements_same : (es : Elements) → ElementsRedacted es → redact_elements es ≡ es
  redact_elements_same (element v es) (p, h) = rw (redact_same v p, redact_elements_same es h) refl
  redact_elements_same stop h = refl

-- After redaction every member whose key is sensitive holds only the mark, at any depth, and a value
-- of which this is true already is left as it is.
pub redact_value-IsRedacted :
    (v : Json) → IsRedacted (redact_value v) × (IsRedacted v → redact_value v ≡ v)
redact_value-IsRedacted v = (redact-IsRedacted v, redact_same v)

-- No member has a private key, at any depth.
abbrev mutual
  pub IsPublic : Json → Type 0
  IsPublic (object ms) = MembersPublic ms
  IsPublic (array es) = ElementsPublic es
  IsPublic v = Unit

  pub MembersPublic : Members → Type 0
  MembersPublic (member k v ms) = (is_private_key k ≡ false) × IsPublic v × MembersPublic ms
  MembersPublic close = Unit

  pub ElementsPublic : Elements → Type 0
  ElementsPublic (element v es) = IsPublic v × ElementsPublic es
  ElementsPublic stop = Unit

mutual
  unfolding strip_private_reasoning

  pub strip-IsPublic : (v : Json) → IsPublic (strip_private_reasoning v)
  strip-IsPublic (object ms) = strip-MembersPublic ms
  strip-IsPublic (array es) = strip-ElementsPublic es
  strip-IsPublic (text s) = tt
  strip-IsPublic (number s) = tt
  strip-IsPublic (boolean b) = tt
  strip-IsPublic nil = tt

  strip-MembersPublic : (ms : Members) → MembersPublic (strip_members ms)
  strip-MembersPublic (member k v ms) =
      let rest = strip-MembersPublic ms in
      let inside = strip-IsPublic v in
      if_cases MembersPublic (is_private_key k) (λ h. rest) λ h. (h, inside, rest)
  strip-MembersPublic close = tt

  strip-ElementsPublic : (es : Elements) → ElementsPublic (strip_elements es)
  strip-ElementsPublic (element v es) = (strip-IsPublic v, strip-ElementsPublic es)
  strip-ElementsPublic stop = tt

mutual
  unfolding strip_private_reasoning

  strip_same : (v : Json) → IsPublic v → strip_private_reasoning v ≡ v
  strip_same (object ms) h = ap object (strip_members_same ms h)
  strip_same (array es) h = ap array (strip_elements_same es h)
  strip_same (text s) h = refl
  strip_same (number s) h = refl
  strip_same (boolean b) h = refl
  strip_same nil h = refl

  strip_members_same : (ms : Members) → MembersPublic ms → strip_members ms ≡ ms
  strip_members_same (member k v ms) (p, q, h) =
      let same : member k (strip_private_reasoning v) (strip_members ms) ≡ member k v ms =
        rw (strip_same v q, strip_members_same ms h) refl in
      rw p same
  strip_members_same close h = refl

  strip_elements_same : (es : Elements) → ElementsPublic es → strip_elements es ≡ es
  strip_elements_same (element v es) (p, h) = rw (strip_same v p, strip_elements_same es h) refl
  strip_elements_same stop h = refl

abbrev pub MentionsReasoning : String → Type 0
MentionsReasoning body =
    Occurs "reasoning_content" body
    ⊎ (Occurs "reasoning_text" body ⊎ Occurs "chain_of_thought" body)

module _ (c : Codec) (body : String) where
  -- The body is passed on as it came.
  pub data IsPassedOn : Type 0 where
    silent : ¬ (MentionsReasoning body) → IsPassedOn
    undecoded : c.decode body ≡ none → IsPassedOn
    unencoded : (w : Json) → IsPublic w → c.encode w ≡ none → IsPassedOn

  -- The encoding of a value without private keys, which is the body's own if that has none.
  pub record IsStripped (out : String) : Type 0 where
    pub before : Json
    pub left : Json
    pub mentioned : MentionsReasoning body
    pub read : c.decode body ≡ some before
    pub written : c.encode left ≡ some out
    pub public_only : IsPublic left
    pub kept : IsPublic before → left ≡ before

  abbrev pub IsSanitized : String → Type 0
  IsSanitized out = ((out ≡ body) × IsPassedOn) ⊎ IsStripped out

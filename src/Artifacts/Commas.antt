-- ===== src/Artifacts/Commas.antt =====
-- The repair of Artifacts against a specification of its own: the texts of a content, and the commas
-- that a repair may drop.
use daiki_aipass_backend.Prelude.{
  ℕ, ◌≡◌, refl, sym, ◌∙◌, ap, Bool, true, false, ◌||◌, ◌==◌, if◌then◌else◌, Bool-cases, ◌⊎◌, inl,
  inr, [], ◌∷◌, ◌++◌, arith, false_ne_true,
}
use daiki_aipass_backend.Payload.Capped.{Bytes}
use daiki_aipass_backend.Artifacts.{
  Scan, outside, scan_byte, closes_next, is_trailing, remove_commas,
  remove_generated_json_trailing_commas,
}

-- Where a byte of a JSON content stands: outside of texts, in one, or in one behind a backslash.
pub data Place : Type 0 where
  plain in_text behind_backslash : Place

-- Where the byte after `c` stands: a quote (34) opens and closes a text, but a byte behind a
-- backslash (92) stands for itself.
unfoldable pub after : Place → ℕ → Place
after plain c = if c == 34 then in_text else plain
after in_text c = if c == 34 then plain else if c == 92 then behind_backslash else in_text
after behind_backslash c = in_text

-- The bytes of the texts in a content, with the quotes that open and close them.
unfoldable pub in_texts : Place → Bytes → Bytes
in_texts p [] = []
in_texts plain (c ∷ s) = let rest = in_texts (after plain c) s in if c == 34 then c ∷ rest else rest
in_texts in_text (c ∷ s) = c ∷ in_texts (after in_text c) s
in_texts behind_backslash (c ∷ s) = c ∷ in_texts (after behind_backslash c) s

abbrev IsBlank : ℕ → Type 0
IsBlank c = (c ≡ 32) ⊎ ((c ≡ 10) ⊎ ((c ≡ 13) ⊎ (c ≡ 9)))

abbrev pub AreBlank : Bytes → Type 0
AreBlank [] = Unit
AreBlank (c ∷ s) = IsBlank c × AreBlank s

-- Blanks (space, line feed, return, tab), then a closing bracket (125 or 93), then anything.
pub record IsClosing (s : Bytes) : Type 0 where
  pub blanks : Bytes
  pub bracket : ℕ
  pub rest : Bytes
  pub whole : s ≡ blanks ++ (bracket ∷ rest)
  pub blank : AreBlank blanks
  pub closes : (bracket ≡ 125) ⊎ (bracket ≡ 93)

-- A comma (44) outside of texts, in front of a closing bracket.
abbrev pub IsDropped : Place → ℕ → Bytes → Type 0
IsDropped p c s = (p ≡ plain) × ((c ≡ 44) × IsClosing s)

-- What is left of a content when exactly those commas are dropped.
abbrev pub IsRepair : Place → Bytes → Bytes → Type 0
IsRepair p [] r = r ≡ []
IsRepair p (c ∷ s) r =
    (IsDropped p c s × IsRepair p s r)
    ⊎ ((¬ (IsDropped p c s)) × ((r_s : Bytes) × ((r ≡ c ∷ r_s) × IsRepair (after p c) s r_s)))

IsBlank-of : (c : ℕ) → ((c == 32) || (c == 10) || (c == 13) || (c == 9)) ≡ true → IsBlank c
IsBlank-of c h = ground arith

of_blank : (c : ℕ) → IsBlank c → ((c == 32) || (c == 10) || (c == 13) || (c == 9)) ≡ true
of_blank c h = ground arith

bracket_of : (c : ℕ) → ((c == 125) || (c == 93)) ≡ true → (c ≡ 125) ⊎ (c ≡ 93)
bracket_of c h = ground arith

after_bracket :
    (c : ℕ) (later : Bool)
    → (c ≡ 125) ⊎ (c ≡ 93)
    → (if (c == 32) || (c == 10) || (c == 13) || (c == 9) then later else (c == 125) || (c == 93))
      ≡ true
after_bracket c later h = ground arith

closes_next-IsClosing : (s : Bytes) → closes_next s ≡ true → IsClosing s
unfolding closes_next
closes_next-IsClosing [] h = absurd (false_ne_true h)
closes_next-IsClosing (c ∷ s) h =
    elim (Bool-cases ((c == 32) || (c == 10) || (c == 13) || (c == 9))) [
      | inl e ↦
          let next : closes_next s ≡ true = sym (rw e refl) ∙ h in
          let l = closes_next-IsClosing s next in
          record {
            blanks = c ∷ l.blanks;
            bracket = l.bracket;
            rest = l.rest;
            whole = ap (λ r. c ∷ r) l.whole;
            blank = (IsBlank-of c e, l.blank);
            closes = l.closes;
          }
      | inr e ↦
          let shut : ((c == 125) || (c == 93)) ≡ true = sym (rw e refl) ∙ h in
          record {
            blanks = [];
            bracket = c;
            rest = s;
            whole = refl;
            blank = tt;
            closes = bracket_of c shut;
          }
    ]

closes_next-blanks :
    (blanks : Bytes) (c : ℕ) (s : Bytes)
    → AreBlank blanks
    → (c ≡ 125) ⊎ (c ≡ 93)
    → closes_next (blanks ++ (c ∷ s)) ≡ true
unfolding closes_next
closes_next-blanks [] c s b h = after_bracket c (closes_next s) h
closes_next-blanks (d ∷ ds) c s (b, bs) h = rw (of_blank d b) (closes_next-blanks ds c s bs h)

-- The code's state at a place.
scan_of : Place → Scan
scan_of plain = outside
scan_of in_text = record { in_string = true; escaped = false }
scan_of behind_backslash = record { in_string = true; escaped = true }

scan_byte-scan_of : (p : Place) (c : ℕ) → scan_byte (scan_of p) c ≡ scan_of (after p c)
unfolding scan_byte after scan_of
scan_byte-scan_of plain c = elim (Bool-cases (c == 34)) [ inl e ↦ rw e refl | inr e ↦ rw e refl ]
scan_byte-scan_of in_text c = ground arith
scan_byte-scan_of behind_backslash c = refl

trailing_of : (p : Place) (c : ℕ) (s : Bytes) → is_trailing (scan_of p) c s ≡ true → IsDropped p c s
unfolding scan_of
trailing_of plain c s h =
    let (comma, shut) : (c ≡ 44) × (closes_next s ≡ true) = ground arith in
    (refl, (comma, closes_next-IsClosing s shut))
trailing_of in_text c s h = absurd (false_ne_true h)
trailing_of behind_backslash c s h = absurd (false_ne_true h)

of_trailing : (p : Place) (c : ℕ) (s : Bytes) → IsDropped p c s → is_trailing (scan_of p) c s ≡ true
unfolding scan_of
of_trailing p c s (here, (comma, shut)) =
    rw (here, comma, shut.whole)
      (closes_next-blanks shut.blanks shut.bracket shut.rest shut.blank shut.closes)

remove_commas-IsRepair : (p : Place) (s : Bytes) → IsRepair p s (remove_commas (scan_of p) s)
unfolding remove_commas
remove_commas-IsRepair p [] = refl
remove_commas-IsRepair p (c ∷ s) = elim (Bool-cases (is_trailing (scan_of p) c s)) [
  | inl d ↦ inl (trailing_of p c s d, rw (remove_commas, d) (remove_commas-IsRepair p s))
  | inr d ↦
      let kept : remove_commas (scan_of p) (c ∷ s) ≡ c ∷ remove_commas (scan_of (after p c)) s =
        rw (remove_commas, d, scan_byte-scan_of p c) refl in
      let stays : ¬ (IsDropped p c s) = λ h. false_ne_true (sym d ∙ of_trailing p c s h) in
      inr (
        stays,
        (remove_commas (scan_of (after p c)) s, (kept, remove_commas-IsRepair (after p c) s)),
      )
]

in_texts-later :
    (p : Place) (c : ℕ) (r s : Bytes)
    → in_texts (after p c) r ≡ in_texts (after p c) s
    → in_texts p (c ∷ r) ≡ in_texts p (c ∷ s)
unfolding in_texts
in_texts-later plain c r s h = ap (λ rest. if c == 34 then c ∷ rest else rest) h
in_texts-later in_text c r s h = ap (λ rest. c ∷ rest) h
in_texts-later behind_backslash c r s h = ap (λ rest. c ∷ rest) h

in_texts-comma :
    (p : Place) (c : ℕ) (s : Bytes) → p ≡ plain → c ≡ 44 → in_texts p (c ∷ s) ≡ in_texts p s
unfolding in_texts after
in_texts-comma p c s h k = rw (h, k) refl

-- A repair leaves the texts as they are.
IsRepair-in_texts : (p : Place) (s r : Bytes) → IsRepair p s r → in_texts p r ≡ in_texts p s
unfolding in_texts
IsRepair-in_texts p [] r e = rw e refl
IsRepair-in_texts p (c ∷ s) r (inl ((here, (comma, _)), later)) =
    IsRepair-in_texts p s r later ∙ sym (in_texts-comma p c s here comma)
IsRepair-in_texts p (c ∷ s) r (inr (_, (r_s, (e, later)))) =
    ap (in_texts p) e ∙ in_texts-later p c r_s s (IsRepair-in_texts (after p c) s r_s later)

-- The repair of a content drops exactly the commas that stand outside of its texts in front of a
-- closing bracket, with nothing but blanks between the two, and keeps every other byte; so it
-- changes no byte of the texts. Where a text ends, with its escapes, is described on its own.
pub remove_generated_json_trailing_commas-keeps :
    (content : Bytes)
    → IsRepair plain content (remove_generated_json_trailing_commas content)
      × (in_texts plain (remove_generated_json_trailing_commas content) ≡ in_texts plain content)
unfolding remove_generated_json_trailing_commas scan_of
remove_generated_json_trailing_commas-keeps content =
    let repair : IsRepair plain content (remove_generated_json_trailing_commas content) =
      remove_commas-IsRepair plain content in
    (repair, IsRepair-in_texts plain content (remove_generated_json_trailing_commas content) repair)

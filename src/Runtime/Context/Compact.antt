-- ===== src/Runtime/Context/Compact.antt =====
-- A compacted text of Runtime/Context has exactly the bytes that its budget allows.
use daiki_aipass_backend.Prelude.{
  ℕ, ◌+◌, ◌-◌, ◌*◌, ◌/◌, min, ◌≡◌, refl, ◌∙◌, true, false, not, ltb, leb, if◌then◌else◌, if_cases,
  [], ◌++◌, length, take, length-append, length-take, length-drop, arith,
}
use daiki_aipass_backend.Prelude.Int.{ℤ, pos_part, is_pos}
use daiki_aipass_backend.Payload.Capped.{Bytes}
use daiki_aipass_backend.Runtime.Context.{marker, last_bytes, compact_text}

no_budget : (n : ℕ) (b : ℤ) → not (is_pos b) ≡ true → 0 ≡ min n (pos_part b * 4)
no_budget n b h = ground arith

whole_text : (n m : ℕ) → leb n m ≡ true → n ≡ min n m
whole_text n m h = ground arith

last_part : (n m : ℕ) → leb n m ≡ false → n - (n - m) ≡ min n m
last_part n m h = ground arith

-- The head, the marker and the tail make up the budget.
two_parts :
    (n m left tail : ℕ)
    → leb n m ≡ false
    → ltb m 160 ≡ false
    → left ≡ m - m * 3 / 5 - 27
    → tail ≡ (if ltb left 32 then 32 else left)
    → min (m * 3 / 5) n + 27 + (n - (n - tail)) ≡ min n m
two_parts n m left tail h k e f = ground arith

-- A text is compacted to as many bytes as four for each token of the budget, and a shorter one is kept
-- whole: the result has the smaller of the two lengths.
pub length-compact_text :
    (v : Bytes) (budget : ℤ) → length (compact_text v budget) ≡ min (length v) (pos_part budget * 4)
unfolding compact_text
length-compact_text v budget =
    let n = length v in
    let m = pos_part budget * 4 in
    let head = m * 3 / 5 in
    let left = m - head - 27 in
    let tail = if ltb left 32 then 32 else left in
    let P = λ (x : Bytes). length x ≡ min n m in
    if_cases P (not (is_pos budget)) {a = []} (λ h. no_budget n budget h)
      λ h.
        if_cases P (leb n m) {a = v} (λ k. whole_text n m k)
          λ k.
            if_cases P (ltb m 160) {a = last_bytes m v}
              {b = take head v ++ marker ++ last_bytes tail v}
              (λ l. length-drop (n - m) v ∙ last_part n m k)
              λ l.
                length-append (take head v ++ marker) (last_bytes tail v)
                ∙ rw
                    (
                      length-append (take head v) marker,
                      length-take head v,
                      length-drop (n - tail) v,
                    )
                    (two_parts n m left tail k l refl refl)

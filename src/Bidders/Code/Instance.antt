-- ===== src/Bidders/Code/Instance.antt =====
-- The code of an instance is read back as its family and its number.
use thenexusengine.Common.{
  ◌≡◌, refl, ap, ◌∙◌, ℕ, zero, suc, ◌+◌, ◌*◌, ◌/◌, ◌%◌, ◌<◌, String, false, none, some, arith, ltb,
  Bool-cases, Option-cases, ◌≤◌, List, [], ◌∷◌, All, inl, inr, nat_eq,
}
use Prim.Native.Char.{Char, code}
use thenexusengine.Common.Text.{concat, is_empty, count_char}
use thenexusengine.Bidders.Code.{
  digit_of, digit_from, digit_zeros, newline, before_newline, split_last_hyphen, digits_value,
  instance_match, instance_code,
}
use thenexusengine.Common.Text.Decimal.{digit_text, show_onto, show}

digits_value-digit_text :
    (n : ℕ) (rest : String) (value : ℕ)
    → n < 10
    → digits_value (concat (digit_text n) rest) value ≡ digits_value rest (value * 10 + n)
unfolding digits_value digit_from
digits_value-digit_text zero rest value h = refl
digits_value-digit_text (suc zero) rest value h = refl
digits_value-digit_text (suc (suc zero)) rest value h = refl
digits_value-digit_text (suc (suc (suc zero))) rest value h = refl
digits_value-digit_text (suc (suc (suc (suc zero)))) rest value h = refl
digits_value-digit_text (suc (suc (suc (suc (suc zero))))) rest value h = refl
digits_value-digit_text (suc (suc (suc (suc (suc (suc zero)))))) rest value h = refl
digits_value-digit_text (suc (suc (suc (suc (suc (suc (suc zero))))))) rest value h = refl
digits_value-digit_text (suc (suc (suc (suc (suc (suc (suc (suc zero)))))))) rest value h = refl
digits_value-digit_text (suc (suc (suc (suc (suc (suc (suc (suc (suc zero))))))))) rest value h =
    refl
digits_value-digit_text (suc (suc (suc (suc (suc (suc (suc (suc (suc (suc n)))))))))) rest value h =
    absurd (omega arith)

-- The digits of a number, read in front of a text, give the value that its reading begins with.
digits_value-show_onto :
    (fuel n : ℕ) (rest : String)
    → n < fuel
    → digits_value (show_onto fuel n rest) 0 ≡ digits_value rest n
unfolding show_onto
digits_value-show_onto zero n rest h = absurd (omega arith)
digits_value-show_onto (suc fuel) n rest h = elim (Bool-cases (ltb n 10)) [
  | inl small ↦
      let same : 0 * 10 + n ≡ n = omega arith in
      rw (small, show_onto)
        (digits_value-digit_text n rest 0 (ground arith) ∙ ap (digits_value rest) same)
  | inr large ↦
      let inner =
        digits_value-show_onto fuel (n / 10) (concat (digit_text (n % 10)) rest) (ground arith) in
      let last = digits_value-digit_text (n % 10) rest (n / 10) (omega arith) in
      let whole : n / 10 * 10 + n % 10 ≡ n = omega arith in
      rw (large, show_onto) (inner ∙ last ∙ ap (digits_value rest) whole)
]

digits_value-show : (n : ℕ) → digits_value (show n) 0 ≡ some n
unfolding show digits_value
digits_value-show n = digits_value-show_onto (suc n) n "" (omega arith)

-- A digit stands behind the newline and the hyphen in Unicode.
digit_from-ge : (zs : List ℕ) (n v : ℕ) → All (λ z. 48 ≤ z) zs → digit_from zs n ≡ some v → 48 ≤ n
unfolding digit_from
digit_from-ge [] n v a e = absurd (ground arith)
digit_from-ge (z ∷ zs) n v (h, a) e = ground (arith, digit_from-ge zs n v a)

digit_zeros-ge : All (λ z. 48 ≤ z) digit_zeros
digit_zeros-ge = ground arith

digit_of-ge : (c : Char) (v : ℕ) → digit_of c ≡ some v → 48 ≤ code c
digit_of-ge c v = digit_from-ge digit_zeros (code c) v digit_zeros-ge

-- A text of digits has no hyphen, and no newline at its end.
split_last_hyphen-digits :
    (s : String) (value v : ℕ) → digits_value s value ≡ some v → split_last_hyphen s ≡ none
unfolding split_last_hyphen digits_value
split_last_hyphen-digits String.[] value v e = refl
split_last_hyphen-digits (String.◌∷◌ c s) value v e = elim (Option-cases (digit_of c)) [
  | inl other ↦ absurd (ground arith)
  | inr (d, digit) ↦
      let ge = digit_of-ge c d digit in
      ground (arith, split_last_hyphen-digits s (value * 10 + d) v)
]

before_newline-digits :
    (s : String) (value v : ℕ) → digits_value s value ≡ some v → before_newline s ≡ s
unfolding before_newline digits_value
before_newline-digits String.[] value v e = refl
before_newline-digits (String.◌∷◌ c s) value v e = elim (Option-cases (digit_of c)) [
  | inl other ↦ absurd (ground arith)
  | inr (d, digit) ↦
      let ge = digit_of-ge c d digit in ground (arith, before_newline-digits s (value * 10 + d) v)
]

split_last_hyphen-concat :
    (p d : String)
    → split_last_hyphen d ≡ none
    → split_last_hyphen (concat p (concat "-" d)) ≡ some (p, d)
unfolding split_last_hyphen
split_last_hyphen-concat String.[] d h = rw h refl
split_last_hyphen-concat (String.◌∷◌ c p) d h = rw (split_last_hyphen-concat p d h) refl

concat_nonempty : (s t : String) → is_empty t ≡ false → is_empty (concat s t) ≡ false
concat_nonempty String.[] t h = h
concat_nonempty (String.◌∷◌ c s) t h = refl

before_newline-concat :
    (p s : String) → is_empty s ≡ false → before_newline (concat p s) ≡ concat p (before_newline s)
unfolding before_newline
before_newline-concat String.[] s h = refl
before_newline-concat (String.◌∷◌ c p) s h =
    ground (arith, concat_nonempty p s h, before_newline-concat p s h)

show_onto_nonempty :
    (fuel n : ℕ) (rest : String) → is_empty rest ≡ false → is_empty (show_onto fuel n rest) ≡ false
unfolding show_onto
show_onto_nonempty zero n rest h = h
show_onto_nonempty (suc fuel) n rest h = elim (Bool-cases (ltb n 10)) [
  | inl small ↦ rw (small, show_onto) (concat_nonempty (digit_text n) rest h)
  | inr large ↦
      rw (large, show_onto)
        (show_onto_nonempty fuel (n / 10) (concat (digit_text (n % 10)) rest)
          (concat_nonempty (digit_text (n % 10)) rest h))
]

concat_first : (s t : String) → is_empty s ≡ false → is_empty (concat s t) ≡ false
concat_first String.[] t h = absurd (ground arith)
concat_first (String.◌∷◌ c s) t h = refl

digit_text_nonempty : (n : ℕ) → is_empty (digit_text n) ≡ false
digit_text_nonempty zero = refl
digit_text_nonempty (suc zero) = refl
digit_text_nonempty (suc (suc zero)) = refl
digit_text_nonempty (suc (suc (suc zero))) = refl
digit_text_nonempty (suc (suc (suc (suc zero)))) = refl
digit_text_nonempty (suc (suc (suc (suc (suc zero))))) = refl
digit_text_nonempty (suc (suc (suc (suc (suc (suc zero)))))) = refl
digit_text_nonempty (suc (suc (suc (suc (suc (suc (suc zero))))))) = refl
digit_text_nonempty (suc (suc (suc (suc (suc (suc (suc (suc zero)))))))) = refl
digit_text_nonempty (suc (suc (suc (suc (suc (suc (suc (suc (suc n))))))))) = refl

show-nonempty : (n : ℕ) → is_empty (show n) ≡ false
unfolding show show_onto
show-nonempty n = elim (Bool-cases (ltb n 10)) [
  | inl small ↦ rw (small, show, show_onto) (concat_first (digit_text n) "" (digit_text_nonempty n))
  | inr large ↦
      rw (large, show, show_onto)
        (show_onto_nonempty n (n / 10) (concat (digit_text (n % 10)) "")
          (concat_first (digit_text (n % 10)) "" (digit_text_nonempty (n % 10))))
]

-- The code of an instance is read back: its family is the family, its number the number, where the
-- family is not empty and has no newline.
pub instance_match-instance_code :
    (family : String) (n : ℕ)
    → is_empty family ≡ false
    → count_char newline family ≡ 0
    → instance_match (instance_code family n) ≡ some (family, n)
unfolding instance_match instance_code
instance_match-instance_code family n h one_line =
    let value = digits_value-show n in
    let digits = split_last_hyphen-digits (show n) 0 n value in
    let filled : is_empty (show n) ≡ false = show-nonempty n in
    let kept : before_newline (concat family (concat "-" (show n)))
        ≡ concat family (concat "-" (show n)) =
      before_newline-concat family (concat "-" (show n)) refl
      ∙ ap (concat family) (
          before_newline-concat "-" (show n) filled
          ∙ ap (concat "-") (before_newline-digits (show n) 0 n value)) in
    let parts : split_last_hyphen (before_newline (concat family (concat "-" (show n))))
        ≡ some (family, show n) =
      ap split_last_hyphen kept ∙ split_last_hyphen-concat family (show n) digits in
    rw (parts, instance_match) (rw (h, filled, one_line) (rw value refl))

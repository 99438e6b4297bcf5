-- ===== src/Common/Text/Parts.antt =====
-- Parts of texts, and the first separator of a text.
use Prim.Native.Nat.{ℕ, ◌+◌, ◌≤◌}
use Prim.Native.Char.{Char, code}
use Prim.Native.String.{String}
use mathlib.Core.Path.{◌≡◌, refl, ap, ◌∙◌}
use mathlib.Core.Bool.{Bool, true, false, ◌&&◌, ◌||◌}
use native.Mathlib.Omega.{arith}
use thenexusengine.Common.Tests.{leb}
use thenexusengine.Common.Equality.{◌==◌, nat_eq, same_nat_iff}
use thenexusengine.Common.Text.{lower, swap_char, concat, starts_with, has_part, count_char}

same_code : (c : Char) → (code c == code c) ≡ true
same_code c = (same_nat_iff (code c) (code c)).1 refl

pub starts_with-concat : (p t : String) → starts_with (concat p t) p ≡ true
unfolding starts_with
starts_with-concat String.[] String.[] = refl
starts_with-concat String.[] (String.◌∷◌ c t) = refl
starts_with-concat (String.◌∷◌ c p) t = rw (same_code c) (starts_with-concat p t)

has_part_start : (s p : String) → starts_with s p ≡ true → has_part s p ≡ true
unfolding has_part
has_part_start String.[] p h = h
has_part_start (String.◌∷◌ c s) p h = rw h refl

-- What begins a text after some other text is a part of it.
pub has_part-concat : (a p t : String) → has_part (concat a (concat p t)) p ≡ true
unfolding has_part
has_part-concat String.[] p t = has_part_start (concat p t) p (starts_with-concat p t)
has_part-concat (String.◌∷◌ c a) p t = ground (arith, has_part-concat a p t)

pub concat-nil : (s : String) → concat s String.[] ≡ s
concat-nil String.[] = refl
concat-nil (String.◌∷◌ c s) = ap (String.◌∷◌ c) (concat-nil s)

pub count_char-concat :
    (n : ℕ) (s t : String) → count_char n (concat s t) ≡ count_char n s + count_char n t
unfolding count_char
count_char-concat n String.[] t = omega arith
count_char-concat n (String.◌∷◌ c s) t = ground (arith, count_char-concat n s t)

-- Two texts that are split at a separator: the parts are the same, if the first part of the one is
-- without the separator and its second part has no more of them than that of the other.
pub first_separator :
    (sep : Char) (p s q t : String)
    → count_char (code sep) p ≡ 0
    → count_char (code sep) s ≤ count_char (code sep) t
    → concat p (String.◌∷◌ sep s) ≡ concat q (String.◌∷◌ sep t)
    → (p ≡ q) × (s ≡ t)
unfolding count_char
first_separator sep String.[] s String.[] t fp fs e = (refl, ground (arith, e))
first_separator sep String.[] s (String.◌∷◌ d q) t fp fs e =
    let rest : s ≡ concat q (String.◌∷◌ sep t) = ground (arith, e) in
    let inside = count_char-concat (code sep) q (String.◌∷◌ sep t) in
    let self = same_code sep in let same = ap (count_char (code sep)) rest in absurd (ground arith)
first_separator sep (String.◌∷◌ c p) s String.[] t fp fs e =
    let same : c ≡ sep = ground (arith, e) in
    let self = ap (λ d. code d == code sep) same ∙ same_code sep in absurd (ground arith)
first_separator sep (String.◌∷◌ c p) s (String.◌∷◌ d q) t fp fs e =
    let (first, second) = first_separator sep p s q t (ground arith) fs (ground arith) in
    ground (arith, e)

abbrev pub is_upper : Char → Bool
is_upper c = leb b'A' (code c) && leb (code c) b'Z'

unfoldable pub has_upper : String → Bool
has_upper String.[] = false
has_upper (String.◌∷◌ c s) = is_upper c || has_upper s

swap_char_kept : (u t : String) (c : Char) → count_char (code c) u ≡ 0 → swap_char u t c ≡ c
unfolding swap_char count_char
swap_char_kept String.[] t c h = refl
swap_char_kept (String.◌∷◌ d u) String.[] c h = refl
swap_char_kept (String.◌∷◌ d u) (String.◌∷◌ l t) c h = ground (arith, swap_char_kept u t c)

no_upper : (c : Char) → is_upper c ≡ false → count_char (code c) "ABCDEFGHIJKLMNOPQRSTUVWXYZ" ≡ 0
unfolding count_char
no_upper c h = ground arith

-- A text without capitals is its own `lower`.
pub lower_kept : (s : String) → has_upper s ≡ false → lower s ≡ s
unfolding lower has_upper
lower_kept String.[] h = refl
lower_kept (String.◌∷◌ c s) h =
    let first =
      swap_char_kept "ABCDEFGHIJKLMNOPQRSTUVWXYZ" "abcdefghijklmnopqrstuvwxyz" c
        (no_upper c (ground arith)) in
    ground (arith, lower_kept s)

-- ===== src/Common/Text.antt =====
-- Operations on texts: `str.lower` and `str.upper` on the ASCII letters, `+`, `startswith`, `in` and
-- `split`.
pub mod Parts
pub mod Decimal
pub mod Beginnings
use Prim.Native.Nat.{ℕ, suc}
use Prim.Native.Char.{Char, code}
use Prim.Native.String.{String}
use mathlib.Core.Path.{◌≡◌, refl}
use mathlib.Core.Option.{Option, none, some}
use mathlib.Core.Bool.{Bool, true, false, ◌&&◌, ◌||◌}
use thenexusengine.Common.Tests.{if◌then◌else◌}
use thenexusengine.Common.Equality.{◌==◌, nat_eq}

-- The character that stands in the second text where `c` stands in the first.
swap_char : String → String → Char → Char
swap_char String.[] t c = c
swap_char (String.◌∷◌ u us) String.[] c = c
swap_char (String.◌∷◌ u us) (String.◌∷◌ l ls) c = if code u == code c then l else swap_char us ls c

unfoldable pub lower : String → String
unfolding swap_char
lower String.[] = String.[]
lower (String.◌∷◌ c s) =
    String.◌∷◌ (swap_char "ABCDEFGHIJKLMNOPQRSTUVWXYZ" "abcdefghijklmnopqrstuvwxyz" c) (lower s)

lower_test : lower "AppNexus33x" ≡ "appnexus33x"
unfolding lower
lower_test = refl

-- `a + b` on texts, by clauses, so that it computes under a proof.
abbrev pub concat : String → String → String
concat String.[] t = t
concat (String.◌∷◌ c s) t = String.◌∷◌ c (concat s t)

unfoldable pub starts_with : String → String → Bool
starts_with s String.[] = true
starts_with String.[] (String.◌∷◌ p ps) = false
starts_with (String.◌∷◌ c s) (String.◌∷◌ p ps) = code c == code p && starts_with s ps

-- `p in s`
unfoldable pub has_part : String → String → Bool
has_part String.[] p = starts_with String.[] p
has_part (String.◌∷◌ c s) p = starts_with (String.◌∷◌ c s) p || has_part s p

-- `s.count(c)`, for the character with this code.
unfoldable pub count_char : ℕ → String → ℕ
count_char n String.[] = 0
count_char n (String.◌∷◌ c s) = if code c == n then suc (count_char n s) else count_char n s

abbrev pub is_empty : String → Bool
is_empty String.[] = true
is_empty (String.◌∷◌ c s) = false

-- The text after a beginning.
unfoldable pub without_prefix : String → String → Option String
without_prefix s String.[] = some s
without_prefix String.[] (String.◌∷◌ p ps) = none
without_prefix (String.◌∷◌ c s) (String.◌∷◌ p ps) =
    let rest = without_prefix s ps in if code c == code p then rest else none

unfoldable pub upper : String → String
unfolding swap_char
upper String.[] = String.[]
upper (String.◌∷◌ c s) =
    String.◌∷◌ (swap_char "abcdefghijklmnopqrstuvwxyz" "ABCDEFGHIJKLMNOPQRSTUVWXYZ" c) (upper s)

-- `s.split(sep)[0]`
unfoldable pub before : String → String → String
before sep String.[] = ""
before sep (String.◌∷◌ c s) =
    if starts_with (String.◌∷◌ c s) sep then "" else String.◌∷◌ c (before sep s)

-- What follows the first `sep`, where there is one.
unfoldable pub after : String → String → Option String
after sep String.[] = without_prefix String.[] sep
after sep (String.◌∷◌ c s) =
    let rest = after sep s in
    elim (without_prefix (String.◌∷◌ c s) sep) [ some t ↦ some t | none ↦ rest ]

-- `s.endswith(c)`, for the character with this code.
unfoldable pub ends_with : ℕ → String → Bool
ends_with n String.[] = false
ends_with n (String.◌∷◌ c s) = if is_empty s then code c == n else ends_with n s

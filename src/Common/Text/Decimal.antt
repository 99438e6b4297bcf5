-- ===== src/Common/Text/Decimal.antt =====
-- Numbers in decimal.
use Prim.Native.Nat.{ℕ, zero, suc, ◌/◌, ◌%◌}
use Prim.Native.String.{String}
use mathlib.Core.Bool.{true, false}
use thenexusengine.Common.Tests.{ltb}
use thenexusengine.Common.Text.{concat}

-- `str(n)`: the digits in front of a text, with fuel for the divisions.
abbrev pub digit_text : ℕ → String
digit_text zero = "0"
digit_text (suc zero) = "1"
digit_text (suc (suc zero)) = "2"
digit_text (suc (suc (suc zero))) = "3"
digit_text (suc (suc (suc (suc zero)))) = "4"
digit_text (suc (suc (suc (suc (suc zero))))) = "5"
digit_text (suc (suc (suc (suc (suc (suc zero)))))) = "6"
digit_text (suc (suc (suc (suc (suc (suc (suc zero))))))) = "7"
digit_text (suc (suc (suc (suc (suc (suc (suc (suc zero)))))))) = "8"
digit_text n = "9"

unfoldable pub show_onto : ℕ → ℕ → String → String
show_onto zero n rest = rest
show_onto (suc fuel) n rest = elim (ltb n 10) [
  | true ↦ concat (digit_text n) rest
  | false ↦ show_onto fuel (n / 10) (concat (digit_text (n % 10)) rest)
]

unfoldable pub show : ℕ → String
show n = show_onto (suc n) n ""

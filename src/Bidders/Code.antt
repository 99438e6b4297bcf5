-- ===== src/Bidders/Code.antt =====
-- src/idr/bidders/models.py and manager.py: `_normalize_code`, `_extract_family` and
-- `_extract_instance_number`, and the code of a new instance.
pub mod Normal
pub mod Instance
use thenexusengine.Common.{
  ◌≡◌, refl, ℕ, zero, suc, ◌+◌, ◌-◌, ◌*◌, ◌/◌, ◌%◌, String, Bool, true, false, ◌&&◌, ◌||◌, not,
  Option, none, some, List, [], ◌∷◌, ltb, leb, if◌then◌else◌, ◌==◌, string_eq, nat_eq,
}
use Prim.Native.Char.{Char, code}
use thenexusengine.Common.Text.{lower, concat, is_empty, count_char}
use thenexusengine.Common.Text.Decimal.{digit_text, show_onto, show}

abbrev pub is_hyphen : Char → Bool
is_hyphen c = code c == b'-'

-- `replace(" ", "-").replace("_", "-")`
unfoldable pub hyphens : String → String
hyphens String.[] = ""
hyphens (String.◌∷◌ c s) =
    if code c == b' ' || code c == b'_' then concat "-" (hyphens s) else String.◌∷◌ c (hyphens s)

-- A character of `[a-z0-9-]`.
abbrev pub is_digit : Char → Bool
is_digit c = leb b'0' (code c) && leb (code c) b'9'

abbrev pub is_allowed : Char → Bool
is_allowed c = (leb b'a' (code c) && leb (code c) b'z') || (is_digit c || is_hyphen c)

-- `re.sub(r"[^a-z0-9-]", "", code)`
unfoldable pub keep_allowed : String → String
keep_allowed String.[] = ""
keep_allowed (String.◌∷◌ c s) =
    let rest = keep_allowed s in if is_allowed c then String.◌∷◌ c rest else rest

abbrev pub starts_hyphen : String → Bool
starts_hyphen String.[] = false
starts_hyphen (String.◌∷◌ c s) = is_hyphen c

-- `re.sub(r"-+", "-", code)`: of a run of hyphens the last stays.
unfoldable pub collapse : String → String
collapse String.[] = ""
collapse (String.◌∷◌ c s) =
    let rest = collapse s in if is_hyphen c && starts_hyphen s then rest else String.◌∷◌ c rest

-- `strip("-")`, from the left and from the right.
unfoldable pub strip_left : String → String
strip_left String.[] = ""
strip_left (String.◌∷◌ c s) =
    let rest = strip_left s in if is_hyphen c then rest else String.◌∷◌ c s

unfoldable pub strip_right : String → String
strip_right String.[] = ""
strip_right (String.◌∷◌ c s) =
    let rest = strip_right s in if is_hyphen c && is_empty rest then "" else String.◌∷◌ c rest

unfoldable pub normalize_code : String → String
normalize_code s = strip_right (strip_left (collapse (keep_allowed (hyphens (lower s)))))

-- The text before the last hyphen and the text after it.
unfoldable pub split_last_hyphen : String → Option (String × String)
split_last_hyphen String.[] = none
split_last_hyphen (String.◌∷◌ c s) = elim (split_last_hyphen s) [
  | some (p, r) ↦ some (String.◌∷◌ c p, r)
  | none ↦ if is_hyphen c then some ("", s) else none
]

-- Where the decimal digits of Unicode 14 begin, each with its ten digits in a row.
abbrev pub digit_zeros : List ℕ
digit_zeros =
    48
    ∷ (1632
        ∷ (1776
            ∷ (1984
                ∷ (2406
                    ∷ (2534
                        ∷ (2662
                            ∷ (2790
                                ∷ (2918
                                    ∷ (3046
                                        ∷ (3174
                                            ∷ (3302
                                                ∷ (3430
                                                    ∷ (3558
                                                        ∷ (3664
                                                            ∷ (3792
                                                            ∷ (3872
                                                            ∷ (4160
                                                            ∷ (4240
                                                            ∷ (6112
                                                            ∷ (6160
                                                            ∷ (6470
                                                            ∷ (6608
                                                            ∷ (6784
                                                            ∷ (6800
                                                            ∷ (6992
                                                            ∷ (7088
                                                            ∷ (7232
                                                            ∷ (7248
                                                            ∷ (42528
                                                            ∷ (43216
                                                            ∷ (43264
                                                            ∷ (43472
                                                            ∷ (43504
                                                            ∷ (43600
                                                            ∷ (44016
                                                            ∷ (65296
                                                            ∷ (66720
                                                            ∷ (68912
                                                            ∷ (69734
                                                            ∷ (69872
                                                            ∷ (69942
                                                            ∷ (70096
                                                            ∷ (70384
                                                            ∷ (70736
                                                            ∷ (70864
                                                            ∷ (71248
                                                            ∷ (71360
                                                            ∷ (71472
                                                            ∷ (71904
                                                            ∷ (72016
                                                            ∷ (72784
                                                            ∷ (73040
                                                            ∷ (73120
                                                            ∷ (92768
                                                            ∷ (92864
                                                            ∷ (93008
                                                            ∷ (120782
                                                            ∷ (120792
                                                            ∷ (120802
                                                            ∷ (120812
                                                            ∷ (120822
                                                            ∷ (123200
                                                            ∷ (123632 ∷ (125264 ∷ (130032 ∷ []))))))
                                                            ))))))))))))))))))))))))))))))))))))))))
                                                            )))))))))))))))))))

unfoldable pub digit_from : List ℕ → ℕ → Option ℕ
digit_from [] n = none
digit_from (z ∷ zeros) n =
    let rest = digit_from zeros n in if leb z n && ltb n (z + 10) then some (n - z) else rest

-- The value of a character of `\d`.
abbrev pub digit_of : Char → Option ℕ
digit_of c = digit_from digit_zeros (code c)

-- `int` of a text of digits, from a value on; `none` where another character stands. That `int` refuses
-- more than 4300 digits is left out.
unfoldable pub digits_value : String → ℕ → Option ℕ
digits_value String.[] value = some value
digits_value (String.◌∷◌ c s) value = elim (digit_of c) [
  | none ↦ none
  | some d ↦ digits_value s (value * 10 + d)
]

abbrev pub newline : ℕ
newline = 10

-- The text without a newline at its end, before which `$` matches too.
unfoldable pub before_newline : String → String
before_newline String.[] = String.[]
before_newline (String.◌∷◌ c s) =
    let rest = before_newline s in
    if code c == newline && is_empty s then String.[] else String.◌∷◌ c rest

-- `re.match(r"^(.+)-(\d+)$", code)`: the family, in which no newline stands, and the number.
unfoldable pub instance_match : String → Option (String × ℕ)
instance_match s = elim (split_last_hyphen (before_newline s)) [
  | none ↦ none
  | some (family, digits) ↦
      if is_empty family || (is_empty digits || not (count_char newline family == 0))
      then none
      else elim (digits_value digits 0) [ none ↦ none | some n ↦ some (family, n) ]
]

unfoldable pub extract_family : String → String
extract_family s = elim (instance_match s) [ none ↦ s | some (family, n) ↦ family ]

unfoldable pub extract_instance_number : String → ℕ
extract_instance_number s = elim (instance_match s) [ none ↦ 1 | some (family, n) ↦ n ]

-- `f"{bidder_family}-{n}"`
unfoldable pub instance_code : String → ℕ → String
instance_code family n = concat family (concat "-" (show n))

code_tests :
    (normalize_code "My  Bidder__#1-" ≡ "my-bidder-1")
    × (extract_family "a-b-12" ≡ "a-b")
    × (extract_instance_number "a-b-12" ≡ 12)
    × (extract_family "-7" ≡ "-7")
    × (instance_code "rubicon" 103 ≡ "rubicon-103")
    × (instance_match "a\nb-2" ≡ none)
    × (instance_match "ab-2\n" ≡ some ("ab", 2))
    × (instance_match "ab-३" ≡ some ("ab", 3))
unfolding normalize_code hyphens keep_allowed collapse strip_left strip_right lower extract_family
    extract_instance_number instance_match split_last_hyphen digits_value instance_code show
    show_onto before_newline count_char digit_from
code_tests = (refl, refl, refl, refl, refl, refl, refl, refl)

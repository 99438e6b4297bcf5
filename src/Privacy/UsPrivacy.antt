-- ===== src/Privacy/UsPrivacy.antt =====
-- src/idr/privacy/consent_models.py, `USPrivacy`. A text is the list of its characters, and the
-- version digit is read for the ASCII digits.
pub mod Laws
use Prim.Native.Char.{Char, code}
use Prim.Native.String.{String}
use thenexusengine.Common.{
  ℕ, ◌-◌, ◌≡◌, refl, Bool, true, false, ◌&&◌, Option, none, some, if◌then◌else◌, leb, ◌==◌, nat_eq,
}

pub record UsPrivacy : Type 0 where
  pub raw_string : String
  pub version : ℕ
  pub explicit_notice : Option Bool
  pub opt_out_sale : Option Bool
  pub lspa_covered : Option Bool

abbrev unparsed : String → UsPrivacy
unparsed raw = record {
  raw_string = raw;
  version = 1;
  explicit_notice = none;
  opt_out_sale = none;
  lspa_covered = none;
}

unfoldable pub parse_char : Char → Option Bool
parse_char c = if code c == b'Y' then some true else if code c == b'N' then some false else none

-- `int(c)`, and 1 where it raises `ValueError`.
parse_version : Char → ℕ
parse_version c = if leb b'0' (code c) && leb (code c) b'9' then code c - b'0' else 1

-- Every text of another length than four leaves the defaults.
unfoldable pub parse : String → UsPrivacy
unfolding parse_version
parse (String.◌∷◌ a (String.◌∷◌ b (String.◌∷◌ c (String.◌∷◌ d String.[])))) = record {
  raw_string = String.◌∷◌ a (String.◌∷◌ b (String.◌∷◌ c (String.◌∷◌ d String.[])));
  version = parse_version a;
  explicit_notice = parse_char b;
  opt_out_sale = parse_char c;
  lspa_covered = parse_char d;
}
parse s = unparsed s

unfoldable pub has_opted_out : UsPrivacy → Bool
has_opted_out u = elim u.opt_out_sale [ some true ↦ true | _ ↦ false ]

unfoldable pub can_sell_data : UsPrivacy → Bool
can_sell_data u = elim u.opt_out_sale [ some true ↦ false | _ ↦ true ]

unfoldable pub notice_given : UsPrivacy → Bool
notice_given u = elim u.explicit_notice [ some true ↦ true | _ ↦ false ]

parse_test : (has_opted_out (parse "1YYN") ≡ true) × (can_sell_data (parse "1---") ≡ true)
unfolding parse has_opted_out can_sell_data parse_char
parse_test = (refl, refl)

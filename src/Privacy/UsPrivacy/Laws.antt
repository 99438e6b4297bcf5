-- ===== src/Privacy/UsPrivacy/Laws.antt =====
-- The opt-out of a US Privacy text.
use Prim.Native.Char.{Char, code}
use Prim.Native.String.{String}
use thenexusengine.Common.{◌≡◌, refl, ◌↔◌, ◌∙◌, ap, true, arith, nat_eq, same_nat_iff}
use thenexusengine.Privacy.UsPrivacy.{parse, parse_char, has_opted_out}

-- The text has four characters, and the third is a Y.
pub record OptsOut (s : String) : Type 0 where
  pub version : Char
  pub notice : Char
  pub sale : Char
  pub covered : Char
  pub text :
      s ≡ String.◌∷◌ version (String.◌∷◌ notice (String.◌∷◌ sale (String.◌∷◌ covered String.[])))
  pub says_yes : code sale ≡ b'Y'

opted_out_sound : (s : String) → has_opted_out (parse s) ≡ true → OptsOut s
unfolding has_opted_out parse parse_char
opted_out_sound (String.◌∷◌ a (String.◌∷◌ b (String.◌∷◌ c (String.◌∷◌ d String.[])))) h = record {
  version = a;
  notice = b;
  sale = c;
  covered = d;
  text = refl;
  says_yes = ground (arith, same_nat_iff (code c) b'Y');
}
opted_out_sound _ h = absurd (cc)

opted_out_complete : (s : String) → OptsOut s → has_opted_out (parse s) ≡ true
unfolding has_opted_out parse parse_char
opted_out_complete s o =
    let yes_said = o.says_yes in ap (λ x. has_opted_out (parse x)) o.text ∙ ground arith

-- The user has opted out of sale exactly when the text has four characters and the third is a Y.
pub has_opted_out-parse : (s : String) → (has_opted_out (parse s) ≡ true) ↔ OptsOut s
has_opted_out-parse s = (opted_out_sound s, opted_out_complete s)

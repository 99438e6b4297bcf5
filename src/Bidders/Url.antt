-- ===== src/Bidders/Url.antt =====
-- src/idr/bidders/manager.py: `_validate_url`, whose pattern is read from the left: a label, a dot, a
-- letter or digit, and characters of the last class up to the end or a last line break.
use thenexusengine.Common.{
  ◌≡◌, refl, String, Bool, true, false, ◌&&◌, ◌||◌, none, some, leb, ltb, if◌then◌else◌, ◌==◌,
  nat_eq,
}
use Prim.Native.Char.{Char, code}
use thenexusengine.Common.Text.{count_char, without_prefix}

abbrev is_alphanumeric : Char → Bool
is_alphanumeric c =
    (leb b'a' (code c) && leb (code c) b'z')
    || ((leb b'A' (code c) && leb (code c) b'Z') || (leb b'0' (code c) && leb (code c) b'9'))

-- A character of `[/a-zA-Z0-9._~:/?#\[\]@!$&'()*+,;=%-]`.
abbrev is_url_char : Char → Bool
is_url_char c = is_alphanumeric c || ltb 0 (count_char (code c) "/._~:?#[]@!$&'()*+,;=%-")

unfoldable pub url_rest : String → Bool
unfolding count_char
url_rest String.[] = true
url_rest (String.◌∷◌ c String.[]) = is_url_char c || code c == 10
url_rest (String.◌∷◌ c (String.◌∷◌ d s)) = is_url_char c && url_rest (String.◌∷◌ d s)

-- After the dot of the host.
unfoldable pub after_dot : String → Bool
unfolding url_rest
after_dot String.[] = false
after_dot (String.◌∷◌ c s) = is_alphanumeric c && url_rest s

-- In the first label.
unfoldable pub in_label : String → Bool
unfolding after_dot
in_label String.[] = false
in_label (String.◌∷◌ c s) =
    let rest = in_label s in
    if is_alphanumeric c || code c == b'-' then rest else code c == b'.' && after_dot s

unfoldable pub host : String → Bool
unfolding in_label
host String.[] = false
host (String.◌∷◌ c s) = is_alphanumeric c && in_label s

unfoldable pub validate_url : String → Bool
unfolding host
validate_url url = elim (without_prefix url "https://") [
  | some s ↦ host s
  | none ↦ elim (without_prefix url "http://") [ some s ↦ host s | none ↦ false ]
]

url_tests :
    (validate_url "https://bid.example.com/ortb?x=1" ≡ true)
    × (validate_url "http://localhost:8000" ≡ false)
    × (validate_url "ftp://a.b" ≡ false)
    × (validate_url "https://-a.b" ≡ false)
unfolding validate_url without_prefix host in_label after_dot url_rest count_char
url_tests = (refl, refl, refl, refl)

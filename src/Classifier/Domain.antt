-- ===== src/Classifier/Domain.antt =====
-- The domain that src/idr/classifier/request_classifier.py takes from the URL of a page.
use thenexusengine.Common.{
  ◌≡◌, refl, ap, String, Bool, true, false, ◌||◌, some, ◌==◌, nat_eq, arith, Bool-cases, inl, inr,
}
use Prim.Native.Char.{Char, code}
use thenexusengine.Common.Text.{concat, before, after, count_char, starts_with, without_prefix}
use thenexusengine.Common.Text.Parts.{concat-nil}
use thenexusengine.Classifier.Extract.{extract_domain_from_url}

after_first :
    (a t : String) → count_char b':' a ≡ 0 → after "://" (concat a (concat "://" t)) ≡ some t
unfolding after without_prefix count_char
after_first String.[] t h = refl
after_first (String.◌∷◌ c a) t h = ground (arith, after_first a t)

-- A separator that begins with a character which a text does not have is not in the text.
before_free :
    (c : Char) (sep p t : String)
    → count_char (code c) p ≡ 0
    → before (String.◌∷◌ c sep) (concat p t) ≡ concat p (before (String.◌∷◌ c sep) t)
unfolding before starts_with count_char
before_free c sep String.[] t h = refl
before_free c sep (String.◌∷◌ d p) t h = ground (arith, before_free c sep p t)

-- The text is empty or begins with a slash or a colon.
abbrev ends_host : String → Bool
ends_host String.[] = true
ends_host (String.◌∷◌ c s) = code c == b'/' || code c == b':'

before_slash : (c : Char) (s : String) → (code c == b'/') ≡ true → before "/" (String.◌∷◌ c s) ≡ ""
unfolding before starts_with
before_slash c s h = rw (h, before) refl

before_colon :
    (c : Char) (s : String)
    → (code c == b'/') ≡ false
    → (code c == b':') ≡ true
    → before ":" (before "/" (String.◌∷◌ c s)) ≡ ""
unfolding before starts_with
before_colon c s other h = rw (other, h, before) refl

no_host : (rest : String) → ends_host rest ≡ true → before ":" (before "/" (before "://" rest)) ≡ ""
unfolding before
no_host String.[] h = refl
no_host (String.◌∷◌ c s) h = elim (Bool-cases (starts_with (String.◌∷◌ c s) "://")) [
  | inl stops ↦ rw (stops, before) refl
  | inr goes ↦ elim (Bool-cases (code c == b'/')) [
    | inl slash ↦ rw (goes, before) (ap (before ":") (before_slash c (before "://" s) slash))
    | inr other ↦ rw (goes, before) (before_colon c (before "://" s) other (ground arith))
  ]
]

-- From a URL of a scheme, `://`, a host and the rest, where the scheme has no colon, the host no colon and
-- no slash, and the rest is empty or begins with a slash or a colon, the host is extracted.
pub extract_domain_from_url_host :
    (scheme host rest : String)
    → count_char b':' scheme ≡ 0
    → count_char b':' host ≡ 0
    → count_char b'/' host ≡ 0
    → ends_host rest ≡ true
    → extract_domain_from_url (concat scheme (concat "://" (concat host rest))) ≡ host
unfolding extract_domain_from_url before
extract_domain_from_url_host scheme host rest s c d r =
    rw
      (
        after_first scheme (concat host rest) s,
        before_free _ "//" host rest c,
        before_free _ "" host (before "://" rest) d,
        before_free _ "" host (before "/" (before "://" rest)) c,
        no_host rest r,
      )
      (concat-nil host)

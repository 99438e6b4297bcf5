-- ===== src/Bidders/Code/Normal.antt =====
-- What a normalized code looks like, and that a normal code is left as it is.
use thenexusengine.Common.{
  ◌≡◌, refl, String, Bool, true, false, ◌&&◌, ◌||◌, arith, if◌then◌else◌, nat_eq,
}
use thenexusengine.Common.Text.{lower, is_empty}
use thenexusengine.Common.Text.Parts.{has_upper, lower_kept}
use thenexusengine.Bidders.Code.{
  is_hyphen, hyphens, is_allowed, keep_allowed, starts_hyphen, collapse, strip_left, strip_right,
  normalize_code,
}

unfoldable pub all_allowed : String → Bool
all_allowed String.[] = true
all_allowed (String.◌∷◌ c s) = is_allowed c && all_allowed s

-- Two hyphens side by side.
unfoldable pub has_double : String → Bool
has_double String.[] = false
has_double (String.◌∷◌ c s) = (is_hyphen c && starts_hyphen s) || has_double s

unfoldable pub ends_hyphen : String → Bool
ends_hyphen String.[] = false
ends_hyphen (String.◌∷◌ c s) = if is_empty s then is_hyphen c else ends_hyphen s

-- Lower-case letters, digits and single hyphens between them.
pub record IsNormal (s : String) : Type 0 where
  pub allowed : all_allowed s ≡ true
  pub single : has_double s ≡ false
  pub begins : starts_hyphen s ≡ false
  pub ends : ends_hyphen s ≡ false

keep_allowed-allowed : (s : String) → all_allowed (keep_allowed s) ≡ true
unfolding keep_allowed all_allowed
keep_allowed-allowed String.[] = refl
keep_allowed-allowed (String.◌∷◌ c s) = ground (arith, keep_allowed-allowed s)

collapse-allowed : (s : String) → all_allowed s ≡ true → all_allowed (collapse s) ≡ true
unfolding collapse all_allowed
collapse-allowed String.[] h = refl
collapse-allowed (String.◌∷◌ c s) h = ground (arith, collapse-allowed s)

starts_hyphen-collapse : (s : String) → starts_hyphen (collapse s) ≡ starts_hyphen s
unfolding collapse
starts_hyphen-collapse String.[] = refl
starts_hyphen-collapse (String.◌∷◌ c s) = ground (arith, starts_hyphen-collapse s)

collapse-single : (s : String) → has_double (collapse s) ≡ false
unfolding collapse has_double
collapse-single String.[] = refl
collapse-single (String.◌∷◌ c s) = ground (arith, collapse-single s, starts_hyphen-collapse s)

strip_left-allowed : (s : String) → all_allowed s ≡ true → all_allowed (strip_left s) ≡ true
unfolding strip_left all_allowed
strip_left-allowed String.[] h = refl
strip_left-allowed (String.◌∷◌ c s) h = ground (arith, strip_left-allowed s)

strip_left-single : (s : String) → has_double s ≡ false → has_double (strip_left s) ≡ false
unfolding strip_left has_double
strip_left-single String.[] h = refl
strip_left-single (String.◌∷◌ c s) h = ground (arith, strip_left-single s)

strip_left-begins : (s : String) → starts_hyphen (strip_left s) ≡ false
unfolding strip_left
strip_left-begins String.[] = refl
strip_left-begins (String.◌∷◌ c s) = ground (arith, strip_left-begins s)

strip_right-allowed : (s : String) → all_allowed s ≡ true → all_allowed (strip_right s) ≡ true
unfolding strip_right all_allowed
strip_right-allowed String.[] h = refl
strip_right-allowed (String.◌∷◌ c s) h = ground (arith, strip_right-allowed s)

strip_right-begins : (s : String) → starts_hyphen s ≡ false → starts_hyphen (strip_right s) ≡ false
unfolding strip_right
strip_right-begins String.[] h = refl
strip_right-begins (String.◌∷◌ c s) h = ground arith

strip_right-single : (s : String) → has_double s ≡ false → has_double (strip_right s) ≡ false
unfolding strip_right has_double
strip_right-single String.[] h = refl
strip_right-single (String.◌∷◌ c s) h = ground (arith, strip_right-single s, strip_right-begins s)

strip_right-ends : (s : String) → ends_hyphen (strip_right s) ≡ false
unfolding strip_right ends_hyphen
strip_right-ends String.[] = refl
strip_right-ends (String.◌∷◌ c s) = ground (arith, strip_right-ends s)

-- What `_normalize_code` gives has lower-case letters, digits and single hyphens between them.
pub normalize_code-IsNormal : (s : String) → IsNormal (normalize_code s)
unfolding normalize_code
normalize_code-IsNormal s =
    let kept = keep_allowed (hyphens (lower s)) in
    let left = strip_left (collapse kept) in
    record {
      allowed = strip_right-allowed left (
          strip_left-allowed (collapse kept)
            (collapse-allowed kept (keep_allowed-allowed (hyphens (lower s)))));
      single = strip_right-single left (strip_left-single (collapse kept) (collapse-single kept));
      begins = strip_right-begins left (strip_left-begins (collapse kept));
      ends = strip_right-ends left;
    }

no_upper_allowed : (s : String) → all_allowed s ≡ true → has_upper s ≡ false
unfolding all_allowed has_upper
no_upper_allowed String.[] h = refl
no_upper_allowed (String.◌∷◌ c s) h = ground (arith, no_upper_allowed s)

hyphens_kept : (s : String) → all_allowed s ≡ true → hyphens s ≡ s
unfolding all_allowed hyphens
hyphens_kept String.[] h = refl
hyphens_kept (String.◌∷◌ c s) h = ground (arith, hyphens_kept s)

keep_allowed_kept : (s : String) → all_allowed s ≡ true → keep_allowed s ≡ s
unfolding all_allowed keep_allowed
keep_allowed_kept String.[] h = refl
keep_allowed_kept (String.◌∷◌ c s) h = ground (arith, keep_allowed_kept s)

collapse_kept : (s : String) → has_double s ≡ false → collapse s ≡ s
unfolding has_double collapse
collapse_kept String.[] h = refl
collapse_kept (String.◌∷◌ c s) h = ground (arith, collapse_kept s)

strip_left_kept : (s : String) → starts_hyphen s ≡ false → strip_left s ≡ s
unfolding strip_left
strip_left_kept String.[] h = refl
strip_left_kept (String.◌∷◌ c s) h = ground arith

strip_right_kept : (s : String) → ends_hyphen s ≡ false → strip_right s ≡ s
unfolding strip_right ends_hyphen
strip_right_kept String.[] h = refl
strip_right_kept (String.◌∷◌ c String.[]) h = ground arith
strip_right_kept (String.◌∷◌ c (String.◌∷◌ d s)) h =
    let rest = strip_right_kept (String.◌∷◌ d s) h in ground arith

-- A normal code is left as it is.
pub normalize_code_kept : (s : String) → IsNormal s → normalize_code s ≡ s
unfolding normalize_code
normalize_code_kept s n =
    rw
      (
        lower_kept s (no_upper_allowed s n.allowed),
        hyphens_kept s n.allowed,
        keep_allowed_kept s n.allowed,
        collapse_kept s n.single,
        strip_left_kept s n.begins,
      )
      (strip_right_kept s n.ends)

-- What `_normalize_code` gives is normal, and normalizing it again changes nothing.
pub normalize_code-normalizes :
    (s : String)
    → IsNormal (normalize_code s) × (normalize_code (normalize_code s) ≡ normalize_code s)
normalize_code-normalizes s =
    (normalize_code-IsNormal s, normalize_code_kept (normalize_code s) (normalize_code-IsNormal s))

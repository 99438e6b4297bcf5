-- ===== src/Resolver/Coherent.antt =====
-- The keys of the cache, and that the cache answers as the configurations do.
use thenexusengine.Common.{
  ℕ, ◌≡◌, refl, sym, ap, ◌∙◌, inl, inr, String, true, some, arith, Bool-cases, Option-cases, ◌==◌,
  string_eq,
}
use Prim.Native.Char.{code}
use thenexusengine.Common.Members.{lookup, eq_of_beq}
use thenexusengine.Common.Dicts.{lookup-dict_set}
use thenexusengine.Common.Text.{concat, has_part, count_char}
use thenexusengine.Common.Text.Parts.{
  has_part-concat, count_char-concat, first_separator, concat-nil,
}
use thenexusengine.Resolver.Resolve.{Hierarchy}
use thenexusengine.Resolver.Resolved.{
  Query, for_publisher, for_site, for_ad_unit, Resolved, cache_key, fresh, walk,
}
use thenexusengine.Resolver.Cache.{ConfigResolver, resolve_for}

abbrev IsFree : String → Type 0
IsFree s = count_char b':' s ≡ 0

-- The identifiers that stand before or after a separator of the key are without it.
abbrev pub IsPlain : Query → Type 0
IsPlain (for_publisher p) = Unit
IsPlain (for_site p s) = IsFree p × IsFree s
IsPlain (for_ad_unit p s u) = IsFree p × IsFree s × IsFree u

-- The code of the first character, and the text after the first.
abbrev first_code : String → ℕ
first_code String.[] = 0
first_code (String.◌∷◌ c s) = code c

abbrev tail : String → String
tail String.[] = String.[]
tail (String.◌∷◌ c s) = s

abbrev tail5 : String → String
tail5 s = tail (tail (tail (tail (tail s))))

key-publisher : (p q : String) → cache_key (for_publisher p) ≡ cache_key (for_publisher q) → p ≡ q
unfolding cache_key
key-publisher p q e = ap (λ s. tail5 (tail5 s)) e

key-site :
    (p s q t : String)
    → IsFree p
    → IsFree s
    → cache_key (for_site p s) ≡ cache_key (for_site q t)
    → (p ≡ q) × (s ≡ t)
unfolding cache_key
key-site p s q t fp fs e = first_separator _ p s q t fp (omega (arith, fs)) (ap tail5 e)

key-ad_unit :
    (p s u q t v : String)
    → IsFree p
    → IsFree s
    → IsFree u
    → cache_key (for_ad_unit p s u) ≡ cache_key (for_ad_unit q t v)
    → (p ≡ q) × (s ≡ t) × (u ≡ v)
unfolding cache_key count_char
key-ad_unit p s u q t v fp fs fu e =
    let left = count_char-concat b':' s (concat ":" u) in
    let right = count_char-concat b':' t (concat ":" v) in
    let (same_p, rest) =
      first_separator _ p (concat s (concat ":" u)) q (concat t (concat ":" v)) fp
        (omega (arith, left, right, fs, fu)) (ap (λ x. tail5 (tail (tail (tail x)))) e) in
    let (same_s, same_u) = first_separator _ s u t v fs (omega (arith, fu)) rest in
    (same_p, same_s, same_u)

-- A plain query shares its key with no other query.
cache_key_injective : (a b : Query) → IsPlain a → cache_key a ≡ cache_key b → a ≡ b
unfolding cache_key
cache_key_injective (for_publisher p) (for_publisher q) h e = ap for_publisher (key-publisher p q e)
cache_key_injective (for_site p s) (for_site q t) (fp, fs) e =
    let (x, y) = key-site p s q t fp fs e in cc
cache_key_injective (for_ad_unit p s u) (for_ad_unit q t v) (fp, fs, fu) e =
    let (x, y, z) = key-ad_unit p s u q t v fp fs fu e in cc
cache_key_injective (for_publisher p) (for_site q t) h e = absurd (omega (arith, ap first_code e))
cache_key_injective (for_publisher p) (for_ad_unit q t v) h e =
    absurd (omega (arith, ap first_code e))
cache_key_injective (for_site p s) (for_publisher q) h e = absurd (omega (arith, ap first_code e))
cache_key_injective (for_site p s) (for_ad_unit q t v) h e = absurd (omega (arith, ap first_code e))
cache_key_injective (for_ad_unit p s u) (for_publisher q) h e =
    absurd (omega (arith, ap first_code e))
cache_key_injective (for_ad_unit p s u) (for_site q t) h e = absurd (omega (arith, ap first_code e))

-- The cache of a resolver answers each plain query as the configurations do.
unfoldable pub IsCoherent : ConfigResolver → Type 0
IsCoherent r =
    (q : Query)
    → IsPlain q
    → (v : Resolved) → lookup r.resolved_cache (cache_key q) ≡ some v
    → v ≡ fresh r.configs q

pub resolve_for-fresh :
    (r : ConfigResolver) (q : Query)
    → IsCoherent r
    → IsPlain q
    → (resolve_for q r).0 ≡ fresh r.configs q
unfolding resolve_for IsCoherent
resolve_for-fresh r q h plain = elim (Option-cases (lookup r.resolved_cache (cache_key q))) [
  | inl missed ↦ rw (missed, resolve_for) refl
  | inr (v, hit) ↦ rw (hit, resolve_for) (h q plain v hit)
]

pub resolve_for-IsCoherent :
    (r : ConfigResolver) (q : Query) → IsCoherent r → IsCoherent (resolve_for q r).1
unfolding resolve_for IsCoherent
resolve_for-IsCoherent r q h a plain v e =
    elim (Option-cases (lookup r.resolved_cache (cache_key q))) [
      | inr (w, hit) ↦ ground (arith, h a plain v)
      | inl missed ↦
          let read =
            lookup-dict_set r.resolved_cache (cache_key q) (fresh r.configs q) (cache_key a) in
          elim (Bool-cases (cache_key q == cache_key a)) [
            | inl same ↦
                let queries =
                  cache_key_injective a q plain
                    (sym (eq_of_beq (cache_key q) (cache_key a) same)) in
                ground (arith, ap (fresh r.configs) queries)
            | inr other ↦ ground (arith, h a plain v)
          ]
    ]

-- The entry of a publisher's query does not outlive the clearing for the publisher.
abbrev pub asked_publisher : Query → String
asked_publisher (for_publisher p) = p
asked_publisher (for_site p s) = p
asked_publisher (for_ad_unit p s u) = p

pub has_part-cache_key : (q : Query) → has_part (cache_key q) (asked_publisher q) ≡ true
unfolding cache_key
has_part-cache_key (for_publisher p) =
    ap (λ s. has_part (concat "publisher:" s) p) (sym (concat-nil p))
    ∙ has_part-concat "publisher:" p ""
has_part-cache_key (for_site p s) = has_part-concat "site:" p (concat ":" s)
has_part-cache_key (for_ad_unit p s u) =
    has_part-concat "ad_unit:" p (concat ":" (concat s (concat ":" u)))

-- Another publisher's configuration has no part in an answer.
pub fresh_same :
    (g h : Hierarchy) (q : Query)
    → g.global_config ≡ h.global_config
    → lookup g.publisher_configs (asked_publisher q)
      ≡ lookup h.publisher_configs (asked_publisher q)
    → fresh g q ≡ fresh h q
unfolding fresh walk
fresh_same g h (for_publisher p) global same = ground arith
fresh_same g h (for_site p s) global same = ground arith
fresh_same g h (for_ad_unit p s u) global same = ground arith

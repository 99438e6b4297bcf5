-- ===== src/Resolver/Prefixes.antt =====
-- The keys of src/idr/config/config_store.py behind a prefix.
use thenexusengine.Common.{
  ◌≡◌, refl, ap, ◌∙◌, String, false, List, [], ◌∷◌, ◌++◌, All, string_eq, nat_eq, arith,
}
use Prim.Native.Char.{Char}
use thenexusengine.Common.Text.{concat, starts_with, has_part}
use thenexusengine.Common.Text.Parts.{starts_with-concat}
use thenexusengine.Resolver.Store.{text_length, remove_from, ids_behind}

remove_from_absent : (part s : String) → has_part s part ≡ false → remove_from part 0 s ≡ s
unfolding remove_from has_part
remove_from_absent part String.[] h = refl
remove_from_absent part (String.◌∷◌ c s) h = ground (arith, remove_from_absent part s)

remove_from_skips :
    (part q s : String) → remove_from part (text_length q) (concat q s) ≡ remove_from part 0 s
unfolding remove_from text_length
remove_from_skips part String.[] s = refl
remove_from_skips part (String.◌∷◌ c q) s = remove_from_skips part q s

-- What stands behind a prefix, where the prefix does not stand in it again.
pub remove_from-concat :
    (c : Char) (part s : String)
    → has_part s (String.◌∷◌ c part) ≡ false
    → remove_from (String.◌∷◌ c part) 0 (concat (String.◌∷◌ c part) s) ≡ s
unfolding remove_from text_length
remove_from-concat c part s h =
    rw (starts_with-concat (String.◌∷◌ c part) s, remove_from)
      (ap (λ n. remove_from (String.◌∷◌ c part) n (concat part s)) (omega arith)
        ∙ remove_from_skips (String.◌∷◌ c part) part s
        ∙ remove_from_absent (String.◌∷◌ c part) s h)

pub ids_behind-append :
    {A : Type 0} (part : String) (xs ys : List (String × A))
    → ids_behind part (xs ++ ys) ≡ ids_behind part xs ++ ids_behind part ys
unfolding ids_behind
ids_behind-append part [] ys = refl
ids_behind-append part ((k, v) ∷ xs) ys = ground (arith, ids_behind-append part xs ys)

abbrev pub Without : {A : Type 0} → String → List (String × A) → Type 0
Without {A} part = All (λ (e : String × A). starts_with e.0 part ≡ false)

pub ids_behind-Without :
    {A : Type 0} (part : String) (xs : List (String × A))
    → Without part xs
    → ids_behind part xs ≡ []
unfolding ids_behind
ids_behind-Without part [] w = refl
ids_behind-Without part ((k, v) ∷ xs) (h, w) = ground (arith, ids_behind-Without part xs w)

-- ===== src/Scorer/LookupKey.antt =====
-- src/idr/models/lookup_key.py: the keys of the performance data, from the exact one to broader ones.
use thenexusengine.Common.{
  String, Bool, false, Option, none, some, List, [], ◌∷◌, ◌++◌, if◌then◌else◌, not,
}
use thenexusengine.Common.Text.{concat, is_empty}

pub record LookupKey : Type 0 where
  pub country : String
  pub device_type : String
  pub ad_format : String
  pub ad_size : Option String
  pub publisher_id : Option String

-- The truth of a text that may be None.
abbrev pub truthy_text : Option String → Bool
truthy_text none = false
truthy_text (some s) = not (is_empty s)

unfoldable pub get_fallback_keys : LookupKey → List LookupKey
get_fallback_keys self =
    self
    ∷ ((if truthy_text self.ad_size then record self { ad_size = none } ∷ [] else [])
        ++ (if truthy_text self.publisher_id
            then record self { publisher_id = none }
              ∷ (if truthy_text self.ad_size
                  then record self { ad_size = none; publisher_id = none } ∷ []
                  else [])
            else []))

-- `sep.join(parts)`
unfoldable pub join : String → List String → String
join sep [] = ""
join sep (p ∷ []) = p
join sep (p ∷ (q ∷ parts)) = concat p (concat sep (join sep (q ∷ parts)))

abbrev pub part_if : Option String → (String → String) → List String
part_if none f = []
part_if (some s) f = if is_empty s then [] else f s ∷ []

-- `str(key)`
unfoldable pub key_text : LookupKey → String
key_text self = join "/" (
    self.country
    ∷ (self.device_type
        ∷ (self.ad_format
            ∷ (part_if self.ad_size (λ s. s) ++ part_if self.publisher_id (λ p. concat "pub:" p)))))

unfoldable pub to_redis_key : LookupKey → String → String
to_redis_key self bidder_code =
    let publisher : String = elim self.publisher_id [
      | none ↦ "global"
      | some p ↦ if is_empty p then "global" else p
    ] in
    join ":" (
      concat "score:" publisher
      ∷ (self.country
          ∷ (self.device_type
              ∷ (self.ad_format ∷ (part_if self.ad_size (λ s. s) ++ bidder_code ∷ [])))))

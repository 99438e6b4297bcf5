-- ===== src/Bidders/Active.antt =====
-- What the registry of src/idr/bidders lists as active.
use thenexusengine.Common.{
  ℕ, ◌≡◌, refl, ap, ◌∙◌, inl, inr, ◌⊎◌, String, Bool, true, false, none, some, List, [], ◌∷◌, arith,
  Bool-cases, Option-cases, ◌==◌, string_eq, all, ◌&&◌, ◌||◌, map, leb, ◌≤◌,
}
use thenexusengine.Common.Members.{contains, eq_of_beq}
use thenexusengine.Keys.Hash.{Hash}
use thenexusengine.Bidders.Redis.{Set}
use thenexusengine.Bidders.Code.Normal.{normalize_code_kept}
use thenexusengine.Bidders.Model.{BidderConfig, post_init, is_enabled}
use thenexusengine.Common.Sorting.{insert_by, sort_by}
use thenexusengine.Bidders.Storage.{Store, get, enabled_of, get_active}
use thenexusengine.Bidders.Indexed.{IsIndexed, enabled_in}

abbrev pub codes : List BidderConfig → List String
codes = map (λ (c : BidderConfig). c.bidder_code)

-- Every priority is at most `n`.
abbrev below : ℕ → List BidderConfig → Bool
below n xs = all (λ c. leb c.priority n) xs

below-insert_by :
    (n : ℕ) (x : BidderConfig) (xs : List BidderConfig)
    → below n (insert_by (λ c. c.priority) x xs) ≡ (leb x.priority n && below n xs)
unfolding insert_by
below-insert_by n x [] = ground arith
below-insert_by n x (y ∷ xs) = ground (arith, below-insert_by n x xs)

below_le : (m n : ℕ) (xs : List BidderConfig) → n ≤ m → below n xs ≡ true → below m xs ≡ true
below_le m n [] h b = refl
below_le m n (x ∷ xs) h b = ground (arith, below_le m n xs)

-- No configuration has a lower priority than a later one.
unfoldable pub falls : List BidderConfig → Bool
falls [] = true
falls (x ∷ xs) = below x.priority xs && falls xs

falls-insert_by :
    (x : BidderConfig) (xs : List BidderConfig)
    → falls xs ≡ true
    → falls (insert_by (λ c. c.priority) x xs) ≡ true
unfolding insert_by falls
falls-insert_by x [] f = refl
falls-insert_by x (y ∷ xs) f = ground (
  arith,
  falls-insert_by x xs,
  below-insert_by y.priority x xs,
  below_le x.priority y.priority xs,
)

falls-sort_by : (xs : List BidderConfig) → falls (sort_by (λ c. c.priority) xs) ≡ true
unfolding sort_by falls
falls-sort_by [] = refl
falls-sort_by (x ∷ xs) = falls-insert_by x (sort_by (λ c. c.priority) xs) (falls-sort_by xs)

codes-insert_by :
    (key : BidderConfig → ℕ) (x : BidderConfig) (xs : List BidderConfig) (k : String)
    → contains (codes (insert_by key x xs)) k ≡ ((x.bidder_code == k) || contains (codes xs) k)
unfolding insert_by
codes-insert_by key x [] k = ground arith
codes-insert_by key x (y ∷ xs) k = ground (arith, codes-insert_by key x xs k)

codes-sort_by :
    (key : BidderConfig → ℕ) (xs : List BidderConfig) (k : String)
    → contains (codes (sort_by key xs)) k ≡ contains (codes xs) k
unfolding sort_by
codes-sort_by key [] k = refl
codes-sort_by key (x ∷ xs) k =
    ground (arith, codes-sort_by key xs k, codes-insert_by key x (sort_by key xs) k)

module _ {H Z I : Type 0} (hashes : Hash H BidderConfig)
    (hgetall : H → List (String × BidderConfig)) (sets : Set Z) (scores : Hash I ℕ) where
  get_stored :
      (now : String) (st : Store H Z I)
      → IsIndexed hashes sets scores st
      → (k : String)
      → ((get hashes hgetall sets scores now (some st) k ≡ none)
          × (enabled_in (hashes.hget st.bidders k) ≡ false))
        ⊎ ((c : BidderConfig) × (get hashes hgetall sets scores now (some st) k ≡ some c)
            × (c.bidder_code ≡ k)
            × (is_enabled c ≡ enabled_in (hashes.hget st.bidders k)))
  unfolding get is_enabled post_init
  get_stored now st h k = elim (Option-cases (hashes.hget st.bidders k)) [
    | inl missing ↦ inl (rw missing refl, rw missing refl)
    | inr (c, own) ↦
        let (code, normal) = h.coded k c own in
        inr
          (post_init now c, rw (own, get) refl, rw code (normalize_code_kept k normal), rw own refl)
  ]

  codes-enabled_of :
      (now : String) (st : Store H Z I)
      → IsIndexed hashes sets scores st
      → (ks : List String) (k : String)
      → contains (codes (enabled_of hashes hgetall sets scores now (some st) ks)) k
        ≡ (contains ks k && enabled_in (hashes.hget st.bidders k))
  unfolding enabled_of
  codes-enabled_of now st h [] k = refl
  codes-enabled_of now st h (j ∷ ks) k =
      let rest = codes-enabled_of now st h ks k in
      let moved = eq_of_beq j k in
      elim (get_stored now st h j) [
        | inl (missing, off) ↦ elim (Bool-cases (j == k)) [
          | inl same ↦
              let there = ap (λ i. enabled_in (hashes.hget st.bidders i)) (moved same) in
              ground arith
          | inr other ↦ ground arith
        ]
        | inr (c, own, code, on) ↦
            let name = ap (λ i. i == k) code in
            elim (Bool-cases (j == k)) [
              | inl same ↦
                  let there = ap (λ i. enabled_in (hashes.hget st.bidders i)) (moved same) in
                  ground arith
              | inr other ↦ ground arith
            ]
      ]

  -- In an indexed store `get_active` lists a bidder under its code exactly if its stored
  -- configuration is enabled, and it lists them by falling priority.
  pub get_active-exact :
      (now : String) (st : Store H Z I)
      → IsIndexed hashes sets scores st
      → falls (get_active hashes hgetall sets scores now (some st)) ≡ true
        × ((k : String)
            → contains (codes (get_active hashes hgetall sets scores now (some st))) k
              ≡ enabled_in (hashes.hget st.bidders k))
  unfolding get_active
  get_active-exact now st h =
      let listed = sets.smembers st.active in
      let found = enabled_of hashes hgetall sets scores now (some st) listed in
      (
        falls-sort_by found,
        λ k.
            let active = h.active_codes k in
            codes-sort_by (λ c. c.priority) found k
            ∙ codes-enabled_of now st h listed k
            ∙ ground arith,
      )

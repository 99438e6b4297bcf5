-- ===== src/Bidders/Fresh.antt =====
-- The code of a new instance is in use nowhere.
use thenexusengine.Common.{
  ℕ, ◌+◌, ◌≤◌, ◌≡◌, refl, ap, sym, subst, ◌∙◌, ◌⊎◌, inl, inr, String, true, false, none, some, List,
  [], ◌∷◌, ◌++◌, map, null, arith, ltb, Bool-cases, Option-cases, List-cases, if◌then◌else◌, ◌==◌,
  string_eq,
}
use thenexusengine.Common.Members.{
  contains, lookup, eq_of_beq, eq_self, contains-append, contains-filter,
}
use thenexusengine.Keys.Hash.{Hash}
use thenexusengine.Bidders.Redis.{Set, IsScan}
use thenexusengine.Bidders.Code.{
  extract_family, extract_instance_number, instance_match, instance_code, newline,
}
use thenexusengine.Common.Text.{is_empty, count_char}
use thenexusengine.Bidders.Code.Instance.{instance_match-instance_code}
use thenexusengine.Bidders.Model.{BidderConfig, post_init}
use thenexusengine.Bidders.Storage.{Store, list_codes}
use thenexusengine.Bidders.Publishers.{
  max_instance, get_publisher_bidders, family_codes, generate_instance_code,
}

abbrev keys : List (String × BidderConfig) → List String
keys = map (λ (e : String × BidderConfig). e.0)

contains-keys :
    (m : List (String × BidderConfig)) (k : String) (v : BidderConfig)
    → lookup m k ≡ some v
    → contains (keys m) k ≡ true
contains-keys [] k v e = absurd (ground arith)
contains-keys ((j, w) ∷ m) k v e = ground (arith, contains-keys m k v)

keys-map :
    (f : BidderConfig → BidderConfig) (m : List (String × BidderConfig))
    → keys (map (λ (e : String × BidderConfig). (e.0, f e.1)) m) ≡ keys m
keys-map f [] = refl
keys-map f ((k, v) ∷ m) = ap (◌∷◌ k) (keys-map f m)

max_instance-le : (n : ℕ) (codes : List String) → n ≤ max_instance n codes
unfolding max_instance
max_instance-le n [] = omega arith
max_instance-le n (c ∷ codes) =
    ground (arith, max_instance-le n codes, max_instance-le (extract_instance_number c) codes)

max_instance_bound :
    (n : ℕ) (codes : List String) (k : String)
    → contains codes k ≡ true
    → extract_instance_number k ≤ max_instance n codes
unfolding max_instance
max_instance_bound n [] k m = absurd (ground arith)
max_instance_bound n (c ∷ codes) k m =
    let m' = if ltb n (extract_instance_number c) then extract_instance_number c else n in
    elim (Bool-cases (c == k)) [
      | inl same ↦
          let number = ap extract_instance_number (eq_of_beq c k same) in
          let above = max_instance-le m' codes in ground arith
      | inr other ↦ max_instance_bound m' codes k (ground arith)
    ]

module _ {H Z I : Type 0} (hashes : Hash H BidderConfig)
    (hgetall : H → List (String × BidderConfig)) (sets : Set Z) (scores : Hash I ℕ) where
  -- A code in use is among those of its family.
  family_code :
      IsScan hashes hgetall
      → (now p family k : String) (st : Store H Z I) → extract_family k ≡ family
      → ((c : BidderConfig) × (hashes.hget st.bidders k ≡ some c))
        ⊎ ((c : BidderConfig) × (hashes.hget (st.pub_bidders p) k ≡ some c))
      → contains (family_codes hashes hgetall sets scores now (some st) p family) k ≡ true
  unfolding family_codes list_codes get_publisher_bidders
  family_code scan now p family k st same used =
      let matches : (extract_family k == family) ≡ true =
        ap (λ f. f == family) same ∙ eq_self family in
      let global = keys (hgetall st.bidders) in
      let own =
        map (λ (e : String × BidderConfig). e.0)
          (get_publisher_bidders hashes hgetall sets scores now (some st) p) in
      let split = contains-append global own k in
      let kept = contains-filter (λ code. extract_family code == family) (global ++ own) k in
      elim used [
        | inl (c, e) ↦
            let found = contains-keys (hgetall st.bidders) k c (scan.listed st.bidders k ∙ e) in
            ground arith
        | inr (c, e) ↦
            let found =
              ap (λ xs. contains xs k) (keys-map (post_init now) (hgetall (st.pub_bidders p)))
              ∙ contains-keys (hgetall (st.pub_bidders p)) k c
                  (scan.listed (st.pub_bidders p) k ∙ e) in
            ground arith
      ]

  not_used :
      IsScan hashes hgetall
      → (now p family k : String) (st : Store H Z I) → extract_family k ≡ family
      → contains (family_codes hashes hgetall sets scores now (some st) p family) k ≡ false
      → (hashes.hget st.bidders k ≡ none) × (hashes.hget (st.pub_bidders p) k ≡ none)
  not_used scan now p family k st same absent = (
    elim (Option-cases (hashes.hget st.bidders k)) [
      | inl free ↦ free
      | inr used ↦ absurd (ground (arith, family_code scan now p family k st same (inl used)))
    ],
    elim (Option-cases (hashes.hget (st.pub_bidders p) k)) [
      | inl free ↦ free
      | inr used ↦ absurd (ground (arith, family_code scan now p family k st same (inr used)))
    ],
  )

  -- The code that `generate_instance_code` gives is that of no global bidder and of no bidder of the
  -- publisher, if the family is not empty, has no newline and is not itself the code of an instance.
  pub generate_instance_code_fresh :
      IsScan hashes hgetall
      → (now p family : String) (st : Store H Z I) → is_empty family ≡ false
      → count_char newline family ≡ 0
      → instance_match family ≡ none
      → let code = generate_instance_code hashes hgetall sets scores now (some st) p family in
        (hashes.hget st.bidders code ≡ none) × (hashes.hget (st.pub_bidders p) code ≡ none)
  unfolding generate_instance_code extract_family extract_instance_number
  generate_instance_code_fresh scan now p family st named one_line base =
      let existing = family_codes hashes hgetall sets scores now (some st) p family in
      let n = max_instance 1 existing + 1 in
      elim (List-cases existing) [
        | inl none_there ↦
            let family_of : extract_family family ≡ family = rw (base, extract_family) refl in
            rw (none_there, generate_instance_code)
              (not_used scan now p family family st family_of
                (ap (λ xs. contains xs family) none_there))
        | inr (c, codes, some_there) ↦
            let read = instance_match-instance_code family n named one_line in
            let family_of : extract_family (instance_code family n) ≡ family =
              rw (read, extract_family) refl in
            let number : extract_instance_number (instance_code family n) ≡ n =
              rw (read, extract_instance_number) refl in
            let absent : contains existing (instance_code family n) ≡ false =
              elim (Bool-cases (contains existing (instance_code family n))) [
                | inl there ↦ absurd (
                    omega
                      (arith, number, max_instance_bound 1 existing (instance_code family n) there))
                | inr absent ↦ absent
              ] in
            let code_is : generate_instance_code hashes hgetall sets scores now (some st) p family
                ≡ instance_code family n =
              rw (ap null some_there, generate_instance_code) refl in
            subst
              (λ code.
                (hashes.hget st.bidders code ≡ none) × (hashes.hget (st.pub_bidders p) code ≡ none))
              (sym code_is)
              (not_used scan now p family (instance_code family n) st family_of absent)
      ]

-- ===== src/Bidders/Create.antt =====
-- What `create_bidder` of src/idr/bidders/manager.py does, errors included.
use thenexusengine.Common.{
  ℕ, ◌≡◌, refl, ◌∙◌, inl, inr, ◌⊎◌, String, Bool, true, false, not, none, some, List, arith,
  Bool-cases, Option-cases, ◌==◌, string_eq, all, ◌&&◌,
}
use thenexusengine.Common.Members.{contains, eq_self}
use thenexusengine.Keys.Hash.{Hash, IsHash}
use thenexusengine.Bidders.Redis.{Set}
use thenexusengine.Bidders.Code.{normalize_code, extract_family}
use thenexusengine.Common.Text.{is_empty}
use thenexusengine.Bidders.Code.Normal.{normalize_code-IsNormal, normalize_code_kept}
use thenexusengine.Bidders.Url.{validate_url}
use thenexusengine.Bidders.Model.{BidderConfig, post_init, is_enabled}
use thenexusengine.Bidders.Storage.{Store, save, get, exists, put_active}
use thenexusengine.Bidders.Manager.{
  ManagerError, invalid_config, already_exists, ok, error, NewBidder, code_for, media_types_for,
  valid_media_types, created, create_bidder, get_bidder,
}

-- What `create_bidder` saves.
abbrev stored : String → NewBidder → BidderConfig
stored now n = record (created now n) { updated_at = some now }

stored-kept : (now : String) (n : NewBidder) → post_init now (stored now n) ≡ stored now n
unfolding post_init
stored-kept now n =
    let code =
      normalize_code_kept (normalize_code (code_for n)) (normalize_code-IsNormal (code_for n)) in
    rw code (elim (Bool-cases (is_empty now)) [
      | inl timeless ↦ elim (Bool-cases (is_empty (extract_family (normalize_code (code_for n))))) [
        | inl bare ↦ rw (timeless, bare) refl
        | inr named ↦ rw (timeless, named) refl
      ]
      | inr timed ↦ elim (Bool-cases (is_empty (extract_family (normalize_code (code_for n))))) [
        | inl bare ↦ rw (timed, bare) refl
        | inr named ↦ rw (timed, named) refl
      ]
    ])

stored_code : (now : String) (n : NewBidder) → (stored now n).bidder_code ≡ code_for n
unfolding post_init
stored_code now n = normalize_code_kept (code_for n) (normalize_code-IsNormal _)

module _ {H Z I : Type 0} (hashes : Hash H BidderConfig)
    (hgetall : H → List (String × BidderConfig)) (sets : Set Z) (scores : Hash I ℕ) where
  -- The arguments that `create_bidder` takes.
  unfoldable pub accepts : Store H Z I → NewBidder → Bool
  accepts st n =
      validate_url n.endpoint_url
      && not (is_empty (code_for n))
      && not (exists hashes hgetall sets scores (some st) (code_for n))
      && all (contains valid_media_types) (media_types_for n)

  -- The store with a configuration that was saved.
  abbrev stored_store : Store H Z I → BidderConfig → Store H Z I
  stored_store st c = record st {
    bidders = hashes.hset st.bidders c.bidder_code c;
    active = put_active hashes hgetall sets scores st.active c;
    index = scores.hset st.index c.bidder_code c.priority;
  }

  get_stored :
      IsHash hashes
      → (now : String) (st : Store H Z I) (c : BidderConfig) → post_init now c ≡ c
      → get_bidder hashes hgetall sets scores now (some (stored_store st c)) c.bidder_code ≡ ok c
  unfolding get_bidder get
  get_stored laws now st c kept =
      let read = laws.get_set st.bidders c.bidder_code c c.bidder_code in
      let same = eq_self c.bidder_code in ground arith

  -- In a connected store, `create_bidder` raises an exception exactly if it does not accept its
  -- arguments, and then the store is as it was. Otherwise no bidder had the code of the one that it
  -- returns, `get_bidder` finds that one afterwards, and every other bidder is as it was.
  pub create_bidder-get_bidder :
      IsHash hashes
      → (now : String) (st : Store H Z I) (n : NewBidder)
      → ((accepts st n ≡ false)
          × ((e : ManagerError) × (create_bidder hashes hgetall sets scores now (some st) n
                ≡ (error e, some st))))
        ⊎ ((c : BidderConfig) × (after : Store H Z I) × (accepts st n ≡ true)
            × (create_bidder hashes hgetall sets scores now (some st) n ≡ (ok c, some after))
            × (hashes.hget st.bidders c.bidder_code ≡ none)
            × (get_bidder hashes hgetall sets scores now (some after) c.bidder_code ≡ ok c)
            × ((k : String)
                → (c.bidder_code == k) ≡ false
                → hashes.hget after.bidders k ≡ hashes.hget st.bidders k))
  unfolding create_bidder exists accepts save is_enabled
  create_bidder-get_bidder laws now st n =
      let code = code_for n in
      elim (Bool-cases (validate_url n.endpoint_url)) [
        | inr bad ↦ inl (ground arith, (invalid_config, ground arith))
        | inl url ↦ elim (Bool-cases (is_empty code)) [
          | inl empty ↦ inl (ground arith, (invalid_config, ground arith))
          | inr named ↦ elim (Option-cases (hashes.hget st.bidders code)) [
            | inr (c, own) ↦ inl (ground arith, (already_exists, ground arith))
            | inl free ↦ elim (Bool-cases (all (contains valid_media_types) (media_types_for n))) [
              | inr odd ↦ inl (ground arith, (invalid_config, ground arith))
              | inl media ↦
                  let c = stored now n in
                  let key = stored_code now n in
                  inr (
                    c,
                    stored_store st c,
                    ground arith,
                    ground arith,
                    rw key free,
                    get_stored laws now st c (stored-kept now n),
                    λ k other. laws.get_set st.bidders c.bidder_code c k ∙ rw other refl,
                  )
            ]
          ]
        ]
      ]

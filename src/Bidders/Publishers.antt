-- ===== src/Bidders/Publishers.antt =====
-- src/idr/bidders/storage.py: the bidders of a publisher, instances and copies.
use thenexusengine.Common.{
  ℕ, ◌+◌, String, Bool, true, false, Option, none, some, List, [], ◌∷◌, ◌++◌, map, filter, null,
  ltb, if◌then◌else◌, ◌==◌, string_eq,
}
use mathlib.Core.Option
use thenexusengine.Common.Dicts.{dict_set}
use thenexusengine.Common.Sorting.{sort_by}
use thenexusengine.Common.Text.{concat}
use thenexusengine.Keys.Hash.{Hash}
use thenexusengine.Bidders.Redis.{Set}
use thenexusengine.Bidders.Code.{extract_family, extract_instance_number, instance_code}
use thenexusengine.Bidders.Model.{BidderConfig, testing, post_init, text_or}
use thenexusengine.Bidders.Storage.{Store, update, serves, put_active, get, get_all, list_codes}

-- The values of a dictionary; those of `result` after the entries of another were set.
abbrev pub values : List (String × BidderConfig) → List BidderConfig
values = map (λ (e : String × BidderConfig). e.1)

unfoldable pub overlay :
    List (String × BidderConfig) → List (String × BidderConfig) → List (String × BidderConfig)
overlay result [] = result
overlay result ((code, c) ∷ entries) = overlay (dict_set result code c) entries

-- The largest instance number of some codes, from a number on.
unfoldable pub max_instance : ℕ → List String → ℕ
max_instance n [] = n
max_instance n (code ∷ codes) =
    max_instance (if ltb n (extract_instance_number code) then extract_instance_number code else n)
      codes

module _ {H Z I : Type 0} (hashes : Hash H BidderConfig)
    (hgetall : H → List (String × BidderConfig)) (sets : Set Z) (scores : Hash I ℕ) where
  unfoldable pub save_publisher_bidder :
      String → Option (Store H Z I) → String → BidderConfig → Bool × Option (Store H Z I)
  save_publisher_bidder now none publisher_id c = (false, none)
  save_publisher_bidder now (some st) publisher_id c =
      let config = record c { publisher_id = some publisher_id; updated_at = some now } in
      (
        true,
        some (record st {
          pub_bidders =
              update st.pub_bidders publisher_id
                (hashes.hset (st.pub_bidders publisher_id) config.bidder_code config);
          pub_enabled =
              update st.pub_enabled publisher_id
                (put_active hashes hgetall sets scores (st.pub_enabled publisher_id) config);
        }),
      )

  unfoldable pub get_publisher_bidder :
      String → Option (Store H Z I) → String → String → Option BidderConfig
  get_publisher_bidder now none publisher_id code = none
  get_publisher_bidder now (some st) publisher_id code =
      Option.map (post_init now) (hashes.hget (st.pub_bidders publisher_id) code)

  unfoldable pub get_publisher_bidders :
      String → Option (Store H Z I) → String → List (String × BidderConfig)
  get_publisher_bidders now none publisher_id = []
  get_publisher_bidders now (some st) publisher_id =
      map (λ (e : String × BidderConfig). (e.0, post_init now e.1))
        (hgetall (st.pub_bidders publisher_id))

  unfoldable pub delete_publisher_bidder :
      Option (Store H Z I) → String → String → Bool × Option (Store H Z I)
  delete_publisher_bidder none publisher_id code = (false, none)
  delete_publisher_bidder (some st) publisher_id code = (
    true,
    some (record st {
      pub_bidders =
          update st.pub_bidders publisher_id (hashes.hdel (st.pub_bidders publisher_id) code);
      pub_enabled =
          update st.pub_enabled publisher_id (sets.srem (st.pub_enabled publisher_id) code);
    }),
  )

  unfoldable pub get_bidders_for_publisher :
      String → Option (Store H Z I) → String → Bool → List BidderConfig
  get_bidders_for_publisher now st publisher_id include_global =
      let global =
        if include_global
        then filter (λ (e : String × BidderConfig). serves e.1 publisher_id)
            (get_all hashes hgetall sets scores now st)
        else [] in
      sort_by (λ c. c.priority)
        (values (overlay global (get_publisher_bidders now st publisher_id)))

  unfoldable pub set_bidder_enabled_for_publisher :
      Option (Store H Z I) → String → String → Bool → Bool × Option (Store H Z I)
  set_bidder_enabled_for_publisher none publisher_id code enabled = (false, none)
  set_bidder_enabled_for_publisher (some st) publisher_id code enabled =
      let old = st.pub_enabled publisher_id in
      (
        true,
        some (record st {
          pub_enabled =
              update st.pub_enabled publisher_id
                (if enabled then sets.sadd old code else sets.srem old code);
        }),
      )

  -- The codes of a family, among the global bidders and those of the publisher.
  unfoldable pub family_codes : String → Option (Store H Z I) → String → String → List String
  family_codes now st publisher_id bidder_family =
      filter (λ code. extract_family code == bidder_family)
        (list_codes hashes hgetall sets scores st
          ++ map (λ (e : String × BidderConfig). e.0) (get_publisher_bidders now st publisher_id))

  unfoldable pub generate_instance_code : String → Option (Store H Z I) → String → String → String
  generate_instance_code now st publisher_id bidder_family =
      let existing_codes = family_codes now st publisher_id bidder_family in
      if null existing_codes
      then bidder_family
      else instance_code bidder_family (max_instance 1 existing_codes + 1)

  -- The copy that `duplicate_bidder` saves.
  abbrev pub copy_of : String → String → String → Option String → BidderConfig → BidderConfig
  copy_of now new_code publisher_id new_name source = record source {
    bidder_code = new_code;
    instance_number = extract_instance_number new_code;
    publisher_id = some publisher_id;
    name = Option.get_or (text_or new_name none) (concat source.name " (Copy)");
    created_at = some now;
    updated_at = some now;
    status = testing;
    total_requests = 0;
    total_bids = 0;
    total_wins = 0;
    total_errors = 0;
    avg_latency_ms = 0;
    avg_bid_cpm = 0;
    last_active_at = none;
  }

  abbrev pub source_of : String → Option (Store H Z I) → String → String → Option BidderConfig
  source_of now st publisher_id code = elim (get_publisher_bidder now st publisher_id code) [
    | some c ↦ some c
    | none ↦ get hashes hgetall sets scores now st code
  ]

  unfoldable pub duplicate_bidder :
      String
      → Option (Store H Z I)
      → String
      → String
      → Option String
      → Option BidderConfig × Option (Store H Z I)
  duplicate_bidder now st publisher_id source_code new_name =
      elim (source_of now st publisher_id source_code) [
        | none ↦ (none, st)
        | some source ↦
            let new_code = generate_instance_code now st publisher_id source.bidder_family in
            let copy = copy_of now new_code publisher_id new_name source in
            let (saved, after) = save_publisher_bidder now st publisher_id copy in
            (if saved then some copy else none, after)
      ]

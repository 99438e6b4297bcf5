-- ===== src/Bidders/Storage.antt =====
-- src/idr/bidders/storage.py: `BidderStorage`.
use thenexusengine.Common.{
  ℕ, ◌+◌, String, Bool, true, false, ◌&&◌, ◌||◌, not, Option, none, some, List, [], ◌∷◌, map,
  filter, null, is_some, if◌then◌else◌, ◌==◌, string_eq,
}
use mathlib.Core.Option
use thenexusengine.Common.Members.{contains}
use thenexusengine.Common.Sorting.{sort_by}
use thenexusengine.Common.Text.{is_empty}
use thenexusengine.Keys.Hash.{Hash}
use thenexusengine.Bidders.Redis.{Set}
use thenexusengine.Bidders.Model.{BidderConfig, BidderStatus, post_init, is_enabled}

-- The counters of `nexus:bidders:stats:{code}`. The sums of floats for averages are left out.
pub record Stats : Type 0 where
  pub total_requests : ℕ
  pub total_bids : ℕ
  pub total_wins : ℕ
  pub total_errors : ℕ
  pub last_active_at : Option String

abbrev pub no_counts : Stats
no_counts = record {
  total_requests = 0;
  total_bids = 0;
  total_wins = 0;
  total_errors = 0;
  last_active_at = none;
}

-- `nexus:bidders`, `nexus:bidders:active`, `nexus:bidders:index` as scores by code, the statistics by
-- code, and the two keys of each publisher, by publisher. The text of a configuration is modelled
-- by the configuration that it was written from.
pub record Store (H Z I : Type 0) : Type 0 where
  pub bidders : H
  pub active : Z
  pub index : I
  pub stats : String → Option Stats
  pub pub_bidders : String → H
  pub pub_enabled : String → Z

abbrev pub update : {A : Type 0} → (String → A) → String → A → String → A
update f k v j = if k == j then v else f j

-- The restrictions of a configuration on publishers, and on countries.
abbrev pub serves : BidderConfig → String → Bool
serves c publisher_id =
    not (not (null c.blocked_publishers) && contains c.blocked_publishers publisher_id)
    && not (not (null c.allowed_publishers) && not (contains c.allowed_publishers publisher_id))

abbrev pub serves_country : BidderConfig → Option String → Bool
serves_country c none = true
serves_country c (some country) =
    is_empty country
    || (not (not (null c.blocked_countries) && contains c.blocked_countries country)
        && not (not (null c.allowed_countries) && not (contains c.allowed_countries country)))

-- The configuration with the counters of its statistics.
abbrev pub with_stats : Stats → BidderConfig → BidderConfig
with_stats stats c = record c {
  total_requests = stats.total_requests;
  total_bids = stats.total_bids;
  total_wins = stats.total_wins;
  total_errors = stats.total_errors;
  last_active_at = stats.last_active_at;
}

-- The store of the storage is `none` without a connection, and `now` is the time. A command that
-- fails in a connection is not modelled.
module _ {H Z I : Type 0} (hashes : Hash H BidderConfig)
    (hgetall : H → List (String × BidderConfig)) (sets : Set Z) (scores : Hash I ℕ) where
  abbrev pub put_active : Z → BidderConfig → Z
  put_active z c = if is_enabled c then sets.sadd z c.bidder_code else sets.srem z c.bidder_code

  unfoldable pub save : String → Option (Store H Z I) → BidderConfig → Bool × Option (Store H Z I)
  save now none c = (false, none)
  save now (some st) c =
      let config = record c { updated_at = some now } in
      (
        true,
        some (record st {
          bidders = hashes.hset st.bidders config.bidder_code config;
          active = put_active st.active config;
          index = scores.hset st.index config.bidder_code config.priority;
        }),
      )

  unfoldable pub get : String → Option (Store H Z I) → String → Option BidderConfig
  get now none code = none
  get now (some st) code = Option.map (post_init now) (hashes.hget st.bidders code)

  unfoldable pub get_all : String → Option (Store H Z I) → List (String × BidderConfig)
  get_all now none = []
  get_all now (some st) =
      map (λ (e : String × BidderConfig). (e.0, post_init now e.1)) (hgetall st.bidders)

  -- The loop of `get_active` over the codes.
  unfoldable pub enabled_of : String → Option (Store H Z I) → List String → List BidderConfig
  enabled_of now st [] = []
  enabled_of now st (code ∷ codes) =
      let rest = enabled_of now st codes in
      elim (get now st code) [ none ↦ rest | some c ↦ if is_enabled c then c ∷ rest else rest ]

  unfoldable pub get_active : String → Option (Store H Z I) → List BidderConfig
  get_active now none = []
  get_active now (some st) =
      sort_by (λ c. c.priority) (enabled_of now (some st) (sets.smembers st.active))

  unfoldable pub delete : Option (Store H Z I) → String → Bool × Option (Store H Z I)
  delete none code = (false, none)
  delete (some st) code = (
    true,
    some (record st {
      bidders = hashes.hdel st.bidders code;
      active = sets.srem st.active code;
      index = scores.hdel st.index code;
      stats = update st.stats code none;
    }),
  )

  unfoldable pub exists : Option (Store H Z I) → String → Bool
  exists none code = false
  exists (some st) code = is_some (hashes.hget st.bidders code)

  unfoldable pub list_codes : Option (Store H Z I) → List String
  list_codes none = []
  list_codes (some st) = map (λ (e : String × BidderConfig). e.0) (hgetall st.bidders)

  unfoldable pub set_status :
      String → Option (Store H Z I) → String → BidderStatus → Bool × Option (Store H Z I)
  set_status now st code status = elim (get now st code) [
    | none ↦ (false, st)
    | some c ↦ save now st (record c { status = status })
  ]

  -- The counters of `update_stats`; `hincrby` makes the hash where there is none.
  unfoldable pub update_stats :
      String → Option (Store H Z I) → String → ℕ → ℕ → ℕ → ℕ → Bool × Option (Store H Z I)
  update_stats now none code requests bids wins errors = (false, none)
  update_stats now (some st) code requests bids wins errors =
      let old = Option.get_or (st.stats code) no_counts in
      (
        true,
        some (record st {
          stats = update st.stats code (
              some (record {
                total_requests = old.total_requests + requests;
                total_bids = old.total_bids + bids;
                total_wins = old.total_wins + wins;
                total_errors = old.total_errors + errors;
                last_active_at = some now;
              }));
        }),
      )

  unfoldable pub get_stats : Option (Store H Z I) → String → Option Stats
  get_stats none code = none
  get_stats (some st) code = st.stats code

  unfoldable pub sync_stats_to_config :
      String → Option (Store H Z I) → String → Bool × Option (Store H Z I)
  sync_stats_to_config now st code = elim (get_stats st code) [
    | none ↦ (false, st)
    | some stats ↦ elim (get now st code) [
      | none ↦ (false, st)
      | some c ↦ save now st (with_stats stats c)
    ]
  ]

  unfoldable pub reset_stats : Option (Store H Z I) → String → Bool × Option (Store H Z I)
  reset_stats none code = (false, none)
  reset_stats (some st) code = (true, some (record st { stats = update st.stats code none }))

  unfoldable pub get_for_publisher :
      String → Option (Store H Z I) → String → Option String → List BidderConfig
  get_for_publisher now st publisher_id country =
      filter (λ c. serves c publisher_id && serves_country c country) (get_active now st)

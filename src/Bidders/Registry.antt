-- ===== src/Bidders/Registry.antt =====
-- The steps of the registry of bidders, of src/idr/bidders/storage.py and manager.py: each keeps the set of
-- active codes and the index in step with the configurations.
use thenexusengine.Common.{
  ℕ, ◌≡◌, ap, sym, subst, ◌∙◌, inl, inr, String, Option, some, List, arith, Bool-cases,
  Option-cases, string_eq, all,
}
use thenexusengine.Common.Members.{contains}
use thenexusengine.Keys.Hash.{Hash, IsHash}
use thenexusengine.Bidders.Redis.{Set, IsSetOf}
use thenexusengine.Common.Text.{is_empty}
use thenexusengine.Bidders.Code.Normal.{IsNormal, normalize_code-IsNormal}
use thenexusengine.Bidders.Url.{validate_url}
use thenexusengine.Bidders.Model.{BidderConfig, BidderStatus, post_init}
use thenexusengine.Bidders.Storage.{
  Store, save, get, exists, set_status, update_stats, sync_stats_to_config, reset_stats, get_stats,
  with_stats,
}
use thenexusengine.Bidders.Manager.{
  NewBidder, code_for, media_types_for, valid_media_types, created, duplicated, imported,
  create_bidder, update_bidder, delete_bidder, duplicate_bidder, import_bidder,
}
use thenexusengine.Bidders.Indexed.{IsIndexed, save-IsIndexed, delete-IsIndexed}

post_init-IsNormal : (now : String) (c : BidderConfig) → IsNormal (post_init now c).bidder_code
unfolding post_init
post_init-IsNormal now c = normalize_code-IsNormal c.bidder_code

module _ {H Z I : Type 0} (hashes : Hash H BidderConfig)
    (hgetall : H → List (String × BidderConfig)) (sets : Set Z) (scores : Hash I ℕ) where
  -- A step of the registry. An update sets any field but the code, which names the bidder and cannot be
  -- among the keyword arguments.
  pub data Step : Store H Z I → Store H Z I → Type 0 where
    creates :
        (now : String) (n : NewBidder) {st after : Store H Z I}
        → (create_bidder hashes hgetall sets scores now (some st) n).1 ≡ some after
        → Step st after
    updates :
        (now code : String) (edit : BidderConfig → BidderConfig) {st after : Store H Z I}
        → ((c : BidderConfig) → (edit c).bidder_code ≡ c.bidder_code)
        → (update_bidder hashes hgetall sets scores now (some st) code edit).1 ≡ some after
        → Step st after
    deletes :
        (code : String) {st after : Store H Z I}
        → (delete_bidder hashes hgetall sets scores (some st) code).1 ≡ some after
        → Step st after
    duplicates :
        (now source_code new_name : String) (new_endpoint_url : Option String)
        {st after : Store H Z I}
        → (duplicate_bidder hashes hgetall sets scores now
            (some st)
            source_code
            new_name
            new_endpoint_url).1
          ≡ some after
        → Step st after
    imports :
        (now : String) (config : BidderConfig) {st after : Store H Z I}
        → (import_bidder hashes hgetall sets scores now (some st) config).1 ≡ some after
        → Step st after
    sets_status :
        (now code : String) (status : BidderStatus) {st after : Store H Z I}
        → (set_status hashes hgetall sets scores now (some st) code status).1 ≡ some after
        → Step st after
    syncs :
        (now code : String) {st after : Store H Z I}
        → (sync_stats_to_config hashes hgetall sets scores now (some st) code).1 ≡ some after
        → Step st after
    counts :
        (now code : String) (requests bids wins errors : ℕ) {st after : Store H Z I}
        → (update_stats hashes hgetall sets scores now (some st) code requests bids wins errors).1
          ≡ some after
        → Step st after
    resets :
        (code : String) {st after : Store H Z I}
        → (reset_stats hashes hgetall sets scores (some st) code).1 ≡ some after
        → Step st after

  -- A run of the registry.
  pub data Steps : Store H Z I → Store H Z I → Type 0 where
    done : {st : Store H Z I} → Steps st st
    next : {st middle after : Store H Z I} → Step st middle → Steps middle after → Steps st after

  IsIndexed-same :
      (st after : Store H Z I)
      → after.bidders ≡ st.bidders
      → after.active ≡ st.active
      → after.index ≡ st.index
      → IsIndexed hashes sets scores st
      → IsIndexed hashes sets scores after
  IsIndexed-same st after bidders active index h = record {
    active_codes = λ k. ground (
      arith,
      h.active_codes k,
      ap (λ m. hashes.hget m k) bidders,
      ap (λ z. contains (sets.smembers z) k) active,
    );
    indexed = λ k.
        ground
          (arith, h.indexed k, ap (λ m. hashes.hget m k) bidders, ap (λ m. scores.hget m k) index);
    coded = λ k c own. h.coded k c (sym (ap (λ m. hashes.hget m k) bidders) ∙ own);
  }

  -- What `get` returns has the code that it was asked for, which is normal.
  get-IsNormal :
      (now : String) (st : Store H Z I) (code : String) (c : BidderConfig)
      → IsIndexed hashes sets scores st
      → get hashes hgetall sets scores now (some st) code ≡ some c
      → IsNormal c.bidder_code
  unfolding get
  get-IsNormal now st code c h e = elim (Option-cases (hashes.hget st.bidders code)) [
    | inl missing ↦ absurd (ground arith)
    | inr (d, own) ↦
        let is : post_init now d ≡ c = ground arith in
        subst (λ x. IsNormal x.bidder_code) is (post_init-IsNormal now d)
  ]

  module _ (laws : IsHash hashes) (set_laws : IsSetOf sets) (score_laws : IsHash scores) where
    -- The store after a save of a configuration with a normal code, or the store before.
    saves :
        (now : String) (st after : Store H Z I) (c : BidderConfig)
        → IsIndexed hashes sets scores st
        → IsNormal c.bidder_code
        → (save hashes hgetall sets scores now (some st) c).1 ≡ some after
        → IsIndexed hashes sets scores after
    saves = save-IsIndexed hashes sets scores hgetall laws set_laws score_laws

    stays :
        (st after : Store H Z I)
        → IsIndexed hashes sets scores st
        → some st ≡ some after
        → IsIndexed hashes sets scores after
    stays st after h e =
        let is : st ≡ after = ground arith in subst (IsIndexed hashes sets scores) is h

    Step-IsIndexed :
        (st after : Store H Z I)
        → Step st after
        → IsIndexed hashes sets scores st
        → IsIndexed hashes sets scores after
    unfolding create_bidder update_bidder delete_bidder duplicate_bidder import_bidder set_status
        sync_stats_to_config update_stats reset_stats
    Step-IsIndexed st after (creates now n e) h =
        let normal : IsNormal (created now n).bidder_code = post_init-IsNormal now _ in
        let url = Bool-cases (validate_url n.endpoint_url) in
        let empty = Bool-cases (is_empty (code_for n)) in
        let there = Bool-cases (exists hashes hgetall sets scores (some st) (code_for n)) in
        let media = Bool-cases (all (contains valid_media_types) (media_types_for n)) in
        ground (arith, stays st after h, saves now st after (created now n) h normal)
    Step-IsIndexed st after (updates now code edit keeps e) h =
        elim (Option-cases (get hashes hgetall sets scores now (some st) code)) [
          | inl missing ↦ stays st after h (ground arith)
          | inr (c, own) ↦
              saves now st after (edit c) h
                (subst IsNormal (sym (keeps c)) (get-IsNormal now st code c h own)) (ground arith)
        ]
    Step-IsIndexed st after (deletes code e) h =
        elim (Bool-cases (exists hashes hgetall sets scores (some st) code)) [
          | inr missing ↦ stays st after h (ground arith)
          | inl there ↦
              delete-IsIndexed hashes sets scores hgetall laws set_laws score_laws st after code h
                (ground arith)
        ]
    Step-IsIndexed st after (duplicates now s n u e) h =
        elim (Option-cases (get hashes hgetall sets scores now (some st) s)) [
          | inl missing ↦ stays st after h (ground arith)
          | inr (c, own) ↦
              saves now st after (duplicated now n u c) h (post_init-IsNormal now _) (ground arith)
        ]
    Step-IsIndexed st after (imports now c e) h =
        elim (Bool-cases
          (exists hashes hgetall sets scores (some st) (imported now c).bidder_code)) [
            | inl there ↦ stays st after h (ground arith)
            | inr missing ↦
                saves now st after (imported now c) h (post_init-IsNormal now c) (ground arith)
          ]
    Step-IsIndexed st after (sets_status now code s e) h =
        elim (Option-cases (get hashes hgetall sets scores now (some st) code)) [
          | inl missing ↦ stays st after h (ground arith)
          | inr (c, own) ↦
              saves now st after (record c { status = s }) h (get-IsNormal now st code c h own)
                (ground arith)
        ]
    Step-IsIndexed st after (syncs now code e) h =
        elim (Option-cases (get_stats hashes hgetall sets scores (some st) code)) [
          | inl uncounted ↦ stays st after h (ground arith)
          | inr (s, counted) ↦
              elim (Option-cases (get hashes hgetall sets scores now (some st) code)) [
                | inl missing ↦ stays st after h (ground arith)
                | inr (c, own) ↦
                    saves now st after (with_stats s c) h (get-IsNormal now st code c h own)
                      (ground arith)
              ]
        ]
    Step-IsIndexed st after (counts now code r b w x e) h =
        IsIndexed-same st after (ground arith) (ground arith) (ground arith) h
    Step-IsIndexed st after (resets code e) h =
        IsIndexed-same st after (ground arith) (ground arith) (ground arith) h

    -- After every run from a store where the set of active codes and the index agree with the
    -- configurations, they agree: the active codes are those of the enabled configurations, the
    -- index holds the priority of each configuration and of no other, and each stands under its own
    -- normalized code. The updates in the run leave the code as it is.
    pub Steps-IsIndexed :
        (st after : Store H Z I)
        → Steps st after
        → IsIndexed hashes sets scores st
        → IsIndexed hashes sets scores after
    Steps-IsIndexed st after done h = h
    Steps-IsIndexed st after (next {middle = m} s run) h =
        Steps-IsIndexed m after run (Step-IsIndexed st m s h)

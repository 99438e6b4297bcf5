-- ===== src/Bidders/Indexed.antt =====
-- The set of active bidders and the index by priority agree with the configurations, whatever the
-- registry did.
use thenexusengine.Common.{
  ℕ, ◌≡◌, ap, sym, subst, ◌∙◌, inl, inr, String, Bool, false, Option, none, some, List, arith,
  Bool-cases, ◌==◌, string_eq,
}
use thenexusengine.Common.Members.{contains, eq_of_beq}
use thenexusengine.Keys.Hash.{Hash, IsHash}
use thenexusengine.Bidders.Redis.{Set, IsSetOf}
use thenexusengine.Bidders.Code.Normal.{IsNormal}
use thenexusengine.Bidders.Model.{BidderConfig, is_enabled}
use thenexusengine.Bidders.Storage.{Store, save, delete}

abbrev pub enabled_in : Option BidderConfig → Bool
enabled_in none = false
enabled_in (some c) = is_enabled c

abbrev pub priority_in : Option BidderConfig → Option ℕ
priority_in none = none
priority_in (some c) = some c.priority

module _ {H Z I : Type 0} (hashes : Hash H BidderConfig) (sets : Set Z) (scores : Hash I ℕ) where
  -- The active codes are those of enabled configurations, the index has the priority of each
  -- configuration and no more, and each configuration stands under its own normal code.
  pub record IsIndexed (st : Store H Z I) : Type 0 where
    pub active_codes :
        (k : String) → contains (sets.smembers st.active) k ≡ enabled_in (hashes.hget st.bidders k)
    pub indexed : (k : String) → scores.hget st.index k ≡ priority_in (hashes.hget st.bidders k)
    pub coded :
        (k : String) (c : BidderConfig)
        → hashes.hget st.bidders k ≡ some c
        → (c.bidder_code ≡ k) × IsNormal k

  module _ (hgetall : H → List (String × BidderConfig)) (laws : IsHash hashes)
      (set_laws : IsSetOf sets) (score_laws : IsHash scores) where
    pub save-IsIndexed :
        (now : String) (st after : Store H Z I) (c : BidderConfig)
        → IsIndexed st
        → IsNormal c.bidder_code
        → (save hashes hgetall sets scores now (some st) c).1 ≡ some after
        → IsIndexed after
    unfolding save is_enabled
    save-IsIndexed now st after c h normal e =
        let config : BidderConfig = record c { updated_at = some now } in
        let bidders = λ (k : String). laws.get_set st.bidders c.bidder_code config k in
        let index = λ (k : String). score_laws.get_set st.index c.bidder_code c.priority k in
        record {
          active_codes = λ k. ground (
            arith,
            bidders k,
            h.active_codes k,
            set_laws.members_add st.active c.bidder_code k,
            set_laws.members_rem st.active c.bidder_code k,
          );
          indexed = λ k. ground (arith, bidders k, index k, h.indexed k);
          coded = λ k d own.
              let read = bidders k in
              elim (Bool-cases (c.bidder_code == k)) [
                | inl same ↦
                    let key = eq_of_beq c.bidder_code k same in
                    let is : config ≡ d = ground arith in
                    (ap (λ x. x.bidder_code) (sym is) ∙ key, subst IsNormal key normal)
                | inr other ↦ h.coded k d (ground arith)
              ];
        }

    pub delete-IsIndexed :
        (st after : Store H Z I) (code : String)
        → IsIndexed st
        → (delete hashes hgetall sets scores (some st) code).1 ≡ some after
        → IsIndexed after
    unfolding delete
    delete-IsIndexed st after code h e =
        let bidders = λ (k : String). laws.get_del st.bidders code k in
        let index = λ (k : String). score_laws.get_del st.index code k in
        record {
          active_codes = λ k.
              ground (arith, bidders k, h.active_codes k, set_laws.members_rem st.active code k);
          indexed = λ k. ground (arith, bidders k, index k, h.indexed k);
          coded = λ k d own. let read = bidders k in h.coded k d (ground arith);
        }

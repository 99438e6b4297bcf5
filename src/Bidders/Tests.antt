-- ===== src/Bidders/Tests.antt =====
-- The registry of bidders on dictionaries and lists, and its theorems at small stores.
use thenexusengine.Common.{
  ℕ, ◌≡◌, refl, String, true, false, Option, none, some, List, [], ◌∷◌, arith, not, filter, ◌==◌,
  string_eq, ◌⊎◌,
}
use thenexusengine.Common.Members.{contains, lookup, contains-filter}
use thenexusengine.Common.Dicts.{dict_set, dict_del, lookup-dict_set, lookup-dict_del}
use thenexusengine.Keys.Hash.{Hash, IsHash}
use thenexusengine.Bidders.Redis.{Set, IsSetOf, IsScan}
use thenexusengine.Common.Text.{count_char, lower, count_char, without_prefix}
use thenexusengine.Bidders.Url.{validate_url, host, in_label, after_dot, url_rest}
use thenexusengine.Bidders.Code.{
  before_newline, normalize_code, extract_family, split_last_hyphen, hyphens, keep_allowed,
  collapse, strip_left, strip_right, instance_match, instance_code,
}
use thenexusengine.Bidders.Code.Instance.{instance_match-instance_code}
use thenexusengine.Bidders.Model.{BidderConfig, active, is_enabled, post_init}
use thenexusengine.Common.Sorting.{sort_by, insert_by}
use thenexusengine.Bidders.Storage.{enabled_of, Store, get, exists, save, get_active}
use thenexusengine.Bidders.Publishers.{generate_instance_code}
use thenexusengine.Bidders.Manager.{ok, error, ManagerError, NewBidder, create_bidder, get_bidder}
use thenexusengine.Bidders.Fresh.{generate_instance_code_fresh}
use thenexusengine.Bidders.Indexed.{IsIndexed, enabled_in}
use thenexusengine.Bidders.Registry.{Steps, done, next, creates, Steps-IsIndexed}
use thenexusengine.Bidders.Active.{codes, falls, get_active-exact}
use thenexusengine.Bidders.Create.{accepts, create_bidder-get_bidder}

abbrev Dict : Type 0 → Type 0
Dict V = List (String × V)

abbrev dicts : {V : Type 0} → Hash (Dict V) V
dicts = record { hget = lookup; hset = dict_set; hdel = dict_del }

dicts-IsHash : {V : Type 0} → IsHash (dicts {V = V})
dicts-IsHash = record { get_set = lookup-dict_set; get_del = lookup-dict_del }

abbrev entries : Dict BidderConfig → List (String × BidderConfig)
entries m = m

dicts-IsScan : IsScan dicts entries
dicts-IsScan = record { listed = λ h k. refl }

abbrev lists : Set (List String)
lists = record {
  sadd = λ z k. k ∷ z;
  srem = λ z k. filter (λ j. not (k == j)) z;
  smembers = λ z. z;
}

lists-IsSetOf : IsSetOf lists
lists-IsSetOf = record {
  members_add = λ z k j. ground arith;
  members_rem = λ z k j. ground (arith, contains-filter (λ i. not (k == i)) z j);
}

abbrev Bidders : Type 0
Bidders = Store (Dict BidderConfig) (List String) (Dict ℕ)

abbrev empty : Bidders
empty = record {
  bidders = [];
  active = [];
  index = [];
  stats = λ k. none;
  pub_bidders = λ p. [];
  pub_enabled = λ p. [];
}

empty-IsIndexed : IsIndexed dicts lists dicts empty
empty-IsIndexed = record {
  active_codes = λ k. refl;
  indexed = λ k. refl;
  coded = λ k c e. absurd (ground arith);
}

abbrev new_bidder : String → ℕ → NewBidder
new_bidder name priority = record {
  name = name;
  endpoint_url = "https://a.example.com/bid";
  media_types = "video" ∷ [];
  bidder_code = none;
  description = "";
  timeout_ms = 200;
  protocol_version = "2.6";
  auth_type = none;
  auth_token = none;
  gvl_vendor_id = none;
  priority = priority;
  status = active;
  custom_headers = [];
}

abbrev store_of : {A : Type 0} → A × Option Bidders → Bidders
store_of (r, none) = empty
store_of (r, some st) = st

-- Two bidders are made.
abbrev one : Bidders
one =
    store_of (create_bidder dicts entries lists dicts "t0" (some empty) (new_bidder "My Bidder" 20))

abbrev two : Bidders
two = store_of (create_bidder dicts entries lists dicts "t1" (some one) (new_bidder "Other" 70))

made : Steps dicts entries lists dicts empty two
unfolding dict_set create_bidder exists save is_enabled validate_url without_prefix host in_label
    after_dot url_rest count_char post_init normalize_code hyphens keep_allowed collapse strip_left
    strip_right lower
made =
    next {middle = one} (creates "t0" (new_bidder "My Bidder" 20) refl)
      (next {middle = two} (creates "t1" (new_bidder "Other" 70) refl) done)

Steps-IsIndexed_example : IsIndexed dicts lists dicts two
Steps-IsIndexed_example =
    Steps-IsIndexed dicts entries lists dicts dicts-IsHash lists-IsSetOf dicts-IsHash empty two made
      empty-IsIndexed

two-IsIndexed : IsIndexed dicts lists dicts two
two-IsIndexed =
    Steps-IsIndexed dicts entries lists dicts dicts-IsHash lists-IsSetOf dicts-IsHash empty two made
      empty-IsIndexed

get_active-exact_example :
    (falls (get_active dicts entries lists dicts "t2" (some two)) ≡ true)
    × ((k : String)
        → contains (codes (get_active dicts entries lists dicts "t2" (some two))) k
          ≡ enabled_in (lookup two.bidders k))
get_active-exact_example = get_active-exact dicts entries lists dicts "t2" two two-IsIndexed

active_codes :
    codes (get_active dicts entries lists dicts "t2" (some two)) ≡ "other" ∷ ("my-bidder" ∷ [])
unfolding get_active enabled_of get sort_by insert_by extract_family instance_match
    split_last_hyphen dict_set create_bidder exists save is_enabled validate_url without_prefix host
    in_label after_dot url_rest count_char post_init normalize_code hyphens keep_allowed collapse
    strip_left strip_right lower
active_codes = refl

create_bidder-get_bidder_example :
    ((accepts dicts entries lists dicts one (new_bidder "my bidder" 9) ≡ false)
      × ((e : ManagerError) × (create_bidder dicts entries lists dicts "t2"
              (some one)
              (new_bidder "my bidder" 9)
            ≡ (error e, some one))))
    ⊎ ((c : BidderConfig) × (after : Bidders) × (accepts dicts entries lists dicts one
            (new_bidder "my bidder" 9)
          ≡ true)
        × (create_bidder dicts entries lists dicts "t2" (some one) (new_bidder "my bidder" 9)
            ≡ (ok c, some after))
        × (lookup one.bidders c.bidder_code ≡ none)
        × (get_bidder dicts entries lists dicts "t2" (some after) c.bidder_code ≡ ok c)
        × ((k : String)
            → (c.bidder_code == k) ≡ false
            → lookup after.bidders k ≡ lookup one.bidders k))
create_bidder-get_bidder_example =
    create_bidder-get_bidder dicts entries lists dicts dicts-IsHash "t2" one
      (new_bidder "my bidder" 9)

generate_instance_code_fresh_example :
    let code = generate_instance_code dicts entries lists dicts "t2" (some two) "p1" "other" in
    (lookup two.bidders code ≡ none) × (lookup (two.pub_bidders "p1") code ≡ none)
unfolding instance_match split_last_hyphen before_newline count_char
generate_instance_code_fresh_example =
    generate_instance_code_fresh dicts entries lists dicts dicts-IsScan "t2" "p1" "other" two refl
      refl refl

instance_match-instance_code_example :
    instance_match (instance_code "rubicon" 12) ≡ some ("rubicon", 12)
unfolding count_char
instance_match-instance_code_example = instance_match-instance_code "rubicon" 12 refl refl

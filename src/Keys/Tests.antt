-- ===== src/Keys/Tests.antt =====
-- The key manager on hashes that are functions, and its theorems at small stores.
use thenexusengine.Common.{
  ◌≡◌, ◌≢◌, refl, ap, String, true, false, Option, none, some, [], ◌∷◌, arith, if◌then◌else◌, ◌==◌,
  string_eq,
}
use thenexusengine.Keys.Hash.{Hash, IsHash}
use thenexusengine.Keys.Manager.{
  Metadata, Store, KeyConfig, put_key, new_metadata, generate_key, revoke_key, validate_key,
  get_publisher_key, sync_configs, sync_from_publisher_configs,
}
use thenexusengine.Keys.Consistent.{IsConsistent}
use thenexusengine.Keys.Manage.{Steps, done, next, generates, Steps-IsConsistent}
use thenexusengine.Keys.Lifecycle.{validate_key-generate_key}

abbrev functions : {V : Type 0} → Hash (String → Option V) V
functions = record {
  hget = λ h k. h k;
  hset = λ h k v j. if k == j then some v else h j;
  hdel = λ h k j. if k == j then none else h j;
}

functions-IsHash : {V : Type 0} → IsHash (functions {V = V})
functions-IsHash = record { get_set = λ h k v j. refl; get_del = λ h k j. refl }

abbrev Keys : Type 0
Keys = Store (String → Option String) (String → Option Metadata)

abbrev empty : Keys
empty = record { api_keys = λ k. none; publisher_keys = λ p. none; key_meta = λ k. none }

empty-IsConsistent : IsConsistent functions functions empty
empty-IsConsistent = record {
  key_of = λ k p e. absurd (ground arith);
  publisher_of = λ p k e. absurd (ground arith);
  named = λ k p e. absurd (ground arith);
}

-- The store after a key was made for the publisher `p1`.
abbrev meta : Metadata
meta = new_metadata {K = String → Option String} functions functions "p1" "t0" "live"

abbrev one : Keys
one = put_key functions functions empty "nxs_live_r1" "p1" meta

run : Steps functions functions empty one
unfolding generate_key get_publisher_key
run = next (generates "nxs" "r1" "t0" "p1" "live" false refl refl refl) done

Steps-IsConsistent_example : IsConsistent functions functions one
Steps-IsConsistent_example =
    Steps-IsConsistent functions functions functions-IsHash empty one run empty-IsConsistent

one-IsConsistent : IsConsistent functions functions one
one-IsConsistent =
    Steps-IsConsistent functions functions functions-IsHash empty one run empty-IsConsistent

validate_key-generate_key_example :
    let after = (generate_key functions functions "nxs" "r2" "t1" (some one) "p1" "live" true).1 in
    ((validate_key functions functions "t2" after "nxs_live_r2").0 ≡ some "p1")
    × ((old : String)
        → one.publisher_keys "p1" ≡ some old
        → (validate_key functions functions "t2" after old).0 ≡ none)
validate_key-generate_key_example =
    validate_key-generate_key functions functions functions-IsHash functions-IsHash "nxs" "r2" "t1"
      "t2" "p1" "live" one one-IsConsistent refl refl

-- The configuration of `p1` names another key.
abbrev rotated : KeyConfig
rotated = record { publisher_id = "p1"; key = some "k2"; created_at = none; enabled = true }

differ : ◌≢◌ {A = String} "k2" "nxs_live_r1"
differ = λ e. absurd (ground (arith, ap (λ s. s == "k2") e))

-- Revoking the old key after the sync takes the new key from its publisher, yet the new key stays
-- valid.
revoked_after_sync :
    let synced =
      (sync_from_publisher_configs functions functions "t1" (some one) (rotated ∷ [])).1 in
    let after = (revoke_key functions functions synced "nxs_live_r1").1 in
    (get_publisher_key functions functions after "p1" ≡ none)
    × ((validate_key functions functions "t2" after "k2").0 ≡ some "p1")
unfolding sync_from_publisher_configs sync_configs revoke_key get_publisher_key validate_key
revoked_after_sync = (refl, refl)

-- ===== src/Keys/Manager.antt =====
-- src/idr/auth/api_keys.py: `APIKeyManager`, over the three hashes.
use thenexusengine.Common.{
  ℕ, ◌+◌, String, Bool, true, false, not, Option, none, some, List, [], ◌∷◌, if◌then◌else◌, ◌==◌,
  string_eq,
}
use Prim.Native.String
use mathlib.Core.Option
use thenexusengine.Keys.Hash.{Hash}

-- The metadata of a key. Its JSON text is written and read by the functions below alone, so that it
-- is modelled by the dictionary; `none` is a missing entry. A time is a text.
pub record Metadata : Type 0 where
  pub publisher_id : String
  pub created_at : String
  pub environment : Option String
  pub enabled : Option Bool
  pub request_count : Option ℕ
  pub last_used : Option String

-- `nexus:api_keys`, `nexus:publisher_keys` and `nexus:key_meta`.
pub record Store (K M : Type 0) : Type 0 where
  pub api_keys : K
  pub publisher_keys : K
  pub key_meta : M

pub record ApiKeyInfo : Type 0 where
  pub key : String
  pub publisher_id : String
  pub created_at : String
  pub last_used : Option String
  pub enabled : Bool
  pub request_count : ℕ

-- A text as a condition: None and the empty text are falsy.
abbrev pub truthy : Option String → Option String
truthy none = none
truthy (some s) = if s == "" then none else some s

abbrev pub new_key : String → String → String → String
new_key key_prefix environment random_part =
    let env_prefix = if environment == "live" then "live" else "test" in
    String.◌++◌ key_prefix (String.◌++◌ "_" (String.◌++◌ env_prefix (String.◌++◌ "_" random_part)))

-- The publisher and what its configuration says of its key.
pub record KeyConfig : Type 0 where
  pub publisher_id : String
  pub key : Option String
  pub created_at : Option String
  pub enabled : Bool

-- The store of the manager is `none` without a connection. A command that fails in a connection is
-- not modelled.
module _ {K M : Type 0} (texts : Hash K String) (metas : Hash M Metadata) where
  unfoldable pub get_publisher_key : Option (Store K M) → String → Option String
  get_publisher_key none publisher_id = none
  get_publisher_key (some st) publisher_id = texts.hget st.publisher_keys publisher_id

  -- The pipeline of three `hdel`.
  abbrev pub delete_key : Store K M → String → String → Store K M
  delete_key st api_key publisher_id = record {
    api_keys = texts.hdel st.api_keys api_key;
    publisher_keys = texts.hdel st.publisher_keys publisher_id;
    key_meta = metas.hdel st.key_meta api_key;
  }

  unfoldable pub revoke_key : Option (Store K M) → String → Bool × Option (Store K M)
  revoke_key none api_key = (false, none)
  revoke_key (some st) api_key = elim (truthy (texts.hget st.api_keys api_key)) [
    | none ↦ (false, some st)
    | some publisher_id ↦ (true, some (delete_key st api_key publisher_id))
  ]

  -- The pipeline of three `hset`.
  abbrev pub put_key : Store K M → String → String → Metadata → Store K M
  put_key st api_key publisher_id metadata = record {
    api_keys = texts.hset st.api_keys api_key publisher_id;
    publisher_keys = texts.hset st.publisher_keys publisher_id api_key;
    key_meta = metas.hset st.key_meta api_key metadata;
  }

  abbrev pub new_metadata : String → String → String → Metadata
  new_metadata publisher_id now environment = record {
    publisher_id = publisher_id;
    created_at = now;
    environment = some environment;
    enabled = some true;
    request_count = some 0;
    last_used = none;
  }

  -- `generate_key`, with the random text and the time that it takes.
  unfoldable pub generate_key :
      String
      → String
      → String
      → Option (Store K M)
      → String
      → String
      → Bool
      → Option String × Option (Store K M)
  generate_key key_prefix random_part now none publisher_id environment replace = (none, none)
  generate_key key_prefix random_part now (some st) publisher_id environment replace =
      let api_key = new_key key_prefix environment random_part in
      let metadata = new_metadata publisher_id now environment in
      elim (truthy (get_publisher_key (some st) publisher_id)) [
        | none ↦ (some api_key, some (put_key st api_key publisher_id metadata))
        | some existing ↦ if not replace then (some existing, some st) else (
          some api_key,
          Option.map (λ cleared. put_key cleared api_key publisher_id metadata)
              (revoke_key (some st) existing).1,
        )
      ]

  unfoldable pub validate_key :
      String → Option (Store K M) → String → Option String × Option (Store K M)
  validate_key now none api_key = (none, none)
  validate_key now (some st) api_key =
      if api_key == "" then (none, some st) else elim (truthy (texts.hget st.api_keys api_key)) [
        | none ↦ (texts.hget st.api_keys api_key, some st)
        | some publisher_id ↦ elim (metas.hget st.key_meta api_key) [
          | none ↦ (some publisher_id, some st)
          | some meta ↦ if not (Option.get_or meta.enabled true) then (none, some st) else (
            some publisher_id,
            some (record st {
              key_meta = metas.hset st.key_meta api_key (record meta {
                last_used = some now;
                request_count = some (Option.get_or meta.request_count 0 + 1);
              });
            }),
          )
        ]
      ]

  unfoldable pub get_key_info : Option (Store K M) → String → Option ApiKeyInfo
  get_key_info none api_key = none
  get_key_info (some st) api_key = elim (truthy (texts.hget st.api_keys api_key)) [
    | none ↦ none
    | some publisher_id ↦ elim (metas.hget st.key_meta api_key) [
      | none ↦ some (record {
        key = api_key;
        publisher_id = publisher_id;
        created_at = "";
        last_used = none;
        enabled = true;
        request_count = 0;
      })
      | some meta ↦ some (record {
        key = api_key;
        publisher_id = publisher_id;
        created_at = meta.created_at;
        last_used = meta.last_used;
        enabled = Option.get_or meta.enabled true;
        request_count = Option.get_or meta.request_count 0;
      })
    ]
  ]

  -- `disable_key` and `enable_key`, which differ in the value that they set.
  unfoldable pub set_enabled : Bool → Option (Store K M) → String → Bool × Option (Store K M)
  set_enabled enabled none api_key = (false, none)
  set_enabled enabled (some st) api_key = elim (metas.hget st.key_meta api_key) [
    | none ↦ (false, some st)
    | some meta ↦ (
      true,
      some (record st {
        key_meta = metas.hset st.key_meta api_key (record meta { enabled = some enabled });
      }),
    )
  ]

  abbrev pub disable_key : Option (Store K M) → String → Bool × Option (Store K M)
  disable_key = set_enabled false

  abbrev pub enable_key : Option (Store K M) → String → Bool × Option (Store K M)
  enable_key = set_enabled true

  -- The metadata of a key that a configuration names.
  abbrev pub config_metadata : String → KeyConfig → Metadata
  config_metadata now config = record {
    publisher_id = config.publisher_id;
    created_at = Option.get_or (truthy config.created_at) now;
    environment = none;
    enabled = some config.enabled;
    request_count = some 0;
    last_used = none;
  }

  -- One round of `sync_from_publisher_configs`.
  abbrev pub sync_config : String → Store K M → KeyConfig → Bool × Store K M
  sync_config now st config = elim (truthy config.key) [
    | none ↦ (false, st)
    | some api_key ↦ (true, put_key st api_key config.publisher_id (config_metadata now config))
  ]

  unfoldable pub sync_configs : String → Store K M → List KeyConfig → ℕ × Store K M
  sync_configs now st [] = (0, st)
  sync_configs now st (config ∷ configs) =
      let (stored, after) = sync_config now st config in
      let (synced, last) = sync_configs now after configs in
      (if stored then synced + 1 else synced, last)

  unfoldable pub sync_from_publisher_configs :
      String → Option (Store K M) → List KeyConfig → ℕ × Option (Store K M)
  sync_from_publisher_configs now none configs = (0, none)
  sync_from_publisher_configs now (some st) configs =
      let (synced, last) = sync_configs now st configs in (synced, some last)

-- ===== src/Keys/Lifecycle.antt =====
-- What becomes of a key: generated, disabled, enabled, revoked, and left over by a sync.
use thenexusengine.Common.{
  ◌≡◌, ◌≢◌, refl, sym, ap, ◌∙◌, inl, inr, String, Bool, true, false, Option, none, some, List, [],
  ◌∷◌, All, arith, Bool-cases, Option-cases, if◌then◌else◌, ◌==◌, string_eq,
}
use thenexusengine.Common.Members.{eq_of_beq, eq_self}
use thenexusengine.Keys.Hash.{Hash, IsHash}
use thenexusengine.Keys.Manager.{
  Metadata, Store, KeyConfig, ApiKeyInfo, delete_key, put_key, new_key, new_metadata, generate_key,
  revoke_key, validate_key, get_key_info, set_enabled, get_publisher_key, sync_config, sync_configs,
  config_metadata, sync_from_publisher_configs,
}
use thenexusengine.Keys.Consistent.{IsConsistent}
use thenexusengine.Keys.Manage.{new_key-nonempty, revoke_key-some}

module _ {K M : Type 0} (texts : Hash K String) (metas : Hash M Metadata) where
  -- The publisher of a key whose information says that it is enabled.
  abbrev enabled_publisher : Option ApiKeyInfo → Option String
  enabled_publisher none = none
  enabled_publisher (some info) = if info.enabled then some info.publisher_id else none

  -- In a consistent store, a key is valid for the publisher that `get_key_info` shows, if it shows
  -- the key as enabled, and not valid else.
  pub validate_key-get_key_info :
      (now : String) (st : Store K M) (k : String)
      → IsConsistent texts metas st
      → (validate_key texts metas now (some st) k).0
        ≡ enabled_publisher (get_key_info texts metas (some st) k)
  unfolding validate_key get_key_info
  validate_key-get_key_info now st k h = elim (Option-cases (texts.hget st.api_keys k)) [
    | inl absent ↦ ground arith
    | inr (p, own) ↦ let (kn, pn) = h.named k p own in ground arith
  ]

  module _ (laws : IsHash texts) (meta_laws : IsHash metas) where
    -- In a consistent store, a key with metadata is valid after `enable_key` and not valid after
    -- `disable_key`.
    pub validate_key-set_enabled :
        (now : String) (enabled : Bool) (st : Store K M) (k p : String) (m : Metadata)
        → IsConsistent texts metas st
        → texts.hget st.api_keys k ≡ some p
        → metas.hget st.key_meta k ≡ some m
        → (validate_key texts metas now (set_enabled texts metas enabled (some st) k).1 k).0
          ≡ (if enabled then some p else none)
    unfolding validate_key set_enabled
    validate_key-set_enabled now enabled st k p m h own has =
        let (kn, pn) = h.named k p own in
        let read = meta_laws.get_set st.key_meta k (record m { enabled = some enabled }) k in
        let self = eq_self k in ground arith

    -- In a consistent store, a key is not valid once it was revoked.
    pub validate_key-revoke_key :
        (now : String) (st : Store K M) (k : String)
        → IsConsistent texts metas st
        → (validate_key texts metas now (revoke_key texts metas (some st) k).1 k).0 ≡ none
    unfolding validate_key revoke_key
    validate_key-revoke_key now st k h = elim (Option-cases (texts.hget st.api_keys k)) [
      | inl absent ↦ ground arith
      | inr (p, own) ↦
          let (kn, pn) = h.named k p own in
          let gone = laws.get_del st.api_keys k k in let self = eq_self k in ground arith
    ]

    validate_key-put_key :
        (now p k : String) (st : Store K M) (m : Metadata)
        → (k == "") ≡ false
        → (p == "") ≡ false
        → m.enabled ≡ some true
        → (validate_key texts metas now (some (put_key texts metas st k p m)) k).0 ≡ some p
    unfolding validate_key
    validate_key-put_key now p k st m kn pn on =
        let owner = laws.get_set st.api_keys k p k in
        let read = meta_laws.get_set st.key_meta k m k in let self = eq_self k in ground arith

    validate_key-replaced :
        (now p k old : String) (st : Store K M) (m : Metadata)
        → (k == old) ≡ false
        → (validate_key texts metas now
            (some (put_key texts metas (delete_key texts metas st old p) k p m))
            old).0
          ≡ none
    unfolding validate_key
    validate_key-replaced now p k old st m apart =
        let owner = laws.get_set (texts.hdel st.api_keys old) k p old in
        let gone = laws.get_del st.api_keys old old in let self = eq_self old in ground arith

    -- With `replace_existing`, in a consistent store, a new key that is not in use is valid for its
    -- publisher, whose name is not empty, and the key that the publisher had before is not valid any
    -- more.
    pub validate_key-generate_key :
        (key_prefix random_part now later p environment : String) (st : Store K M)
        → IsConsistent texts metas st
        → (p == "") ≡ false
        → texts.hget st.api_keys (new_key key_prefix environment random_part) ≡ none
        → let after =
            (generate_key texts metas key_prefix random_part now (some st) p environment true).1 in
          ((validate_key texts metas later after (new_key key_prefix environment random_part)).0
            ≡ some p)
          × ((old : String)
              → texts.hget st.publisher_keys p ≡ some old
              → (validate_key texts metas later after old).0 ≡ none)
    unfolding validate_key generate_key get_publisher_key
    validate_key-generate_key x r now later p env st h pn fresh =
        let k : String = new_key x env r in
        let kn = new_key-nonempty x env r in
        let m = new_metadata texts metas p now env in
        elim (Option-cases (texts.hget st.publisher_keys p)) [
          | inl free ↦
              let is : (generate_key texts metas x r now (some st) p env true).1
                  ≡ some (put_key texts metas st k p m) =
                ground arith in
              (
                ap (λ s. (validate_key texts metas later s k).0) is
                    ∙ validate_key-put_key later p k st m kn pn refl,
                λ old own. absurd (ground arith),
              )
          | inr (old, own) ↦
              let held = h.publisher_of p old own in
              let (old_named, _) = h.named old p held in
              let cleared : Store K M = delete_key texts metas st old p in
              let revoked = revoke_key-some texts metas laws st old p h held in
              let is : (generate_key texts metas x r now (some st) p env true).1
                  ≡ some (put_key texts metas cleared k p m) =
                ground arith in
              (
                ap (λ s. (validate_key texts metas later s k).0) is
                    ∙ validate_key-put_key later p k cleared m kn pn refl,
                λ other mine.
                    let one : old ≡ other = ground arith in
                    ap (λ s. (validate_key texts metas later s other).0) is
                    ∙ ap
                        (λ o.
                          (validate_key texts metas later (some (put_key texts metas cleared k p m))
                            o).0)
                        (sym one)
                    ∙ validate_key-replaced later p k old st m (elim (Bool-cases (k == old)) [
                      | inl same ↦
                          let moved = ap (texts.hget st.api_keys) (eq_of_beq k old same) in
                          absurd (ground arith)
                      | inr n ↦ n
                    ]),
              )
        ]

  module _ (laws : IsHash texts) (meta_laws : IsHash metas) where
    -- What a sync leaves of a key that it does not name.
    sync_configs-keeps :
        (now k : String) (configs : List KeyConfig) (st : Store K M)
        → All (λ config. config.key ≢ some k) configs
        → (texts.hget (sync_configs texts metas now st configs).1.api_keys k
            ≡ texts.hget st.api_keys k)
          × (metas.hget (sync_configs texts metas now st configs).1.key_meta k
              ≡ metas.hget st.key_meta k)
    unfolding sync_configs
    sync_configs-keeps now k [] st others = (refl, refl)
    sync_configs-keeps now k (config ∷ configs) st (other, others) =
        let (keys, meta) =
          sync_configs-keeps now k configs (sync_config texts metas now st config).1 others in
        elim (Option-cases config.key) [
          | inl absent ↦ ground arith
          | inr (j, some_key) ↦
              let apart : (j == k) ≡ false = elim (Bool-cases (j == k)) [
                | inl same ↦ absurd (other (some_key ∙ ap some (eq_of_beq j k same)))
                | inr n ↦ n
              ] in
              let set_key = laws.get_set st.api_keys j config.publisher_id k in
              let set_meta : (m : Metadata)
                  → metas.hget (metas.hset st.key_meta j m) k ≡ metas.hget st.key_meta k =
                λ m. meta_laws.get_set st.key_meta j m k ∙ rw apart refl in
              let stored = set_meta (config_metadata texts metas now config) in
              elim (Bool-cases (j == "")) [ inl empty ↦ ground arith | inr real ↦ ground arith ]
        ]

    -- A sync leaves a key that no configuration names as valid as it was, also the old key of a
    -- publisher whose configuration names another key.
    pub validate_key-sync :
        (now later k : String) (configs : List KeyConfig) (st : Store K M)
        → All (λ config. config.key ≢ some k) configs
        → (validate_key texts metas later
            (sync_from_publisher_configs texts metas now (some st) configs).1
            k).0
          ≡ (validate_key texts metas later (some st) k).0
    unfolding validate_key sync_from_publisher_configs
    validate_key-sync now later k configs st others =
        let (keys, meta) = sync_configs-keeps now k configs st others in ground arith

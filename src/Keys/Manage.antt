-- ===== src/Keys/Manage.antt =====
-- The operations of the key manager keep its store consistent, but for the one that syncs.
use thenexusengine.Common.{
  ◌≡◌, refl, ap, subst, inl, inr, String, Bool, true, false, none, some, arith, Bool-cases,
  Option-cases, if◌then◌else◌, ◌==◌, string_eq,
}
use Prim.Native.String.{len, ◌++◌}
use text.Mathlib.TextPositions.{len-append}
use thenexusengine.Common.Members.{eq_of_beq, eq_self}
use thenexusengine.Keys.Hash.{Hash, IsHash}
use thenexusengine.Keys.Manager.{
  Metadata, Store, truthy, delete_key, put_key, new_key, new_metadata, generate_key, revoke_key,
  validate_key, set_enabled, get_publisher_key,
}
use thenexusengine.Keys.Consistent.{IsConsistent, delete_key-IsConsistent, put_key-IsConsistent}

pub new_key-nonempty :
    (key_prefix environment random_part : String)
    → (new_key key_prefix environment random_part == "") ≡ false
new_key-nonempty key_prefix environment random_part =
    let env_prefix : String = if environment == "live" then "live" else "test" in
    let rest = env_prefix ++ ("_" ++ random_part) in
    elim (Bool-cases (new_key key_prefix environment random_part == "")) [
      | inr some_text ↦ some_text
      | inl empty ↦
          let no_text = ap len (eq_of_beq (new_key key_prefix environment random_part) "" empty) in
          absurd (omega (arith, no_text, len-append key_prefix ("_" ++ rest), len-append "_" rest))
    ]

truthy_named : (s : String) → (s == "") ≡ false → truthy (some s) ≡ some s
truthy_named s n = rw n refl

module _ {K M : Type 0} (texts : Hash K String) (metas : Hash M Metadata) where
  -- A step of the manager, with a random text whose key is new.
  pub data Step : Store K M → Store K M → Type 0 where
    generates :
        (key_prefix random_part now publisher_id environment : String) (replace : Bool)
        {st after : Store K M}
        → (publisher_id == "") ≡ false
        → texts.hget st.api_keys (new_key key_prefix environment random_part) ≡ none
        → (generate_key texts metas key_prefix random_part now
            (some st)
            publisher_id
            environment
            replace).1
          ≡ some after
        → Step st after
    validates :
        (now api_key : String) {st after : Store K M}
        → (validate_key texts metas now (some st) api_key).1 ≡ some after
        → Step st after
    revokes :
        (api_key : String) {st after : Store K M}
        → (revoke_key texts metas (some st) api_key).1 ≡ some after
        → Step st after
    enables :
        (enabled : Bool) (api_key : String) {st after : Store K M}
        → (set_enabled texts metas enabled (some st) api_key).1 ≡ some after
        → Step st after

  -- A run of the manager.
  pub data Steps : Store K M → Store K M → Type 0 where
    done : {st : Store K M} → Steps st st
    next : {st middle after : Store K M} → Step st middle → Steps middle after → Steps st after

  IsConsistent-same :
      (st after : Store K M)
      → after.api_keys ≡ st.api_keys
      → after.publisher_keys ≡ st.publisher_keys
      → IsConsistent texts metas st
      → IsConsistent texts metas after
  IsConsistent-same st after keys publishers h = record {
    key_of = λ k p e.
        let key = h.key_of k p in
        ground (arith, ap (λ m. texts.hget m k) keys, ap (λ m. texts.hget m p) publishers);
    publisher_of = λ p k e.
        let publisher = h.publisher_of p k in
        ground (arith, ap (λ m. texts.hget m k) keys, ap (λ m. texts.hget m p) publishers);
    named = λ k p e. let names = h.named k p in ground (arith, ap (λ m. texts.hget m k) keys);
  }

  module _ (laws : IsHash texts) where
    pub revoke_key-some :
        (st : Store K M) (k p : String)
        → IsConsistent texts metas st
        → texts.hget st.api_keys k ≡ some p
        → revoke_key texts metas (some st) k ≡ (true, some (delete_key texts metas st k p))
    unfolding revoke_key
    revoke_key-some st k p h own = let (_, named) = h.named k p own in ground arith

    -- The store after `generate_key`: as it was, or with the new key in the place of the old one.
    generate_key-IsConsistent :
        (key_prefix random_part now publisher_id environment : String) (replace : Bool)
        (st after : Store K M)
        → IsConsistent texts metas st
        → (publisher_id == "") ≡ false
        → texts.hget st.api_keys (new_key key_prefix environment random_part) ≡ none
        → (generate_key texts metas key_prefix random_part now
            (some st)
            publisher_id
            environment
            replace).1
          ≡ some after
        → IsConsistent texts metas after
    unfolding generate_key get_publisher_key
    generate_key-IsConsistent x r now p env replace st after h pn fresh e =
        let k : String = new_key x env r in
        let kn = new_key-nonempty x env r in
        let m = new_metadata texts metas p now env in
        elim (Option-cases (texts.hget st.publisher_keys p)) [
          | inl free ↦
              let is : put_key texts metas st k p m ≡ after = ground arith in
              subst (IsConsistent texts metas) is
                (put_key-IsConsistent texts metas laws st k p m h fresh free kn pn)
          | inr (old, own) ↦
              let held = h.publisher_of p old own in
              let (old_named, _) = h.named old p held in
              elim (Bool-cases replace) [
                | inl replaces ↦
                    let cleared : Store K M = delete_key texts metas st old p in
                    let revoked = revoke_key-some st old p h held in
                    let is : put_key texts metas cleared k p m ≡ after = ground arith in
                    let gone = laws.get_del st.api_keys old k in
                    let freed = laws.get_del st.publisher_keys p p in
                    let self = eq_self p in
                    subst (IsConsistent texts metas) is (
                      put_key-IsConsistent texts metas laws cleared k p m
                        (delete_key-IsConsistent texts metas laws st old p h held) (ground arith)
                        (ground arith) kn pn)
                | inr keeps ↦
                    let is : st ≡ after = ground arith in subst (IsConsistent texts metas) is h
              ]
        ]

    Step-IsConsistent :
        (st after : Store K M)
        → Step st after
        → IsConsistent texts metas st
        → IsConsistent texts metas after
    unfolding validate_key revoke_key set_enabled
    Step-IsConsistent st after (generates x r now p env replace pn fresh e) h =
        generate_key-IsConsistent x r now p env replace st after h pn fresh e
    Step-IsConsistent st after (validates now k e) h =
        IsConsistent-same st after (ground arith) (ground arith) h
    Step-IsConsistent st after (revokes k e) h = elim (Option-cases (texts.hget st.api_keys k)) [
      | inl absent ↦ let is : st ≡ after = ground arith in subst (IsConsistent texts metas) is h
      | inr (p, own) ↦
          let (_, pn) = h.named k p own in
          let is : delete_key texts metas st k p ≡ after = ground arith in
          subst (IsConsistent texts metas) is
            (delete_key-IsConsistent texts metas laws st k p h own)
    ]
    Step-IsConsistent st after (enables enabled k e) h =
        IsConsistent-same st after (ground arith) (ground arith) h

    -- Every run of the operations but the sync keeps the maps of keys and publishers inverse to each
    -- other, if each generated key is new and no publisher's name is empty: no two keys are valid
    -- for one publisher.
    pub Steps-IsConsistent :
        (st after : Store K M)
        → Steps st after
        → IsConsistent texts metas st
        → IsConsistent texts metas after
    Steps-IsConsistent st _ done h = h
    Steps-IsConsistent st after (next {middle} s more) h =
        Steps-IsConsistent middle after more (Step-IsConsistent st middle s h)

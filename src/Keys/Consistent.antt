-- ===== src/Keys/Consistent.antt =====
-- The two maps of the key store stay inverse to each other.
use thenexusengine.Common.{
  ◌≡◌, sym, ap, ◌∙◌, inl, inr, String, false, none, some, arith, Bool-cases, ◌==◌, string_eq,
}
use thenexusengine.Common.Members.{eq_of_beq, eq_self}
use thenexusengine.Keys.Hash.{Hash, IsHash}
use thenexusengine.Keys.Manager.{Metadata, Store, delete_key, put_key}

module _ {K M : Type 0} (texts : Hash K String) (metas : Hash M Metadata) where
  -- A key belongs to a publisher exactly when it is the publisher's key, and neither is empty.
  pub record IsConsistent (st : Store K M) : Type 0 where
    pub key_of :
        (k p : String) → texts.hget st.api_keys k ≡ some p → texts.hget st.publisher_keys p ≡ some k
    pub publisher_of :
        (p k : String) → texts.hget st.publisher_keys p ≡ some k → texts.hget st.api_keys k ≡ some p
    pub named :
        (k p : String)
        → texts.hget st.api_keys k ≡ some p
        → ((k == "") ≡ false) × ((p == "") ≡ false)

  module _ (laws : IsHash texts) where
    pub delete_key-IsConsistent :
        (st : Store K M) (k p : String)
        → IsConsistent st
        → texts.hget st.api_keys k ≡ some p
        → IsConsistent (delete_key texts metas st k p)
    delete_key-IsConsistent st k p h own =
        let mine = h.key_of k p own in
        record {
          key_of = λ j q e.
              let other = laws.get_del st.api_keys k j in
              let gone = laws.get_del st.publisher_keys p q in
              elim (Bool-cases (p == q)) [
                | inl same ↦
                    let moved = ap (texts.hget st.publisher_keys) (eq_of_beq p q same) in
                    let back = h.key_of j q (ground arith) in
                    let keys : k ≡ j = ground arith in
                    let self = sym (ap (λ x. k == x) keys) ∙ eq_self k in absurd (ground arith)
                | inr apart ↦ let back = h.key_of j q (ground arith) in ground arith
              ];
          publisher_of = λ q j e.
              let other = laws.get_del st.api_keys k j in
              let gone = laws.get_del st.publisher_keys p q in
              elim (Bool-cases (k == j)) [
                | inl same ↦
                    let moved = ap (texts.hget st.api_keys) (eq_of_beq k j same) in
                    let back = h.publisher_of q j (ground arith) in
                    let owners : p ≡ q = ground arith in
                    let self = sym (ap (λ x. p == x) owners) ∙ eq_self p in absurd (ground arith)
                | inr apart ↦ let back = h.publisher_of q j (ground arith) in ground arith
              ];
          named = λ j q e. let other = laws.get_del st.api_keys k j in h.named j q (ground arith);
        }

    pub put_key-IsConsistent :
        (st : Store K M) (k p : String) (m : Metadata)
        → IsConsistent st
        → texts.hget st.api_keys k ≡ none
        → texts.hget st.publisher_keys p ≡ none
        → (k == "") ≡ false
        → (p == "") ≡ false
        → IsConsistent (put_key texts metas st k p m)
    put_key-IsConsistent st k p m h fresh free key_named named = record {
      key_of = λ j q e.
          let get = laws.get_set st.api_keys k p j in
          let put = laws.get_set st.publisher_keys p k q in
          elim (Bool-cases (k == j)) [
            | inl same ↦
                let keys = eq_of_beq k j same in
                let owners : p ≡ q = ground arith in
                let self = sym (ap (λ x. p == x) owners) ∙ eq_self p in ground arith
            | inr apart ↦
                let back = h.key_of j q (ground arith) in
                elim (Bool-cases (p == q)) [
                  | inl same ↦
                      let moved = ap (texts.hget st.publisher_keys) (eq_of_beq p q same) in
                      absurd (ground arith)
                  | inr other ↦ ground arith
                ]
          ];
      publisher_of = λ q j e.
          let get = laws.get_set st.api_keys k p j in
          let put = laws.get_set st.publisher_keys p k q in
          elim (Bool-cases (p == q)) [
            | inl same ↦
                let owners = eq_of_beq p q same in
                let keys : k ≡ j = ground arith in
                let self = sym (ap (λ x. k == x) keys) ∙ eq_self k in ground arith
            | inr apart ↦
                let back = h.publisher_of q j (ground arith) in
                elim (Bool-cases (k == j)) [
                  | inl same ↦
                      let moved = ap (texts.hget st.api_keys) (eq_of_beq k j same) in
                      absurd (ground arith)
                  | inr other ↦ ground arith
                ]
          ];
      named = λ j q e.
          let get = laws.get_set st.api_keys k p j in
          elim (Bool-cases (k == j)) [
            | inl same ↦
                let keys = eq_of_beq k j same in
                let owners : p ≡ q = ground arith in
                (sym (ap (λ x. x == "") keys) ∙ key_named, sym (ap (λ x. x == "") owners) ∙ named)
            | inr apart ↦ h.named j q (ground arith)
          ];
    }

-- ===== src/Privacy/Tcf/Parse.antt =====
-- What a parsed TCF consent grants, and when it grants nothing.
use thenexusengine.Common.{
  ℕ, ◌≤◌, ◌<◌, ◌≡◌, ◌↔◌, ◌⊎◌, inl, inr, String, true, Option, none, some, arith, nat_eq, string_eq,
  ◌==◌, eq_iff, Option-cases, Bool-cases, ap, is_some, ◌||◌,
}
use thenexusengine.Common.Members.{contains}
use thenexusengine.Privacy.Tcf.{
  allowed, failed, Decoded, Decoder, TcfConsent, no_consent, collect, collect_until, extract,
  parse_with_iab_tcf, parse, has_vendor_consent,
}
use thenexusengine.Privacy.Tcf.Collect.{
  collect_sound, collect_complete, collect-failed, collect_until_sound,
}

-- What the installed decoder reads in a text.
abbrev pub decoded : Decoder → String → Option Decoded
decoded none s = none
decoded (some decode) s = decode s

-- The ways in which a text cannot be read.
pub data Unreadable (decoder : Decoder) (s : String) : Type 0 where
  undecoded : decoded decoder s ≡ none → Unreadable decoder s
  purpose_failed :
      (c : Decoded) (i : ℕ)
      → decoded decoder s ≡ some c
      → 1 ≤ i
      → i ≤ 11
      → c.is_purpose_allowed i ≡ failed
      → Unreadable decoder s
  interest_failed :
      (c : Decoded) (i : ℕ)
      → decoded decoder s ≡ some c
      → 1 ≤ i
      → i ≤ 11
      → c.is_purpose_legitimate_interest_allowed i ≡ failed
      → Unreadable decoder s
  feature_failed :
      (c : Decoded) (i : ℕ)
      → decoded decoder s ≡ some c
      → 1 ≤ i
      → i ≤ 2
      → c.is_special_feature_allowed i ≡ failed
      → Unreadable decoder s

-- A text is read by the decoder or taken as no consent.
parse-cases :
    (decoder : Decoder) (s : String)
    → (parse decoder s ≡ no_consent s)
      ⊎ ((c : Decoded) × (decoded decoder s ≡ some c) × (extract s c ≡ some (parse decoder s)))
unfolding parse parse_with_iab_tcf
parse-cases none s = inl (ground (arith, eq_iff s ""))
parse-cases (some decode) s = elim (Bool-cases (s == "")) [
  | inl empty ↦ inl (ground (arith, eq_iff s ""))
  | inr full ↦ elim (Option-cases (decode s)) [
    | inl raised ↦ inl (ground arith)
    | inr (c, e) ↦ elim (Option-cases (extract s c)) [
      | inl stopped ↦ inl (ground arith)
      | inr (t, read) ↦ inr (c, e, ground arith)
    ]
  ]
]

-- A field of what was extracted is what its loop collected.
extract-parts :
    (s : String) (c : Decoded) (t : TcfConsent)
    → extract s c ≡ some t
    → (collect c.is_purpose_allowed 11 1 ≡ some t.purpose_consent)
      × (collect_until c.is_vendor_allowed 1000 1 ≡ some t.vendor_consent)
      × (collect c.is_purpose_legitimate_interest_allowed 11 1 ≡ some t.legitimate_interest)
      × (is_some (collect c.is_special_feature_allowed 2 1) ≡ true)
      × (t.has_consent ≡ (contains t.purpose_consent 1 || contains t.legitimate_interest 1))
unfolding extract
extract-parts s c t h = ground arith

not-Unreadable :
    (decoder : Decoder) (s : String) (c : Decoded) (t : TcfConsent)
    → decoded decoder s ≡ some c
    → extract s c ≡ some t
    → ¬ Unreadable decoder s
not-Unreadable decoder s c t e read (undecoded h) = cc
not-Unreadable decoder s c t e read (purpose_failed c' i e' lo hi f) =
    let parts = extract-parts s c t read in
    cc (parts.0, collect-failed c'.is_purpose_allowed 11 1 i lo (omega arith) f)
not-Unreadable decoder s c t e read (interest_failed c' i e' lo hi f) =
    let parts = extract-parts s c t read in
    cc (parts.2, collect-failed c'.is_purpose_legitimate_interest_allowed 11 1 i lo (omega arith) f)
not-Unreadable decoder s c t e read (feature_failed c' i e' lo hi f) =
    let parts = extract-parts s c t read in
    let stopped = collect-failed c'.is_special_feature_allowed 2 1 i lo (omega arith) f in
    ground (arith, parts)

module _ (decoder : Decoder) (s : String) where
  -- A text that cannot be read, for want of the package, by an exception of the decoder or by an
  -- unexpected exception of a query for a purpose, an interest or a feature, gives no consent.
  pub parse_fails_closed : Unreadable decoder s → parse decoder s ≡ no_consent s
  parse_fails_closed u = elim (parse-cases decoder s) [
    | inl nothing ↦ nothing
    | inr (c, e, read) ↦ absurd (not-Unreadable decoder s c _ e read u)
  ]

  -- Where there is consent, the text was read.
  read_of_has_consent :
      (parse decoder s).has_consent ≡ true
      → (c : Decoded) × (decoded decoder s ≡ some c) × (extract s c ≡ some (parse decoder s))
  read_of_has_consent h = elim (parse-cases decoder s) [
    | inl nothing ↦ absurd (cc (ap (λ t. t.has_consent) nothing))
    | inr r ↦ r
  ]

  -- Where a parsed text has consent, a purpose is in it exactly when the purpose is one of 1 to 11
  -- and the decoder allows it.
  pub purpose_consent-parse :
      (c : Decoded) (i : ℕ)
      → decoded decoder s ≡ some c
      → (parse decoder s).has_consent ≡ true
      → (contains (parse decoder s).purpose_consent i ≡ true)
        ↔ ((1 ≤ i) × (i < 12) × (c.is_purpose_allowed i ≡ allowed))
  purpose_consent-parse c i e h =
      let (c', e', read) = read_of_has_consent h in
      let same : c' ≡ c = cc in
      let collected = (extract-parts s c _ (rw same at read)).0 in
      (collect_sound _ 11 1 _ i collected, collect_complete _ 11 1 _ i collected)

  -- Consent for a vendor is never assumed: the decoder allowed the vendor in this very text, the
  -- vendor is one of 1 to 1000, and purpose 1 is allowed by consent or by legitimate interest.
  pub has_vendor_consent-parse :
      (v : ℕ)
      → has_vendor_consent (parse decoder s) v ≡ true
      → (c : Decoded) × (decoded decoder s ≡ some c)
        × (c.is_vendor_allowed v ≡ allowed)
        × (1 ≤ v)
        × (v ≤ 1000)
        × ((c.is_purpose_allowed 1 ≡ allowed)
            ⊎ (c.is_purpose_legitimate_interest_allowed 1 ≡ allowed))
  unfolding has_vendor_consent
  has_vendor_consent-parse v h =
      let (c, e, read) = read_of_has_consent (ground arith) in
      let (purposes, vendors, interests, _, basic) = extract-parts s c _ read in
      let granted = collect_until_sound _ 1000 1 _ v vendors (ground arith) in
      let by_purpose = collect_sound _ 11 1 _ 1 purposes in
      let by_interest = collect_sound _ 11 1 _ 1 interests in
      (c, e, granted.2, granted.0, omega arith, ground (arith, by_purpose, by_interest))

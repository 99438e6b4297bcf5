-- ===== src/Privacy/Tcf/Collect.antt =====
-- The loops over purposes, vendors and features, against the answers of the decoder.
use thenexusengine.Common.{
  ℕ, zero, suc, ◌+◌, ◌≤◌, ◌<◌, ◌≡◌, inl, inr, true, none, some, List, arith, nat_eq, string_eq,
  same_nat_iff, Option-cases,
}
use thenexusengine.Common.Members.{contains}
use thenexusengine.Privacy.Tcf.{Answer, allowed, failed, collect, collect_until}

module _ (ask : ℕ → Answer) where
  abbrev pub Granted : ℕ → ℕ → ℕ → Type 0
  Granted n id i = (id ≤ i) × (i < id + n) × (ask i ≡ allowed)

  pub collect_sound :
      (n id : ℕ) (out : List ℕ) (i : ℕ)
      → collect ask n id ≡ some out
      → contains out i ≡ true
      → Granted n id i
  unfolding collect
  collect_sound zero id out i e m = absurd (ground arith)
  collect_sound (suc n) id out i e m = elim (Option-cases (collect ask n (id + 1))) [
    | inl stopped ↦ absurd (ground arith)
    | inr (rest, more) ↦ ground (arith, collect_sound n (id + 1) rest i more, same_nat_iff id i)
  ]

  pub collect_complete :
      (n id : ℕ) (out : List ℕ) (i : ℕ)
      → collect ask n id ≡ some out
      → Granted n id i
      → contains out i ≡ true
  unfolding collect
  collect_complete zero id out i e g = absurd (omega arith)
  collect_complete (suc n) id out i e g = elim (Option-cases (collect ask n (id + 1))) [
    | inl stopped ↦ absurd (ground arith)
    | inr (rest, more) ↦ ground (
      arith,
      λ (h : id + 1 ≤ i). collect_complete n (id + 1) rest i more (h, omega arith, g.2),
      same_nat_iff id i,
    )
  ]

  pub collect-failed : (n id i : ℕ) → id ≤ i → i < id + n → ask i ≡ failed → collect ask n id ≡ none
  unfolding collect
  collect-failed zero id i h k f = absurd (omega arith)
  collect-failed (suc n) id i h k f = ground (arith, collect-failed n (id + 1) i)

  pub collect_until_sound :
      (n id : ℕ) (out : List ℕ) (i : ℕ)
      → collect_until ask n id ≡ some out
      → contains out i ≡ true
      → Granted n id i
  unfolding collect_until
  collect_until_sound zero id out i e m = absurd (ground arith)
  collect_until_sound (suc n) id out i e m = elim (Option-cases (collect_until ask n (id + 1))) [
    | inl stopped ↦ absurd (ground arith)
    | inr (rest, more) ↦
        ground (arith, collect_until_sound n (id + 1) rest i more, same_nat_iff id i)
  ]

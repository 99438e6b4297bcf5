-- ===== src/Privacy/Filter/Summary.antt =====
-- The counts of `get_privacy_summary`.
use thenexusengine.Common.{
  ℕ, ◌+◌, ◌≡◌, String, Bool, false, List, [], ◌∷◌, arith, length, filter, if◌then◌else◌, string_eq,
  ◌==◌, nat_eq, not, eq_iff, length-filter-le,
}
use thenexusengine.Common.Members.{lookup}
use mathlib.Core.Option
use thenexusengine.Privacy.Signals.{ConsentSignals}
use thenexusengine.Privacy.Filter.{
  PrivacyFilterResult, reason_name, count_in, count_reasons, get_privacy_summary,
}

abbrev pub sum_counts : List (String × ℕ) → ℕ
sum_counts [] = 0
sum_counts ((k, n) ∷ m) = n + sum_counts m

sum_counts-count_in :
    (name : String) (m : List (String × ℕ)) → sum_counts (count_in name m) ≡ sum_counts m + 1
unfolding count_in
sum_counts-count_in name [] = omega arith
sum_counts-count_in name ((k, n) ∷ m) = ground (arith, sum_counts-count_in name m)

sum_counts-count_reasons :
    (rs : List PrivacyFilterResult) (m : List (String × ℕ))
    → sum_counts (count_reasons rs m) ≡ sum_counts m + length (filter (λ r. not r.allowed) rs)
unfolding count_reasons
sum_counts-count_reasons [] m = omega arith
sum_counts-count_reasons (r ∷ rs) m = ground (
  arith,
  sum_counts-count_reasons rs m,
  sum_counts-count_reasons rs (count_in (reason_name r.reason) m),
  sum_counts-count_in (reason_name r.reason) m,
)

lookup-count_in :
    (name key : String) (m : List (String × ℕ))
    → Option.get_or (lookup (count_in name m) key) 0
      ≡ Option.get_or (lookup m key) 0 + (if name == key then 1 else 0)
unfolding count_in
lookup-count_in name key [] = ground arith
lookup-count_in name key ((k, n) ∷ m) =
    ground (arith, lookup-count_in name key m, eq_iff k name, eq_iff name key, eq_iff k key)

-- Is this result a refusal for the reason of this name?
abbrev pub refused_as : String → PrivacyFilterResult → Bool
refused_as key r = if not r.allowed then reason_name r.reason == key else false

lookup-count_reasons :
    (key : String) (rs : List PrivacyFilterResult) (m : List (String × ℕ))
    → Option.get_or (lookup (count_reasons rs m) key) 0
      ≡ Option.get_or (lookup m key) 0 + length (filter (refused_as key) rs)
unfolding count_reasons
lookup-count_reasons key [] m = omega arith
lookup-count_reasons key (r ∷ rs) m = ground (
  arith,
  lookup-count_reasons key rs m,
  lookup-count_reasons key rs (count_in (reason_name r.reason) m),
  lookup-count_in (reason_name r.reason) key m,
)

-- In the summary of any results: the passing and the filtered bidders make up all of
-- them, the counts by reason add up to the filtered ones, and the count under a name is the number
-- of the results refused for the reason of that name.
pub get_privacy_summary_counts :
    (s : ConsentSignals) (rs : List PrivacyFilterResult) (key : String)
    → let summary = get_privacy_summary s rs in
      (summary.allowed + summary.filtered ≡ summary.total_bidders)
      × (sum_counts summary.filter_reasons ≡ summary.filtered)
      × (Option.get_or (lookup summary.filter_reasons key) 0 ≡ length (filter (refused_as key) rs))
unfolding get_privacy_summary
get_privacy_summary_counts s rs key = (
  omega (arith, length-filter-le (λ (r : PrivacyFilterResult). not r.allowed) rs),
  omega (arith, sum_counts-count_reasons rs []),
  omega (arith, lookup-count_reasons key rs []),
)

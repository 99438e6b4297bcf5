-- ===== src/Metrics/Redis/Percentile.antt =====
-- src/idr/database/redis_client.py: what `get_p95_latency` returns.
use thenexusengine.Common.{
  ℕ, zero, suc, ◌+◌, ◌-◌, ◌≤◌, ◌<◌, ◌≡◌, refl, inl, inr, String, true, some, List, [], ◌∷◌, length,
  min, ltb, leb, All, if◌then◌else◌, nat_eq, string_eq, arith, Bool-cases,
}
use thenexusengine.Common.Members.{contains}
use thenexusengine.Common.Sorting.{insert_up, sort_up}
use thenexusengine.Scores.{Float, Arithmetic}
use thenexusengine.Metrics.Redis.{Commands, FloatText, latency_key}
use thenexusengine.Metrics.Redis.Reading.{elem_at, entry_values, p95_index, p95, get_p95_latency}

-- How many of the values are at most `v`.
abbrev pub count_to : Float → List Float → ℕ
count_to v [] = 0
count_to v (w ∷ ws) = (if leb w v then 1 else 0) + count_to v ws

-- How many of the values are below `v`.
abbrev pub count_below : Float → List Float → ℕ
count_below v [] = 0
count_below v (w ∷ ws) = (if ltb w v then 1 else 0) + count_below v ws

Ascending : List Float → Type 0
Ascending [] = Unit
Ascending (v ∷ vs) = All (λ w. v ≤ w) vs × Ascending vs

All-insert_up :
    (v x : Float) (xs : List Float)
    → v ≤ x
    → All (λ w. v ≤ w) xs
    → All (λ w. v ≤ w) (insert_up x xs)
unfolding insert_up
All-insert_up v x [] le a = (le, tt)
All-insert_up v x (y ∷ ys) le (h, a) = elim (Bool-cases (ltb y x)) [
  | inl less ↦ rw (less, insert_up) (h, All-insert_up v x ys le a)
  | inr other ↦ rw (other, insert_up) (le, (h, a))
]

All-weaken : (v w : Float) (xs : List Float) → v ≤ w → All (λ x. w ≤ x) xs → All (λ x. v ≤ x) xs
All-weaken v w [] le a = tt
All-weaken v w (x ∷ xs) le (h, a) = (omega arith, All-weaken v w xs le a)

insert_up-Ascending : (x : Float) (xs : List Float) → Ascending xs → Ascending (insert_up x xs)
unfolding insert_up Ascending
insert_up-Ascending x [] asc = (tt, tt)
insert_up-Ascending x (y ∷ ys) (a, asc) = elim (Bool-cases (ltb y x)) [
  | inl less ↦
      rw (less, insert_up) (All-insert_up y x ys (ground arith) a, insert_up-Ascending x ys asc)
  | inr other ↦
      let le : x ≤ y = ground arith in
      rw (other, insert_up) ((le, All-weaken x y ys le a), (a, asc))
]

sort_up-Ascending : (xs : List Float) → Ascending (sort_up xs)
unfolding sort_up Ascending
sort_up-Ascending [] = tt
sort_up-Ascending (x ∷ xs) = insert_up-Ascending x (sort_up xs) (sort_up-Ascending xs)

length-insert_up : (x : Float) (xs : List Float) → length (insert_up x xs) ≡ suc (length xs)
unfolding insert_up
length-insert_up x [] = refl
length-insert_up x (y ∷ ys) = ground (arith, length-insert_up x ys)

pub length-sort_up : (xs : List Float) → length (sort_up xs) ≡ length xs
unfolding sort_up
length-sort_up [] = refl
length-sort_up (x ∷ xs) = ground (arith, length-insert_up x (sort_up xs), length-sort_up xs)

count_to-insert_up :
    (v x : Float) (xs : List Float) → count_to v (insert_up x xs) ≡ count_to v (x ∷ xs)
unfolding insert_up
count_to-insert_up v x [] = refl
count_to-insert_up v x (y ∷ ys) = ground (arith, count_to-insert_up v x ys)

count_to-sort_up : (v : Float) (xs : List Float) → count_to v (sort_up xs) ≡ count_to v xs
unfolding sort_up
count_to-sort_up v [] = refl
count_to-sort_up v (x ∷ xs) =
    ground (arith, count_to-insert_up v x (sort_up xs), count_to-sort_up v xs)

count_below-insert_up :
    (v x : Float) (xs : List Float) → count_below v (insert_up x xs) ≡ count_below v (x ∷ xs)
unfolding insert_up
count_below-insert_up v x [] = refl
count_below-insert_up v x (y ∷ ys) = ground (arith, count_below-insert_up v x ys)

count_below-sort_up : (v : Float) (xs : List Float) → count_below v (sort_up xs) ≡ count_below v xs
unfolding sort_up
count_below-sort_up v [] = refl
count_below-sort_up v (x ∷ xs) =
    ground (arith, count_below-insert_up v x (sort_up xs), count_below-sort_up v xs)

count_below_none : (v : Float) (xs : List Float) → All (λ w. v ≤ w) xs → count_below v xs ≡ 0
count_below_none v [] a = refl
count_below_none v (x ∷ xs) (h, a) = ground (arith, count_below_none v xs a)

contains-insert_up :
    (v x : Float) (xs : List Float) → contains (insert_up x xs) v ≡ contains (x ∷ xs) v
unfolding insert_up
contains-insert_up v x [] = refl
contains-insert_up v x (y ∷ ys) = ground (arith, contains-insert_up v x ys)

contains-sort_up : (v : Float) (xs : List Float) → contains (sort_up xs) v ≡ contains xs v
unfolding sort_up
contains-sort_up v [] = refl
contains-sort_up v (x ∷ xs) =
    ground (arith, contains-insert_up v x (sort_up xs), contains-sort_up v xs)

pub elem_at_within :
    (xs : List Float) (i : ℕ) → i < length xs → (v : Float) × (elem_at xs i ≡ some v)
unfolding elem_at
elem_at_within [] i h = absurd (omega arith)
elem_at_within (x ∷ xs) zero h = (x, refl)
elem_at_within (x ∷ xs) (suc i) h = elem_at_within xs i (ground arith)

-- A position of an ascending list: its value is there, no more values than the position says are
-- below it, and more than that are at most it.
record IsRanked (xs : List Float) (i : ℕ) (v : Float) : Type 0 where
  pub at : elem_at xs i ≡ some v
  pub member : contains xs v ≡ true
  pub above : count_below v xs ≤ i
  pub ranked : i < count_to v xs

All-get_at :
    (w : Float) (xs : List Float) (v : Float) → All (λ x. w ≤ x) xs → contains xs v ≡ true → w ≤ v
All-get_at w [] v a m = absurd (ground arith)
All-get_at w (x ∷ xs) v (h, a) m = ground (arith, All-get_at w xs v a)

elem_at-IsRanked :
    (xs : List Float) (i : ℕ) → Ascending xs → i < length xs → (v : Float) × IsRanked xs i v
unfolding elem_at Ascending
elem_at-IsRanked [] i asc h = absurd (omega arith)
elem_at-IsRanked (x ∷ xs) zero (a, asc) h = (
  x,
  record {
    at = refl;
    member = ground arith;
    above = ground (arith, count_below_none x xs a);
    ranked = ground arith;
  },
)
elem_at-IsRanked (x ∷ xs) (suc i) (a, asc) h =
    let (v, is) = elem_at-IsRanked xs i asc (ground arith) in
    let le = All-get_at x xs v a is.member in
    (
      v,
      record {
        at = is.at;
        member = ground (arith, is.member);
        above = ground (arith, is.above);
        ranked = ground (arith, is.ranked);
      },
    )

-- 0 where there are no values. Else the value at the position `min(int(len * 0.95), len - 1)` in their
-- order: one of them, with at most that many values below it and more than that many at most it.
abbrev pub IsPercentile : Arithmetic → List Float → Float → Type 0
IsPercentile ops [] v = v ≡ 0
IsPercentile ops (w ∷ ws) v =
    let position = min (p95_index ops (length (w ∷ ws))) (length ws) in
    (contains (w ∷ ws) v ≡ true)
    × (count_below v (w ∷ ws) ≤ position)
    × (position < count_to v (w ∷ ws))

p95-IsPercentile :
    (ops : Arithmetic) (values : List Float)
    → (v : Float) × (p95 ops values ≡ some v) × IsPercentile ops values v
unfolding p95
p95-IsPercentile ops [] = (0, refl, refl)
p95-IsPercentile ops (w ∷ ws) =
    let values = w ∷ ws in
    let i = min (p95_index ops (length values)) (length values - 1) in
    let within : i < length (sort_up values) = ground (arith, length-sort_up values) in
    let (v, is) = elem_at-IsRanked (sort_up values) i (sort_up-Ascending values) within in
    (
      v,
      is.at,
      (
        ground (arith, is.member, contains-sort_up v values),
        ground (arith, is.above, count_below-sort_up v values),
        ground (arith, is.ranked, count_to-sort_up v values),
      ),
    )

-- `get_p95_latency` never fails on its index. It returns 0 where no entry of the sorted set can be
-- read. Else it returns one of the latencies, and with n for `min(int(len * 0.95), len - 1)` at most n
-- of the latencies are below it and more than n are at most it.
pub get_p95_latency-IsPercentile :
    {S : Type 0} (commands : Commands S) (ops : Arithmetic) (text : FloatText) (bidder : String)
    (s : S)
    → (v : Float) × (get_p95_latency commands ops text bidder s ≡ some v)
      × IsPercentile ops (entry_values text (commands.zrange s (latency_key bidder))) v
unfolding get_p95_latency
get_p95_latency-IsPercentile commands ops text bidder s =
    p95-IsPercentile ops (entry_values text (commands.zrange s (latency_key bidder)))

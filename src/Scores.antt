-- ===== src/Scores.antt =====
-- src/idr/models/bidder_score.py. The floats of the program are compared here, and only the
-- scorer computes with them. A float that is not negative is modelled by its IEEE 754 bit pattern, read as a number: the
-- patterns are ordered as the floats are.
use thenexusengine.Common.{ℕ, ◌≡◌, ◌≤◌, ◌<◌, String, Bool, Option, none, ltb, leb}

abbrev pub Float : Type 0
Float = ℕ

-- The arithmetic of floats, which is a parameter, on floats that are not negative: the float of a
-- number, and `int` of a float.
pub record Arithmetic : Type 0 where
  pub add : Float → Float → Float
  pub sub : Float → Float → Float
  pub mul : Float → Float → Float
  pub div : Float → Float → Float
  pub of_nat : ℕ → Float
  pub to_nat : Float → ℕ

-- 1.0
abbrev pub f1 : Float
f1 = 0x3ff0000000000000

-- A bit pattern below that of infinity.
abbrev pub IsFinite : Float → Type 0
IsFinite a = a < 0x7ff0000000000000

-- What IEEE 754 says of the zero and the one.
pub record IsArithmetic (ops : Arithmetic) : Type 0 where
  pub add_zero : (a : Float) → IsFinite a → ops.add a 0 ≡ a
  pub zero_add : (a : Float) → IsFinite a → ops.add 0 a ≡ a
  pub mul_one : (a : Float) → IsFinite a → ops.mul a f1 ≡ a
  pub mul_zero : (a : Float) → IsFinite a → ops.mul a 0 ≡ 0
  pub div_self : (a : Float) → IsFinite a → 1 ≤ a → ops.div a a ≡ f1
  pub zero_div : (a : Float) → IsFinite a → 1 ≤ a → ops.div 0 a ≡ 0

pub record ScoreComponents : Type 0 where
  pub win_rate : Float
  pub bid_rate : Float
  pub cpm : Float
  pub floor_clearance : Float
  pub latency : Float
  pub recency : Float
  pub id_match : Float

pub record BidderScore : Type 0 where
  pub bidder_code : String
  pub total_score : Float
  pub components : ScoreComponents
  pub confidence : Float
  pub lookup_key_used : Option String
  pub fallback_level : ℕ

abbrev pub no_components : ScoreComponents
no_components = record {
  win_rate = 0;
  bid_rate = 0;
  cpm = 0;
  floor_clearance = 0;
  latency = 0;
  recency = 0;
  id_match = 0;
}

-- `__lt__`, the order of `sorted` by `total_score`.
abbrev pub score_lt : BidderScore → BidderScore → Bool
score_lt a b = ltb a.total_score b.total_score

-- 0.7 and 0.3 as bit patterns.
unfoldable pub is_high_confidence : BidderScore → Bool
is_high_confidence s = leb 0x3fe6666666666666 s.confidence

unfoldable pub is_exploration_candidate : BidderScore → Bool
is_exploration_candidate s = ltb s.confidence 0x3fd3333333333333

abbrev pub zero_score : String → BidderScore
zero_score bidder_code = record {
  bidder_code = bidder_code;
  total_score = 0;
  components = no_components;
  confidence = 0;
  lookup_key_used = none;
  fallback_level = 0;
}

-- ===== src/Metrics/Sampling/Moves.antt =====
-- src/idr/database/redis_client.py: how far the commands of one event move the counters of a hash.
use thenexusengine.Common.{
  ℕ, ◌+◌, ◌≡◌, refl, String, Bool, true, false, Option, if◌then◌else◌, ◌==◌, string_eq, arith,
  Option-cases, inl, inr,
}
use thenexusengine.Scores.{Float}
use thenexusengine.Metrics.RealTime.{RequestEvent, truthy_float}
use thenexusengine.Metrics.Redis.{Commands, count_bid, count_request_in, count_win_in}
use thenexusengine.Metrics.Sampling.{
  Counter, requests, bids, wins, timeouts, errors, field_of, moved, moved_by_win, AreHashes,
}

module _ {S : Type 0} (commands : Commands S) (laws : AreHashes commands) where
  -- A counter of a hash after a step that moves it by `n`.
  unfoldable pub MovesBy : String → Counter → ℕ → S → S → Type 0
  MovesBy key c n before after =
      (k : String)
      → commands.int_field after k (field_of c) ≡ (
          if key == k
          then commands.int_field before k (field_of c) + n
          else commands.int_field before k (field_of c))

  MovesBy-trans :
      (key : String) (c : Counter) (m n p : ℕ) (s t u : S)
      → m + n ≡ p
      → MovesBy key c m s t
      → MovesBy key c n t u
      → MovesBy key c p s u
  unfolding MovesBy
  MovesBy-trans key c m n p s t u sum f g k = ground (arith, f k, g k)

  MovesBy-rest : (key : String) (c : Counter) (s : S) → MovesBy key c 0 s s
  unfolding MovesBy
  MovesBy-rest key c s k = ground arith

  abbrev same_counter : Counter → Counter → ℕ
  same_counter c d = if field_of c == field_of d then 1 else 0

  hincrby-MovesBy :
      (key : String) (d c : Counter) (s : S)
      → MovesBy key c (same_counter d c) s (commands.hincrby key (field_of d) 1 s)
  unfolding MovesBy
  hincrby-MovesBy key d c s k = ground (arith, laws.int_hincrby key (field_of d) 1 s k (field_of c))

  hincrbyfloat-MovesBy :
      (key field : String) (v : Float) (c : Counter) (s : S)
      → (field == field_of c) ≡ false
      → MovesBy key c 0 s (commands.hincrbyfloat key field v s)
  unfolding MovesBy
  hincrbyfloat-MovesBy key field v c s h k =
      ground (arith, laws.int_hincrbyfloat key field v s k (field_of c) h)

  -- A step that is made under a test.
  MovesBy-if :
      (b : Bool) (key : String) (c : Counter) (n : ℕ) (s t : S)
      → MovesBy key c n s t
      → MovesBy key c (if b then n else 0) s (if b then t else s)
  MovesBy-if true key c n s t f = f
  MovesBy-if false key c n s t f = MovesBy-rest key c s

  no_total : (c : Counter) → ("total_bid_value" == field_of c) ≡ false
  no_total requests = refl
  no_total bids = refl
  no_total wins = refl
  no_total timeouts = refl
  no_total errors = refl

  no_latency : (c : Counter) → ("total_latency_ms" == field_of c) ≡ false
  no_latency requests = refl
  no_latency bids = refl
  no_latency wins = refl
  no_latency timeouts = refl
  no_latency errors = refl

  no_win_value : (c : Counter) → ("total_win_value" == field_of c) ≡ false
  no_win_value requests = refl
  no_win_value bids = refl
  no_win_value wins = refl
  no_win_value timeouts = refl
  no_win_value errors = refl

  count_bid-MovesBy :
      (key : String) (cpm : Option Float) (c : Counter) (s : S)
      → MovesBy key c (same_counter bids c) s (count_bid commands key cpm s)
  count_bid-MovesBy key cpm c s =
      let counted = commands.hincrby key "bids" 1 s in
      let one : MovesBy key c (same_counter bids c) s counted = hincrby-MovesBy key bids c s in
      elim (Option-cases (truthy_float cpm)) [
        | inl free ↦ rw (free, count_bid) one
        | inr (v, priced) ↦
            rw (priced, count_bid)
              (MovesBy-trans key c (same_counter bids c) 0 _ s counted _ (omega arith) one
                (hincrbyfloat-MovesBy key "total_bid_value" v c counted (no_total c)))
      ]

  moved-sum :
      (c : Counter) (e : RequestEvent)
      → same_counter requests c
          + (0
              + ((if e.had_bid then same_counter bids c else 0)
                  + ((if e.timed_out then same_counter timeouts c else 0)
                      + (if e.had_error then same_counter errors c else 0))))
        ≡ moved c e
  moved-sum requests e = ground arith
  moved-sum bids e = ground arith
  moved-sum wins e = ground arith
  moved-sum timeouts e = ground arith
  moved-sum errors e = ground arith

  pub count_request_in-MovesBy :
      (key : String) (e : RequestEvent) (c : Counter) (s : S)
      → MovesBy key c (moved c e) s (count_request_in commands key e s)
  unfolding count_request_in
  count_request_in-MovesBy key e c s =
      let asked = commands.hincrby key "requests" 1 s in
      let timed = commands.hincrbyfloat key "total_latency_ms" e.latency_ms asked in
      let bid = if e.had_bid then count_bid commands key e.bid_cpm timed else timed in
      let late = if e.timed_out then commands.hincrby key "timeouts" 1 bid else bid in
      MovesBy-trans key c _ _ _ s asked _ (moved-sum c e) (hincrby-MovesBy key requests c s) (
        MovesBy-trans key c _ _ _ asked timed _ refl
          (hincrbyfloat-MovesBy key "total_latency_ms" e.latency_ms c asked (no_latency c))
          (MovesBy-trans key c _ _ _ timed bid _ refl
            (MovesBy-if e.had_bid key c _ timed _ (count_bid-MovesBy key e.bid_cpm c timed))
            (MovesBy-trans key c _ _ _ bid late _ refl
              (MovesBy-if e.timed_out key c _ bid _ (hincrby-MovesBy key timeouts c bid))
              (MovesBy-if e.had_error key c _ late _ (hincrby-MovesBy key errors c late)))))

  moved_by_win-sum : (c : Counter) → same_counter wins c + 0 ≡ moved_by_win c
  moved_by_win-sum requests = refl
  moved_by_win-sum bids = refl
  moved_by_win-sum wins = refl
  moved_by_win-sum timeouts = refl
  moved_by_win-sum errors = refl

  pub count_win_in-MovesBy :
      (key : String) (cpm : Float) (c : Counter) (s : S)
      → MovesBy key c (moved_by_win c) s (count_win_in commands key cpm s)
  unfolding count_win_in
  count_win_in-MovesBy key cpm c s =
      let counted = commands.hincrby key "wins" 1 s in
      MovesBy-trans key c _ 0 _ s counted _ (moved_by_win-sum c) (hincrby-MovesBy key wins c s)
        (hincrbyfloat-MovesBy key "total_win_value" cpm c counted (no_win_value c))

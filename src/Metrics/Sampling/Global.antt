-- ===== src/Metrics/Sampling/Global.antt =====
-- src/idr/database/redis_client.py: what one event changes of the global counters in Redis.
use thenexusengine.Common.{
  ℕ, ◌+◌, ◌≡◌, refl, ap, ◌∙◌, String, Bool, true, false, Option, if◌then◌else◌, ◌==◌, string_eq,
  arith, Bool-cases, Option-cases, inl, inr,
}
use thenexusengine.Common.Text.{starts_with}
use thenexusengine.Common.Text.Parts.{starts_with-concat}
use thenexusengine.Common.Text.Beginnings.{concat-equal}
use thenexusengine.Common.Members.{eq_of_beq}
use thenexusengine.Scores.{Float, Arithmetic}
use thenexusengine.Metrics.RealTime.{RequestEvent, truthy_float}
use thenexusengine.Metrics.Redis.{
  Commands, FloatText, context_key, global_key, metrics_ttl, count_request_in, count_win_in,
  add_recent, add_recent_bid, execute_request, execute_win, latency_key, bids_key, wins_key,
}
use thenexusengine.Metrics.Sampling.{Counter, field_of, moved, moved_by_win, AreHashes}
use thenexusengine.Metrics.Sampling.Moves.{MovesBy, count_request_in-MovesBy, count_win_in-MovesBy}

other_key :
    (key bidder : String)
    → starts_with key "idr:global:" ≡ false
    → (key == global_key bidder) ≡ false
other_key key bidder h = elim (Bool-cases (key == global_key bidder)) [
  | inr other ↦ other
  | inl same ↦
      let begins = ap (λ t. starts_with t "idr:global:") (eq_of_beq key (global_key bidder) same) in
      absurd (ground (arith, starts_with-concat "idr:global:" bidder))
]

-- The other keys of a bidder begin otherwise.
metrics_begin :
    (bidder context : String) → starts_with (context_key bidder context) "idr:global:" ≡ false
unfolding starts_with
metrics_begin bidder context = refl

latency_begin : (bidder : String) → starts_with (latency_key bidder) "idr:global:" ≡ false
unfolding starts_with
latency_begin bidder = refl

bids_begin : (bidder : String) → starts_with (bids_key bidder) "idr:global:" ≡ false
unfolding starts_with
bids_begin bidder = refl

wins_begin : (bidder : String) → starts_with (wins_key bidder) "idr:global:" ≡ false
unfolding starts_with
wins_begin bidder = refl

module _ {S : Type 0} (commands : Commands S) (laws : AreHashes commands) where
  abbrev pub global_count : String → Counter → S → ℕ
  global_count bidder c s = commands.int_field s (global_key bidder) (field_of c)

  -- The steps on the other keys of a bidder.
  Keeps : S → S → Type 0
  Keeps s t = (b : String) (c : Counter) → global_count b c t ≡ global_count b c s

  Keeps-rest : (s : S) → Keeps s s
  unfolding Keeps
  Keeps-rest s b c = refl

  Keeps-moved :
      (key : String) (n : Counter → ℕ) (s t : S)
      → starts_with key "idr:global:" ≡ false
      → ((c : Counter) → MovesBy commands laws key c (n c) s t)
      → Keeps s t
  unfolding Keeps MovesBy
  Keeps-moved key n s t h f b c = ground (arith, f c (global_key b), other_key key b h)

  module _ (ops : Arithmetic) (text : FloatText) where
    add_recent-Keeps :
        (key : String) (now value : Float) (s : S)
        → starts_with key "idr:global:" ≡ false
        → Keeps s (add_recent commands ops text key now value s)
    unfolding Keeps add_recent
    add_recent-Keeps key now value s h b c =
        let away = other_key key b h in
        laws.int_zremrangebyscore key _ _ (global_key b) (field_of c) away
        ∙ laws.int_zadd key _ now s (global_key b) (field_of c) away

    add_recent_bid-Keeps :
        (bidder : String) (now : Float) (cpm : Option Float) (s : S)
        → Keeps s (add_recent_bid commands ops text bidder now cpm s)
    add_recent_bid-Keeps bidder now cpm s = elim (Option-cases (truthy_float cpm)) [
      | inl free ↦ rw (free, add_recent_bid) (Keeps-rest s)
      | inr (v, priced) ↦
          rw (priced, add_recent_bid)
            (add_recent-Keeps (bids_key bidder) now v s (bids_begin bidder))
    ]

    add_recent_bid_if-Keeps :
        (had_bid : Bool) (bidder : String) (now : Float) (cpm : Option Float) (s : S)
        → Keeps s (if had_bid then add_recent_bid commands ops text bidder now cpm s else s)
    add_recent_bid_if-Keeps true bidder now cpm s = add_recent_bid-Keeps bidder now cpm s
    add_recent_bid_if-Keeps false bidder now cpm s = Keeps-rest s

    -- The counters of a context move, its expiry is set, and the global counters move.
    counted-global :
        (bidder context : String) (n : Counter → ℕ) (s t u : S)
        → ((c : Counter) → MovesBy commands laws (context_key bidder context) c (n c) s t)
        → ((c : Counter)
            → MovesBy commands laws
                (global_key bidder)
                c
                (n c)
                (commands.expire (context_key bidder context) metrics_ttl t)
                u)
        → (b : String) (c : Counter)
        → global_count b c u
          ≡ (if bidder == b then global_count b c s + n c else global_count b c s)
    unfolding Keeps MovesBy
    counted-global bidder context n s t u f g b c =
        let key = context_key bidder context in
        let begins = metrics_begin bidder context in
        ground (
          arith,
          Keeps-moved key n s t begins f b c,
          laws.int_expire key metrics_ttl t (global_key b) (field_of c) (other_key key b begins),
          g c (global_key b),
          concat-equal "idr:global:" bidder b,
        )

    pub execute_request-global :
        (bidder context : String) (e : RequestEvent) (now : Float) (s : S) (b : String)
        (c : Counter)
        → global_count b c (execute_request commands ops text bidder context e now s)
          ≡ (if bidder == b then global_count b c s + moved c e else global_count b c s)
    unfolding execute_request Keeps
    execute_request-global bidder context e now s b c =
        let key = context_key bidder context in
        let in_context = count_request_in commands key e s in
        let expiring = commands.expire key metrics_ttl in_context in
        let counted = count_request_in commands (global_key bidder) e expiring in
        let timed = add_recent commands ops text (latency_key bidder) now e.latency_ms counted in
        add_recent_bid_if-Keeps e.had_bid bidder now e.bid_cpm timed b c
        ∙ add_recent-Keeps (latency_key bidder) now e.latency_ms counted (latency_begin bidder) b c
        ∙ counted-global bidder context (λ d. moved d e) s in_context counted
            (λ d. count_request_in-MovesBy commands laws key e d s)
            (λ d. count_request_in-MovesBy commands laws (global_key bidder) e d expiring) b c

    pub execute_win-global :
        (bidder context : String) (cpm now : Float) (s : S) (b : String) (c : Counter)
        → global_count b c (execute_win commands ops text bidder context cpm now s)
          ≡ (if bidder == b then global_count b c s + moved_by_win c else global_count b c s)
    unfolding execute_win Keeps
    execute_win-global bidder context cpm now s b c =
        let key = context_key bidder context in
        let in_context = count_win_in commands key cpm s in
        let expiring = commands.expire key metrics_ttl in_context in
        let counted = count_win_in commands (global_key bidder) cpm expiring in
        add_recent-Keeps (wins_key bidder) now cpm counted (wins_begin bidder) b c
        ∙ counted-global bidder context moved_by_win s in_context counted
            (λ d. count_win_in-MovesBy commands laws key cpm d s)
            (λ d. count_win_in-MovesBy commands laws (global_key bidder) cpm d expiring) b c

-- ===== src/Events/Pipeline.antt =====
-- src/idr/database/event_pipeline.py: `EventPipeline`, as the steps that its threads make in any
-- order: callers of `submit`, the threads of `_process_loop`, and callers of `stop`.
use thenexusengine.Common.{
  ℕ, zero, suc, ◌+◌, ◌≡◌, Bool, true, false, ◌&&◌, ◌||◌, not, Option, none, some, List, [], ◌∷◌,
  ◌++◌, length, null, leb, ltb, if◌then◌else◌,
}
use thenexusengine.Events.Model.{AuctionEvent, PipelineStats, no_stats}
use thenexusengine.Events.Process.{Outcome, returned, raised, OnError, Processed, process_batch}

-- The parameters of the constructor that the steps read.
pub record Settings : Type 0 where
  pub batch_size : ℕ
  pub max_queue_size : ℕ
  pub on_error : OnError

-- The queue, the flag, the counters and the store; `counting` is the number of `submit` calls that
-- have put their event and not yet counted it; `workers` has the local `batch` of each thread of
-- `_process_loop` and `stoppers` that of each call of `_flush_queue`.
pub record EventPipeline (S : Type 0) : Type 0 where
  pub queue : List AuctionEvent
  pub running : Bool
  pub stats : PipelineStats
  pub store : S
  pub counting : ℕ
  pub workers : List (List AuctionEvent)
  pub stoppers : List (List AuctionEvent)

abbrev pub init : {S : Type 0} → S → EventPipeline S
init s = record {
  queue = [];
  running = false;
  stats = no_stats;
  store = s;
  counting = 0;
  workers = [];
  stoppers = [];
}

-- `queue.Full`: a maximum of 0 means no bound.
abbrev pub is_full : Settings → List AuctionEvent → Bool
is_full settings queue = ltb 0 settings.max_queue_size && leb settings.max_queue_size (length queue)

-- The batch of the thread at a position, and the threads with another batch there or without it.
unfoldable pub batch_at : List (List AuctionEvent) → ℕ → Option (List AuctionEvent)
batch_at [] i = none
batch_at (b ∷ bs) zero = some b
batch_at (b ∷ bs) (suc i) = batch_at bs i

unfoldable pub set_batch :
    List (List AuctionEvent) → ℕ → List AuctionEvent → List (List AuctionEvent)
set_batch [] i new = []
set_batch (b ∷ bs) zero new = new ∷ bs
set_batch (b ∷ bs) (suc i) new = b ∷ set_batch bs i new

unfoldable pub remove_batch : List (List AuctionEvent) → ℕ → List (List AuctionEvent)
remove_batch [] i = []
remove_batch (b ∷ bs) zero = bs
remove_batch (b ∷ bs) (suc i) = b ∷ remove_batch bs i

module _ {S : Type 0} (settings : Settings) (process : AuctionEvent → S → Outcome × S) where
  -- `put_nowait`, the first half of `submit`; without room `submit` returns False.
  unfoldable pub submit_put : AuctionEvent → EventPipeline S → Option (EventPipeline S)
  submit_put event p =
      if is_full settings p.queue
      then none
      else some (record p { queue = p.queue ++ event ∷ []; counting = p.counting + 1 })

  -- The second half of `submit`, under the lock.
  unfoldable pub submit_count : EventPipeline S → Option (EventPipeline S)
  submit_count p = elim p.counting [
    | zero ↦ none
    | suc n ↦ some (record p {
      stats = record p.stats {
        events_received = p.stats.events_received + 1;
        queue_depth = length p.queue;
      };
      counting = n;
    })
  ]

  -- `get_stats` brings `queue_depth` up to date.
  unfoldable pub get_stats : EventPipeline S → Option (EventPipeline S)
  get_stats p = some (record p { stats = record p.stats { queue_depth = length p.queue } })

  unfoldable pub start : EventPipeline S → Option (EventPipeline S)
  start p =
      if p.running then none else some (record p { running = true; workers = p.workers ++ [] ∷ [] })

  -- `self._queue.get`, in the loop of the thread `i`.
  unfoldable pub worker_get : ℕ → EventPipeline S → Option (EventPipeline S)
  worker_get i p = elim p.queue [
    | [] ↦ none
    | event ∷ queue ↦ elim (batch_at p.workers i) [
      | none ↦ none
      | some batch ↦
          some (record p { queue = queue; workers = set_batch p.workers i (batch ++ event ∷ []) })
    ]
  ]

  abbrev pub processed : ℕ → List AuctionEvent → EventPipeline S → Processed S
  processed now batch p = process_batch process settings.on_error now batch p.stats p.store

  -- A flush in the loop of the thread `i`, at the time `now`, with whether the flush interval has
  -- passed. Where `_process_batch` raises, `batch = []` is not reached.
  unfoldable pub worker_flush : ℕ → Bool → ℕ → EventPipeline S → Option (EventPipeline S)
  worker_flush i elapsed now p = elim (batch_at p.workers i) [
    | none ↦ none
    | some batch ↦
        let done = processed now batch p in
        if leb settings.batch_size (length batch) || (ltb 0 (length batch) && elapsed)
        then some (record p {
          stats = done.stats;
          store = done.store;
          workers = elim done.outcome [ returned ↦ set_batch p.workers i [] | raised ↦ p.workers ];
        })
        else none
  ]

  -- The end of the thread `i`, with its last flush.
  unfoldable pub worker_exit : ℕ → ℕ → EventPipeline S → Option (EventPipeline S)
  worker_exit i now p = elim (batch_at p.workers i) [
    | none ↦ none
    | some batch ↦
        let done = processed now batch p in
        if not p.running && null p.queue
        then some (record p {
          stats = done.stats;
          store = done.store;
          workers = remove_batch p.workers i;
        })
        else none
  ]

  unfoldable pub stop_begin : EventPipeline S → Option (EventPipeline S)
  stop_begin p =
      if p.running
      then some (record p { running = false; stoppers = p.stoppers ++ [] ∷ [] })
      else none

  -- The loop of `_flush_queue` in the call `i` of `stop`.
  unfoldable pub stop_get : ℕ → EventPipeline S → Option (EventPipeline S)
  stop_get i p = elim p.queue [
    | [] ↦ none
    | event ∷ queue ↦ elim (batch_at p.stoppers i) [
      | none ↦ none
      | some batch ↦
          some (record p { queue = queue; stoppers = set_batch p.stoppers i (batch ++ event ∷ []) })
    ]
  ]

  -- The end of `_flush_queue`, where the queue was found empty. `stop` then waits for the thread,
  -- for at most its timeout, and changes nothing that the steps read.
  unfoldable pub stop_flush : ℕ → ℕ → EventPipeline S → Option (EventPipeline S)
  stop_flush i now p = elim (batch_at p.stoppers i) [
    | none ↦ none
    | some batch ↦
        let done = processed now batch p in
        if null p.queue
        then some (record p {
          stats = done.stats;
          store = done.store;
          stoppers = remove_batch p.stoppers i;
        })
        else none
  ]

  -- A step. `_process_batch` is one step, since what others do in its course has no part in it but
  -- the store.
  pub data Step : EventPipeline S → EventPipeline S → Type 0 where
    puts : (e : AuctionEvent) {p q : EventPipeline S} → submit_put e p ≡ some q → Step p q
    counts : {p q : EventPipeline S} → submit_count p ≡ some q → Step p q
    reads : {p q : EventPipeline S} → get_stats p ≡ some q → Step p q
    starts : {p q : EventPipeline S} → start p ≡ some q → Step p q
    gets : (i : ℕ) {p q : EventPipeline S} → worker_get i p ≡ some q → Step p q
    flushes :
        (i : ℕ) (elapsed : Bool) (now : ℕ) {p q : EventPipeline S}
        → worker_flush i elapsed now p ≡ some q
        → Step p q
    exits : (i now : ℕ) {p q : EventPipeline S} → worker_exit i now p ≡ some q → Step p q
    stops : {p q : EventPipeline S} → stop_begin p ≡ some q → Step p q
    stop_gets : (i : ℕ) {p q : EventPipeline S} → stop_get i p ≡ some q → Step p q
    stop_flushes : (i now : ℕ) {p q : EventPipeline S} → stop_flush i now p ≡ some q → Step p q

  pub data Reachable (s : S) : EventPipeline S → Type 0 where
    initial : Reachable s (init s)
    next : {p q : EventPipeline S} → Reachable s p → Step p q → Reachable s q

-- ===== src/Events/Queue.antt =====
-- The queue of the pipeline: its bound, and that a call of `stop` empties it.
use thenexusengine.Common.{
  ℕ, zero, suc, ◌≤◌, ◌<◌, ◌≡◌, refl, inl, inr, ◌∙◌, ap, true, false, some, List, [], ◌∷◌, ◌++◌,
  length, arith, List-cases, length-append,
}
use mathlib.Core.List.{append-nil, append_assoc}
use thenexusengine.Events.Model.{AuctionEvent}
use thenexusengine.Events.Process.{Outcome, process_batch}
use thenexusengine.Events.Pipeline.{
  Settings, EventPipeline, batch_at, set_batch, remove_batch, submit_put, submit_count, get_stats,
  start, worker_get, worker_flush, worker_exit, stop_begin, stop_get, stop_flush, Step, puts,
  counts, reads, starts, gets, flushes, exits, stops, stop_gets, stop_flushes, Reachable, initial,
  next,
}

batch_at-set_batch :
    (bs : List (List AuctionEvent)) (i : ℕ) (b new : List AuctionEvent)
    → batch_at bs i ≡ some b
    → batch_at (set_batch bs i new) i ≡ some new
unfolding batch_at set_batch
batch_at-set_batch [] i b new e = absurd (ground arith)
batch_at-set_batch (x ∷ bs) zero b new e = refl
batch_at-set_batch (x ∷ bs) (suc i) b new e = batch_at-set_batch bs i b new e

batch_at_last :
    (bs : List (List AuctionEvent)) (b : List AuctionEvent)
    → batch_at (bs ++ b ∷ []) (length bs) ≡ some b
unfolding batch_at
batch_at_last [] b = refl
batch_at_last (x ∷ bs) b = batch_at_last bs b

set_batch-last :
    (bs : List (List AuctionEvent)) (b new : List AuctionEvent)
    → set_batch (bs ++ b ∷ []) (length bs) new ≡ bs ++ new ∷ []
unfolding set_batch
set_batch-last [] b new = refl
set_batch-last (x ∷ bs) b new = ap (◌∷◌ x) (set_batch-last bs b new)

remove_batch-last :
    (bs : List (List AuctionEvent)) (b : List AuctionEvent)
    → remove_batch (bs ++ b ∷ []) (length bs) ≡ bs
unfolding remove_batch
remove_batch-last [] b = refl
remove_batch-last (x ∷ bs) b = ap (◌∷◌ x) (remove_batch-last bs b)

module _ {S : Type 0} (settings : Settings) (process : AuctionEvent → S → Outcome × S) where
  Step-bounded :
      0 < settings.max_queue_size
      → (p q : EventPipeline S) → Step settings process p q
      → length p.queue ≤ settings.max_queue_size
      → length q.queue ≤ settings.max_queue_size
  unfolding submit_put submit_count get_stats start worker_get worker_flush worker_exit stop_begin
      stop_get stop_flush
  Step-bounded pos p q (puts e h) a = ground (arith, length-append p.queue (e ∷ []))
  Step-bounded pos p q (counts h) a = ground arith
  Step-bounded pos p q (reads h) a = ground arith
  Step-bounded pos p q (starts h) a = ground arith
  Step-bounded pos p q (gets i h) a = elim (List-cases p.queue) [
    | inl empty ↦ absurd (ground arith)
    | inr (e, queue, front) ↦ ground (arith, ap length front)
  ]
  Step-bounded pos p q (flushes i elapsed now h) a = ground arith
  Step-bounded pos p q (exits i now h) a = ground arith
  Step-bounded pos p q (stops h) a = ground arith
  Step-bounded pos p q (stop_gets i h) a = elim (List-cases p.queue) [
    | inl empty ↦ absurd (ground arith)
    | inr (e, queue, front) ↦ ground (arith, ap length front)
  ]
  Step-bounded pos p q (stop_flushes i now h) a = ground arith

  -- The queue of a reachable state never holds more than a maximum that is not 0.
  pub Reachable-bounded :
      0 < settings.max_queue_size
      → (s : S) (p : EventPipeline S) → Reachable settings process s p
      → length p.queue ≤ settings.max_queue_size
  Reachable-bounded pos s _ initial = omega arith
  Reachable-bounded pos s q (next {p} r h) = Step-bounded pos p q h (Reachable-bounded pos s p r)

  -- The loop of `_flush_queue` in the call `i` of `stop`, with nothing else in between: events that it
  -- takes, and then the flush, with which the call is over.
  pub data Flushes (i now : ℕ) : EventPipeline S → EventPipeline S → Type 0 where
    takes :
        {p q r : EventPipeline S}
        → stop_get settings process i p ≡ some q
        → Flushes i now q r
        → Flushes i now p r
    ends :
        {p q : EventPipeline S} → stop_flush settings process i now p ≡ some q → Flushes i now p q

  -- A call of `stop` by itself, from its beginning to its end.
  pub record Stops (now : ℕ) (p q : EventPipeline S) : Type 0 where
    pub off : EventPipeline S
    pub begins : stop_begin settings process p ≡ some off
    pub flushes_all : Flushes (length p.stoppers) now off q

  -- The loop takes the whole queue in its order and processes it as one batch.
  Flushes-all :
      (now : ℕ) (queue : List AuctionEvent) (p : EventPipeline S) (bs : List (List AuctionEvent))
      (b : List AuctionEvent)
      → p.queue ≡ queue
      → p.stoppers ≡ bs ++ b ∷ []
      → let batch = process_batch process settings.on_error now (b ++ queue) p.stats p.store in
        (q : EventPipeline S) × Flushes (length bs) now p q
        × (q.queue ≡ [])
        × (q.stoppers ≡ bs)
        × (q.running ≡ p.running)
        × (q.workers ≡ p.workers)
        × (q.stats ≡ batch.stats)
        × (q.store ≡ batch.store)
  unfolding stop_get stop_flush
  Flushes-all now [] p bs b empty held =
      let finished = process_batch process settings.on_error now b p.stats p.store in
      let last : EventPipeline S = record p {
        stats = finished.stats;
        store = finished.store;
        stoppers = remove_batch p.stoppers (length bs);
      } in
      let found : batch_at p.stoppers (length bs) ≡ some b =
        ap (λ l. batch_at l (length bs)) held ∙ batch_at_last bs b in
      let over : stop_flush settings process (length bs) now p ≡ some last = ground arith in
      let whole : b ++ [] ≡ b = append-nil b in
      (
        last,
        ends over,
        empty,
        ap (λ l. remove_batch l (length bs)) held ∙ remove_batch-last bs b,
        refl,
        refl,
        rw whole refl,
        rw whole refl,
      )
  Flushes-all now (e ∷ queue) p bs b front held =
      let taken : EventPipeline S = record p {
        queue = queue;
        stoppers = set_batch p.stoppers (length bs) (b ++ e ∷ []);
      } in
      let found : batch_at p.stoppers (length bs) ≡ some b =
        ap (λ l. batch_at l (length bs)) held ∙ batch_at_last bs b in
      let moves : stop_get settings process (length bs) p ≡ some taken = ground arith in
      let holds =
        ap (λ l. set_batch l (length bs) (b ++ e ∷ [])) held ∙ set_batch-last bs b (b ++ e ∷ []) in
      let (q, taken_all, empty, over, running, workers, stats, store) =
        Flushes-all now queue taken bs (b ++ e ∷ []) refl holds in
      let whole : (b ++ e ∷ []) ++ queue ≡ b ++ e ∷ queue = append_assoc b (e ∷ []) queue in
      (
        q,
        takes moves taken_all,
        empty,
        over,
        running,
        workers,
        stats
            ∙ ap (λ l. (process_batch process settings.on_error now l p.stats p.store).stats) whole,
        store
            ∙ ap (λ l. (process_batch process settings.on_error now l p.stats p.store).store) whole,
      )

  -- A call of `stop` on a running pipeline, by itself, ends: its own steps lead from its beginning to its
  -- end, in a state in which the call is over. It takes the events of the queue in their order as one
  -- batch and processes it, and leaves the queue empty, the flag off and the batches of the threads
  -- and of the other calls as they were.
  pub stop_empties :
      (now : ℕ) (p : EventPipeline S)
      → p.running ≡ true
      → let batch = process_batch process settings.on_error now p.queue p.stats p.store in
        (q : EventPipeline S) × Stops now p q
        × (q.queue ≡ [])
        × (q.stoppers ≡ p.stoppers)
        × (q.running ≡ false)
        × (q.workers ≡ p.workers)
        × (q.stats ≡ batch.stats)
        × (q.store ≡ batch.store)
  unfolding stop_begin
  stop_empties now p on =
      let off : EventPipeline S = record p { running = false; stoppers = p.stoppers ++ [] ∷ [] } in
      let begins : stop_begin settings process p ≡ some off = ground arith in
      let (q, taken_all, empty, over, running, workers, stats, store) =
        Flushes-all now p.queue off p.stoppers [] refl refl in
      (
        q,
        record { off = off; begins = begins; flushes_all = taken_all },
        empty,
        over,
        running,
        workers,
        stats,
        store,
      )

-- ===== src/Controller/Worker.antt =====
-- HasSynced, Run and runWorker of pkg/controller/controller.go. What Run calls of client-go and of apimachinery is
-- a parameter; a run that has not come to its end is no result.
use sealed_secrets.Base.{
  ℕ, zero, suc, Bool, true, false, ◌&&◌, Option, none, some, Outcome, ok, err, panic, if◌then◌else◌,
}
use sealed_secrets.Crypto.{Primitives}
use sealed_secrets.Sealed.{Codecs}
use sealed_secrets.World.{World}
use sealed_secrets.Controller.{Controller}
use sealed_secrets.Controller.Queue.{WorkQueue, process_next_item}

-- The informers of a Controller; those of the secrets and of the sealing keys may be nil.
pub record Wiring (Informer : Type 0) : Type 0 where
  pub ss_informer : Informer
  pub s_informer : Option Informer
  pub k_informer : Option Informer

-- go informer.Run(stopCh), informer.HasSynced, cache.WaitForCacheSync and wait.Until with the channel that stops them.
pub record Runtime (S : Type 0) : Type 1 where
  pub Informer : Type 0
  pub informer_synced : Informer → S → Bool
  pub start : Informer → S → S
  pub wait_for_cache_sync : (S → Bool) → S → Bool × S
  pub until : (S → Option (Outcome (Unit {0}) × S)) → S → Option (Outcome (Unit {0}) × S)

module _ {S : Type 0} (r : Runtime S) (wiring : Wiring r.Informer) where
  -- Controller.HasSynced
  unfoldable pub has_synced : S → Bool
  has_synced s = elim wiring.s_informer [
    | none ↦ r.informer_synced wiring.ss_informer s
    | some s_informer ↦ r.informer_synced wiring.ss_informer s && r.informer_synced s_informer s
  ]

  abbrev started : Option r.Informer → S → S
  started none s = s
  started (some informer) s = r.start informer s

  -- The informers that Run starts.
  unfoldable pub start_informers : S → S
  start_informers s =
      started wiring.k_informer (started wiring.s_informer (r.start wiring.ss_informer s))

module _ {p : Primitives} (q : WorkQueue) (max_retries : ℕ) (c : Codecs) (w : World p) where
  abbrev pub Worker : Type 0
  Worker = q.Items × Controller w

  abbrev pub Ended : Type 0
  Ended = Option (Outcome (Unit {0}) × Worker)

  -- The condition of the loop of runWorker, with the rest of the loop.
  abbrev pub while_true : (Worker → Ended) → Outcome Bool × Worker → Ended
  while_true rest (ok true, state) = rest state
  while_true rest (ok false, state) = some (ok tt, state)
  while_true rest (err e, state) = some (err e, state)
  while_true rest (panic, state) = some (panic, state)

  -- Controller.runWorker
  unfoldable pub run_worker : ℕ → Worker → Ended
  unfolding process_next_item
  run_worker zero state = none
  run_worker (suc fuel) state =
      while_true (run_worker fuel) (process_next_item q max_retries c w state)

  -- defer c.queue.ShutDown()
  abbrev pub closing : Ended → Ended
  closing none = none
  closing (some (out, (items, s))) = some (out, (q.shut_down items, s))

  -- Controller.Run
  unfoldable pub run : (r : Runtime Worker) → Wiring r.Informer → ℕ → Worker → Ended
  unfolding has_synced start_informers run_worker
  run r wiring fuel state =
      let (synced, state') =
        r.wait_for_cache_sync (has_synced r wiring) (start_informers r wiring state) in
      closing (if synced then r.until (run_worker fuel) state' else some (ok tt, state'))

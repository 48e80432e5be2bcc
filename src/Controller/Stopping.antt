-- ===== src/Controller/Stopping.antt =====
-- When runWorker and Run of pkg/controller/controller.go come to their end.
use sealed_secrets.Base.{
  ℕ, zero, suc, ◌<◌, ◌≡◌, ◌≢◌, refl, ◌∙◌, String, Bool, true, false, Option, none, some, Outcome,
  ok, err, panic, arith,
}
use sealed_secrets.Crypto.{Primitives}
use sealed_secrets.Sealed.{Codecs}
use sealed_secrets.World.{World}
use sealed_secrets.Controller.{Controller}
use sealed_secrets.Controller.Reconcile.{unseal_key}
use sealed_secrets.Controller.Queue.{WorkQueue, to_continue, process_key, process_next_item}
use sealed_secrets.Controller.Worker.{
  Wiring, Runtime, Worker, Ended, while_true, run_worker, run, has_synced, start_informers,
}
use sealed_secrets.Controller.Closing.{IsClosing, worked, worked-closed, worked-pending}

module _ (q : WorkQueue) (closing : IsClosing q) (max_retries : ℕ) {p : Primitives} (c : Codecs)
    (w : World p) where
  -- The worker has come to an end, and has left nothing to do unless it panicked.
  pub record IsEnded (result : Ended q max_retries c w) : Type 0 where
    pub out : Outcome (Unit {0})
    pub state : Worker q max_retries c w
    pub is_result : result ≡ some (out, state)
    pub nothing_left : out ≡ ok tt → closing.pending state.0 ≡ 0

  -- A closed queue with fewer keys than a number makes a loop end.
  abbrev Ends : (Worker q max_retries c w → Ended q max_retries c w) → ℕ → Type 0
  Ends rest fuel =
      (items : q.Items) (s : Controller w)
      → closing.closed items ≡ true
      → closing.pending items < fuel
      → IsEnded (rest (items, s))

  settled-IsEnded :
      (rest : Worker q max_retries c w → Ended q max_retries c w) (fuel : ℕ) (key : String)
      (r : Outcome (Unit {0})) (items : q.Items) (s : Controller w)
      → Ends rest fuel
      → closing.closed items ≡ true
      → closing.pending items < fuel
      → IsEnded (
          while_true q max_retries c w rest
            (to_continue q max_retries c w r, (worked q closing max_retries key r items, s)))
  settled-IsEnded rest fuel key (ok done) items s ends h few =
      ends _ s (worked-closed q closing max_retries key (ok done) items ∙ h)
        (rw (worked-pending q closing max_retries key (ok done) items h) few)
  settled-IsEnded rest fuel key (err e) items s ends h few =
      ends _ s (worked-closed q closing max_retries key (err e) items ∙ h)
        (rw (worked-pending q closing max_retries key (err e) items h) few)
  settled-IsEnded rest fuel key panic items s ends h few = record {
    out = panic;
    state = (worked q closing max_retries key panic items, s);
    is_result = refl;
    nothing_left = λ e. absurd (cc e);
  }

  next-IsEnded :
      (rest : Worker q max_retries c w → Ended q max_retries c w) (fuel : ℕ) (items : q.Items)
      (s : Controller w) (key : Option String)
      → Ends rest fuel
      → closing.closed items ≡ true
      → closing.pending items < suc fuel
      → (q.next items).0 ≡ key
      → IsEnded (
          while_true q max_retries c w rest
            (process_key q max_retries c w key ((q.next items).1, s)))
  unfolding process_key
  next-IsEnded rest fuel items s none ends h few e = record {
    out = ok tt;
    state = ((q.next items).1, s);
    is_result = refl;
    nothing_left = λ _. (closing.ends items e).1;
  }
  next-IsEnded rest fuel items s (some key) ends h few e =
      let took = closing.next_takes items key h e in
      settled-IsEnded rest fuel key (unseal_key c w key s).0 (q.next items).1
        (unseal_key c w key s).1 ends (closing.next_closed items ∙ h) (omega (arith, few, took))

  -- With a queue that, once it is shut down, takes nothing new, hands out what it has and then says
  -- that it is at its end: on such a queue the loop of runWorker comes to its end in fewer rounds than
  -- the number of pending keys and two, and has left no key unless the unsealing of one panicked.
  pub run_worker-IsEnded :
      (fuel : ℕ) (items : q.Items) (s : Controller w)
      → closing.closed items ≡ true
      → closing.pending items < fuel
      → IsEnded (run_worker q max_retries c w fuel (items, s))
  unfolding run_worker process_next_item
  run_worker-IsEnded zero items s h few = absurd (omega (arith, few))
  run_worker-IsEnded (suc fuel) items s h few =
      next-IsEnded (run_worker q max_retries c w fuel) fuel items s (q.next items).0
        (run_worker-IsEnded fuel) h few refl

  -- No key makes the controller panic.
  abbrev pub IsCalm : Type 0
  IsCalm = (key : String) (s : Controller w) → (unseal_key c w key s).0 ≢ panic

  -- An open queue keeps a loop from its end.
  abbrev GoesOn : (Worker q max_retries c w → Ended q max_retries c w) → Type 0
  GoesOn rest =
      (items : q.Items) (s : Controller w) → closing.closed items ≡ false → rest (items, s) ≡ none

  settled-GoesOn :
      (rest : Worker q max_retries c w → Ended q max_retries c w) (key : String)
      (r : Outcome (Unit {0})) (items : q.Items) (s : Controller w)
      → GoesOn rest
      → r ≢ panic
      → closing.closed items ≡ false
      → while_true q max_retries c w rest
          (to_continue q max_retries c w r, (worked q closing max_retries key r items, s))
        ≡ none
  settled-GoesOn rest key (ok done) items s on calm h =
      on _ s (worked-closed q closing max_retries key (ok done) items ∙ h)
  settled-GoesOn rest key (err e) items s on calm h =
      on _ s (worked-closed q closing max_retries key (err e) items ∙ h)
  settled-GoesOn rest key panic items s on calm h = absurd (calm refl)

  next-GoesOn :
      (rest : Worker q max_retries c w → Ended q max_retries c w) (items : q.Items)
      (s : Controller w) (key : Option String)
      → GoesOn rest
      → IsCalm
      → closing.closed items ≡ false
      → (q.next items).0 ≡ key
      → while_true q max_retries c w rest (process_key q max_retries c w key ((q.next items).1, s))
        ≡ none
  unfolding process_key
  next-GoesOn rest items s none on calm h e = absurd (cc (h, (closing.ends items e).0))
  next-GoesOn rest items s (some key) on calm h e =
      settled-GoesOn rest key (unseal_key c w key s).0 (q.next items).1 (unseal_key c w key s).1 on
        (calm key s) (closing.next_closed items ∙ h)

  run_worker-GoesOn : (fuel : ℕ) → IsCalm → GoesOn (run_worker q max_retries c w fuel)
  unfolding run_worker process_next_item
  run_worker-GoesOn zero calm items s h = refl
  run_worker-GoesOn (suc fuel) calm items s h =
      next-GoesOn (run_worker q max_retries c w fuel) items s (q.next items).0
        (run_worker-GoesOn fuel calm) calm h refl

  -- wait.Until comes to no end while the function that it runs has not, unless it was stopped before.
  pub record IsWaiting (r : Runtime (Worker q max_retries c w)) : Type 1 where
    pub stopped : Worker q max_retries c w → Bool
    pub until_waits :
        (f : Worker q max_retries c w → Ended q max_retries c w) (state : Worker q max_retries c w)
        → stopped state ≡ false
        → f state ≡ none
        → r.until f state ≡ none

  -- With such a queue, which nobody but Run shuts down, with unsealing that never panics, and with a
  -- wait.Until that does not return while the function that it runs has not: when the caches have
  -- synced and the stop has not been asked for yet, Run has no end after any number of rounds of its
  -- worker, so a later stop does not end it.
  pub run-unstopped :
      (r : Runtime (Worker q max_retries c w)) (waiting : IsWaiting r) (wiring : Wiring r.Informer)
      (state state' : Worker q max_retries c w) (fuel : ℕ)
      → IsCalm
      → r.wait_for_cache_sync (has_synced r wiring) (start_informers r wiring state)
        ≡ (true, state')
      → waiting.stopped state' ≡ false
      → closing.closed state'.0 ≡ false
      → run q max_retries c w r wiring fuel state ≡ none
  unfolding run
  run-unstopped r waiting wiring state state' fuel calm synced going open_queue =
      let goes = run_worker-GoesOn fuel calm state'.0 state'.1 open_queue in
      rw (synced, waiting.until_waits (run_worker q max_retries c w fuel) state' going goes) refl

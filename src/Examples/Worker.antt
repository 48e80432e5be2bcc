-- ===== src/Examples/Worker.antt =====
-- A worker at a toy queue, which counts the keys that are left and knows whether it is shut down.
use sealed_secrets.Base.{
  ℕ, zero, suc, ◌≡◌, refl, String, Bool, true, false, Option, none, some, arith, Bool-cases, inl,
  inr,
}
use sealed_secrets.Controller.Reconcile.{unseal_key, collect_garbage}
use sealed_secrets.Controller.Queue.{WorkQueue}
use sealed_secrets.Controller.Worker.{
  Wiring, Runtime, Worker, run_worker, run, has_synced, start_informers,
}
use sealed_secrets.Controller.Closing.{IsClosing}
use sealed_secrets.Controller.Stopping.{
  IsEnded, IsCalm, IsWaiting, run_worker-IsEnded, run-unstopped,
}
use sealed_secrets.Examples.Toy.{toy_codecs}
use sealed_secrets.Examples.ToyWorld.{toy_world}
use sealed_secrets.Examples.Cluster.{toy_controller}

-- An open queue that is empty waits for the key n/s.
abbrev next_key : Bool × ℕ → Option String × (Bool × ℕ)
next_key (closed, suc n) = (some "n/s", (closed, n))
next_key (true, zero) = (none, (true, zero))
next_key (false, zero) = (some "n/s", (false, zero))

abbrev more_of : Bool × ℕ → Bool × ℕ
more_of (true, n) = (true, n)
more_of (false, n) = (false, suc n)

abbrev closing_queue : WorkQueue
closing_queue = record {
  Items = Bool × ℕ;
  next = next_key;
  add = λ key items. more_of items;
  done = λ key items. items;
  forget = λ key items. items;
  num_requeues = λ key items. 0;
  add_rate_limited = λ key items. more_of items;
  shut_down = λ items. (true, items.1);
}

next-end :
    (items : Bool × ℕ) → (next_key items).0 ≡ none → (items.0 ≡ true) × ((next_key items).1.1 ≡ 0)
next-end (closed, suc n) e = absurd (cc e)
next-end (true, zero) e = (refl, refl)
next-end (false, zero) e = absurd (cc e)

next-takes :
    (items : Bool × ℕ) (key : String)
    → items.0 ≡ true
    → (next_key items).0 ≡ some key
    → items.1 ≡ suc (next_key items).1.1
next-takes (closed, suc n) key h e = refl
next-takes (true, zero) key h e = absurd (cc e)
next-takes (false, zero) key h e = absurd (cc h)

next-open : (items : Bool × ℕ) → (next_key items).1.0 ≡ items.0
next-open (closed, suc n) = refl
next-open (true, zero) = refl
next-open (false, zero) = refl

more-open : (items : Bool × ℕ) → (more_of items).0 ≡ items.0
more-open (true, n) = refl
more-open (false, n) = refl

more-closed : (items : Bool × ℕ) → items.0 ≡ true → (more_of items).1 ≡ items.1
more-closed (true, n) h = refl
more-closed (false, n) h = absurd (cc h)

abbrev closing_laws : IsClosing closing_queue
closing_laws = record {
  pending = λ items. items.1;
  closed = λ items. items.0;
  ends = next-end;
  next_takes = next-takes;
  next_closed = next-open;
  done_closed = λ k items. refl;
  forget_closed = λ k items. refl;
  add_closed = λ k items. more-open items;
  done_pending = λ k items. refl;
  forget_pending = λ k items. refl;
  add_pending = λ k items. more-closed items;
}

run_worker-IsEnded_example :
    IsEnded closing_queue closing_laws 5 toy_codecs toy_world
      (run_worker closing_queue 5 toy_codecs toy_world 3 ((true, 2), toy_controller))
run_worker-IsEnded_example =
    run_worker-IsEnded closing_queue closing_laws 5 toy_codecs toy_world 3 (true, 2) toy_controller
      refl (omega arith)

-- No sealed secret is there.
toy_world-IsCalm : IsCalm closing_queue closing_laws 5 toy_codecs toy_world
unfolding unseal_key collect_garbage
toy_world-IsCalm key s = elim (Bool-cases s.old_gc_behavior) [
  | inl old ↦ λ e. absurd (cc (rw old at e))
  | inr other ↦ λ e. absurd (cc (rw other at e))
]

abbrev ToyWorker : Type 0
ToyWorker = Worker closing_queue 5 toy_codecs toy_world

-- Everything is synced, and the function that is run until a stop is run once.
abbrev toy_runtime : Runtime ToyWorker
toy_runtime = record {
  Informer = Unit;
  informer_synced = λ informer state. true;
  start = λ informer state. state;
  wait_for_cache_sync = λ synced state. (synced state, state);
  until = λ f state. f state;
}

abbrev waiting_laws : IsWaiting closing_queue closing_laws 5 toy_codecs toy_world toy_runtime
waiting_laws = record { stopped = λ state. false; until_waits = λ f state h e. e }

abbrev toy_wiring : Wiring (Unit {0})
toy_wiring = record { ss_informer = tt; s_informer = some tt; k_informer = none }

run-unstopped_example :
    run closing_queue 5 toy_codecs toy_world toy_runtime toy_wiring 7 ((false, 2), toy_controller)
    ≡ none
unfolding has_synced start_informers
run-unstopped_example =
    run-unstopped closing_queue closing_laws 5 toy_codecs toy_world toy_runtime waiting_laws
      toy_wiring ((false, 2), toy_controller) ((false, 2), toy_controller) 7 toy_world-IsCalm refl
      refl refl

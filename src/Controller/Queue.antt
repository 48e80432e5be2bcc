-- ===== src/Controller/Queue.antt =====
-- Controller.processNextItem of pkg/controller/controller.go. The rate-limited work queue of client-go is a
-- parameter: a state and the calls that the controller makes of it.
use sealed_secrets.Base.{
  ℕ, suc, ◌≡◌, String, Bool, true, false, Option, none, some, Outcome, ok, err, panic, ltb, ◌==◌,
  if◌then◌else◌,
}
use sealed_secrets.Base.Action.{Action}
use sealed_secrets.Crypto.{Primitives}
use sealed_secrets.Sealed.{Codecs}
use sealed_secrets.World.{World}
use sealed_secrets.Controller.{Controller, is_immutable_error}
use sealed_secrets.Controller.Reconcile.{unseal_key}

-- `next` is queue.Get: no key when the queue shuts down.
pub record WorkQueue : Type 1 where
  pub Items : Type 0
  pub next : Items → Option String × Items
  pub add : String → Items → Items
  pub done : String → Items → Items
  pub forget : String → Items → Items
  pub num_requeues : String → Items → ℕ
  pub add_rate_limited : String → Items → Items
  pub shut_down : Items → Items

-- How the calls change the count of retries, as client-go documents it.
pub record IsRateLimited (q : WorkQueue) : Type 0 where
  pub next_keeps :
      (j : String) (items : q.Items) → q.num_requeues j (q.next items).1 ≡ q.num_requeues j items
  pub done_keeps :
      (k j : String) (items : q.Items) → q.num_requeues j (q.done k items) ≡ q.num_requeues j items
  pub forget_resets :
      (k j : String) (items : q.Items)
      → q.num_requeues j (q.forget k items) ≡ (if k == j then 0 else q.num_requeues j items)
  pub add_counts :
      (k j : String) (items : q.Items)
      → q.num_requeues j (q.add_rate_limited k items)
        ≡ (if k == j then suc (q.num_requeues j items) else q.num_requeues j items)

module _ (q : WorkQueue) (max_retries : ℕ) where
  -- The branches on the error of unseal.
  unfoldable pub settle : String → Outcome (Unit {0}) → q.Items → q.Items
  settle key (ok done) items = q.forget key items
  settle key (err e) items =
      if is_immutable_error e
      then q.forget key items
      else if ltb (q.num_requeues key items) max_retries
      then q.add_rate_limited key items
      else q.forget key items
  settle key panic items = items

  module _ {p : Primitives} (c : Codecs) (w : World p) where
    -- The answer of processNextItem: a panic of unseal goes on.
    abbrev pub to_continue : Outcome (Unit {0}) → Outcome Bool
    to_continue (ok done) = ok true
    to_continue (err e) = ok true
    to_continue panic = panic

    -- The key from the queue is unsealed, the result settled, and the key done with in every case.
    unfoldable pub process_key : Option String → Action (q.Items × Controller w) Bool
    unfolding settle
    process_key none state = (ok false, state)
    process_key (some key) (items, s) =
        let (r, s') = unseal_key c w key s in (to_continue r, (q.done key (settle key r items), s'))

    -- processNextItem
    unfoldable pub process_next_item : Action (q.Items × Controller w) Bool
    unfolding process_key
    process_next_item (items, s) = let (key, items') = q.next items in process_key key (items', s)

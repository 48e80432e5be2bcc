-- ===== src/Controller/Closing.antt =====
-- A work queue that is shut down, and what the settling of a key does to it.
use sealed_secrets.Base.{
  ℕ, suc, ◌≡◌, refl, ◌∙◌, String, Bool, true, none, some, Outcome, ok, err, panic, ltb, if_both,
}
use sealed_secrets.Controller.{is_immutable_error}
use sealed_secrets.Controller.Queue.{WorkQueue, settle}

-- How a queue that one worker reads is shut down, as client-go documents it: it takes nothing new, hands out what it
-- has, and only then says so to the worker. `pending` counts the keys that are to be worked on. Nobody but Run shuts
-- the queue down, so it is as open after a look at it as before.
pub record IsClosing (q : WorkQueue) : Type 0 where
  pub pending : q.Items → ℕ
  pub closed : q.Items → Bool
  pub ends :
      (items : q.Items)
      → (q.next items).0 ≡ none
      → (closed items ≡ true) × (pending (q.next items).1 ≡ 0)
  pub next_takes :
      (items : q.Items) (key : String)
      → closed items ≡ true
      → (q.next items).0 ≡ some key
      → pending items ≡ suc (pending (q.next items).1)
  pub next_closed : (items : q.Items) → closed (q.next items).1 ≡ closed items
  pub done_closed : (k : String) (items : q.Items) → closed (q.done k items) ≡ closed items
  pub forget_closed : (k : String) (items : q.Items) → closed (q.forget k items) ≡ closed items
  pub add_closed :
      (k : String) (items : q.Items) → closed (q.add_rate_limited k items) ≡ closed items
  pub done_pending : (k : String) (items : q.Items) → pending (q.done k items) ≡ pending items
  pub forget_pending : (k : String) (items : q.Items) → pending (q.forget k items) ≡ pending items
  pub add_pending :
      (k : String) (items : q.Items)
      → closed items ≡ true
      → pending (q.add_rate_limited k items) ≡ pending items

module _ (q : WorkQueue) (closing : IsClosing q) (max_retries : ℕ) where
  settle-closed :
      (key : String) (r : Outcome (Unit {0})) (items : q.Items)
      → closing.closed (settle q max_retries key r items) ≡ closing.closed items
  unfolding settle
  settle-closed key (ok done) items = closing.forget_closed key items
  settle-closed key (err e) items =
      if_both (λ v. closing.closed v ≡ closing.closed items) (is_immutable_error e) _ _
        (closing.forget_closed key items)
        (if_both (λ v. closing.closed v ≡ closing.closed items)
          (ltb (q.num_requeues key items) max_retries) _ _ (closing.add_closed key items)
          (closing.forget_closed key items))
  settle-closed key panic items = refl

  settle-pending :
      (key : String) (r : Outcome (Unit {0})) (items : q.Items)
      → closing.closed items ≡ true
      → closing.pending (settle q max_retries key r items) ≡ closing.pending items
  unfolding settle
  settle-pending key (ok done) items h = closing.forget_pending key items
  settle-pending key (err e) items h =
      if_both (λ v. closing.pending v ≡ closing.pending items) (is_immutable_error e) _ _
        (closing.forget_pending key items)
        (if_both (λ v. closing.pending v ≡ closing.pending items)
          (ltb (q.num_requeues key items) max_retries) _ _ (closing.add_pending key items h)
          (closing.forget_pending key items))
  settle-pending key panic items h = refl

  abbrev pub worked : String → Outcome (Unit {0}) → q.Items → q.Items
  worked key r items = q.done key (settle q max_retries key r items)

  pub worked-closed :
      (key : String) (r : Outcome (Unit {0})) (items : q.Items)
      → closing.closed (worked key r items) ≡ closing.closed items
  worked-closed key r items = closing.done_closed key _ ∙ settle-closed key r items

  pub worked-pending :
      (key : String) (r : Outcome (Unit {0})) (items : q.Items)
      → closing.closed items ≡ true
      → closing.pending (worked key r items) ≡ closing.pending items
  worked-pending key r items h = closing.done_pending key _ ∙ settle-pending key r items h

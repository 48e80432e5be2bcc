-- ===== src/Controller/Retries.antt =====
-- How often a key is tried again.
use sealed_secrets.Base.{
  ℕ, suc, ◌≡◌, ◌≤◌, String, true, Option, none, some, Outcome, ok, err, panic, ltb, ltb→lt, ◌==◌,
  eq_iff, Bool-cases, inl, inr, arith, if_both, subst,
}
use sealed_secrets.Crypto.{Primitives}
use sealed_secrets.Sealed.{Codecs}
use sealed_secrets.World.{World}
use sealed_secrets.Controller.{Controller, is_immutable_error}
use sealed_secrets.Controller.Reconcile.{unseal_key}
use sealed_secrets.Controller.Queue.{
  WorkQueue, IsRateLimited, settle, process_key, process_next_item,
}

module _ (q : WorkQueue) (limited : IsRateLimited q) (max_retries : ℕ) where
  -- No key has been tried again more often than that.
  abbrev pub IsWithin : q.Items → Type 0
  IsWithin items = (j : String) → q.num_requeues j items ≤ max_retries

  forget-IsWithin :
      (key : String) (items : q.Items) → IsWithin items → IsWithin (q.forget key items)
  forget-IsWithin key items h j =
      rw (limited.forget_resets key j items)
        (if_both (λ n. n ≤ max_retries) (key == j) 0 _ (omega arith) (h j))

  add-IsWithin :
      (key : String) (items : q.Items)
      → ltb (q.num_requeues key items) max_retries ≡ true
      → IsWithin items
      → IsWithin (q.add_rate_limited key items)
  add-IsWithin key items room h j = elim (Bool-cases (key == j)) [
    | inl same ↦
        let below = ltb→lt (q.num_requeues key items) max_retries room in
        rw (limited.add_counts key j items, same)
          (subst (λ k. suc (q.num_requeues k items) ≤ max_retries) ((eq_iff key j).0 same)
            (omega (arith, below)))
    | inr other ↦ rw (limited.add_counts key j items, other) (h j)
  ]

  settle-IsWithin :
      (key : String) (r : Outcome (Unit {0})) (items : q.Items)
      → IsWithin items
      → IsWithin (settle q max_retries key r items)
  unfolding settle
  settle-IsWithin key (ok done) items h = forget-IsWithin key items h
  settle-IsWithin key (err e) items h = elim (Bool-cases (is_immutable_error e)) [
    | inl immutable ↦ rw immutable (forget-IsWithin key items h)
    | inr other ↦ rw other (elim (Bool-cases (ltb (q.num_requeues key items) max_retries)) [
      | inl room ↦ rw room (add-IsWithin key items room h)
      | inr spent ↦ rw spent (forget-IsWithin key items h)
    ])
  ]
  settle-IsWithin key panic items h = h

  module _ {p : Primitives} (c : Codecs) (w : World p) where
    process_key-IsWithin :
        (key : Option String) (items : q.Items) (s : Controller w)
        → IsWithin items
        → IsWithin (process_key q max_retries c w key (items, s)).1.0
    unfolding process_key
    process_key-IsWithin none items s h = h
    process_key-IsWithin (some key) items s h = λ j.
        let settled = settle q max_retries key (unseal_key c w key s).0 items in
        rw (limited.done_keeps key j settled)
          (settle-IsWithin key (unseal_key c w key s).0 items h j)

    -- With a queue that counts an added key once more, a forgotten one from 0 again, and changes no
    -- other count: if no key has been requeued more often than the maximum of retries, then none has
    -- after processNextItem, however the unsealing ends.
    pub process_next_item-IsWithin :
        (items : q.Items) (s : Controller w)
        → IsWithin items
        → (j : String)
        → q.num_requeues j (process_next_item q max_retries c w (items, s)).1.0 ≤ max_retries
    unfolding process_next_item
    process_next_item-IsWithin items s h =
        process_key-IsWithin (q.next items).0 (q.next items).1 s
          (λ j. rw (limited.next_keeps j items) (h j))

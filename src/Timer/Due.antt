-- ===== src/Timer/Due.antt =====
-- `expire_timer` when no timer is due.
use middleware_development_d.Prelude.{
  ℕ, suc, ◌<◌, ◌≡◌, ◌≢◌, true, List, ◌∷◌, arith, ltb, ◌==◌, Run, ok,
}
use middleware_development_d.Rbtree.Store.{Ptr}
use middleware_development_d.Rbtree.Shape.{Shape, leaf, keys}
use middleware_development_d.Timer.{Timers, expire_timer}
use middleware_development_d.Timer.Nearest.{
  IsTimers, leftmost_node, top-ne, keys-head, nonleaf_of_keys,
}

module _ {S : Type 0} (timers : S → Timers) (put_timers : Timers → S → S)
    (run : ℕ → Ptr → S → Run S) (fuel rounds now : ℕ) (w : S) where
  -- With no timer set, `expire_timer` does nothing.
  pub expire_timer-empty :
      IsTimers fuel (timers w) leaf
      → expire_timer timers put_timers run fuel (suc rounds) now w ≡ ok w
  unfolding expire_timer
  expire_timer-empty is =
      let e : ((timers w).tree.root == (timers w).tree.sentinel) ≡ true = ground (arith, is.root) in
      rw e

  -- With rounds enough for the tree's size: while the first timer is later than the time read, `expire_timer` finds it, and then runs and
  -- removes nothing.
  pub expire_timer-waits :
      (sh : Shape) (k : ℕ) (ks : List ℕ)
      → IsTimers fuel (timers w) sh
      → keys sh ≡ k ∷ ks
      → now < k
      → expire_timer timers put_timers run fuel (suc rounds) now w ≡ ok w
  unfolding expire_timer
  expire_timer-waits sh k ks is e later =
      let full : sh ≢ leaf = nonleaf_of_keys sh e in
      let (p, k', found, first) = leftmost_node is full in
      let same : k' ≡ k = keys-head sh first.first_key e in
      let due : ltb now k' ≡ true = ground (arith, same) in
      rw (top-ne (timers w) sh is full, found, first.reads_key, due)

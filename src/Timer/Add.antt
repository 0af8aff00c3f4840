-- ===== src/Timer/Add.antt =====
-- `init_timer` and `add_timer`, by the sorted list of the deadlines, and what `find_nearest_expire_timer`
-- makes of a new timer.
use middleware_development_d.Prelude.{
  ℕ, ◌<◌, ◌≡◌, ◌≢◌, refl, true, false, some, List, length, arith, ◌==◌, add32, Run, ok, Returns,
  returns,
}
use middleware_development_d.Rbtree.Store.{Ptr, null, Node, Tree}
use middleware_development_d.Rbtree.Insert.{timer_less, insert_timer_value}
use middleware_development_d.Rbtree.Steps.{write_same}
use middleware_development_d.Rbtree.Order.{Window, timer_less-Order, insert_item, Sorted}
use middleware_development_d.Rbtree.Whole.{IsRbTree, count, write-IsRbTree}
use middleware_development_d.Rbtree.Inserts.{insert-IsRbTree}
use middleware_development_d.Timer.{Entry, Timers, on_tree, zeroed, with_entry, add_timer}

pub on_tree-Returns :
    {P : Timers → Type 0} {Q : Unit {0} × Tree → Type 0} (t : Timers) {m : Run (Unit {0} × Tree)}
    → Returns Q m
    → ((tree : Tree) → Q (tt, tree) → P (record t { tree = tree }))
    → Returns P (on_tree t m ok)
on_tree-Returns t (returns {a = r} q) next = returns (next r.1 q)

-- Let the timers form a red-black tree, with deadlines in order and within 2^31 milliseconds from some time
-- `start` on, the new one too, and let `malloc` give a block that is in use nowhere. With fuel for the number
-- of timers, `add_timer` returns, and leaves such a tree, with the deadline `msec` from now put in before the
-- first later one; the block holds the entry, and the other entries are as they were.
pub add_timer-IsRbTree :
    (fuel start : ℕ) (s te : Ptr) (now msec : ℕ) (entry : Entry) (t : Timers)
    (listed : List (Ptr × ℕ × ℕ))
    → start < 4294967296
    → IsRbTree s t.tree listed
    → Sorted timer_less (Window start) listed
    → te ≢ null
    → te ≢ s
    → count te listed ≡ 0
    → Window start (add32 msec now)
    → length listed < fuel
    → Returns
        (λ t'.
          IsRbTree s t'.tree (insert_item timer_less (te, add32 msec now, 0) listed)
          × Sorted timer_less (Window start) (insert_item timer_less (te, add32 msec now, 0) listed)
          × (t'.entries te ≡ entry)
          × ((p : Ptr) → p ≢ te → t'.entries p ≡ t.entries p))
        (add_timer fuel te now msec entry t)
unfolding add_timer insert_timer_value
add_timer-IsRbTree fuel start s te now msec entry t listed small is sorted given real out inside
      enough =
    let block : (te == null) ≡ false = ground (arith, given) in
    let n : Node = record zeroed { key = add32 msec now } in
    let same : (te == te) ≡ true = ground arith in
    rw block (
      on_tree-Returns (with_entry t te entry (add32 msec now))
        (insert-IsRbTree timer_less (timer_less-Order start small) fuel s
          (with_entry t te entry (add32 msec now)).tree listed te n
          (write-IsRbTree s t.tree listed te (some n) is real out) sorted
          (write_same t.tree.cells te (some n)) real out inside enough)
        λ tree (done, ordered). (
          done,
          ordered,
          rw same refl,
          λ p ne. let other : (p == te) ≡ false = ground (arith, ne) in rw other refl,
        ))

-- ===== src/Timer/Sequence.antt =====
-- `init_timer`, then any number of calls of `add_timer`.
use middleware_development_d.Prelude.{
  ℕ, ◌+◌, ◌≤◌, ◌<◌, ◌≡◌, ◌≢◌, some, List, [], ◌∷◌, length, arith, add32, Run, ok, ◌>>=◌, Returns,
  returns,
}
use middleware_development_d.Rbtree.Store.{Ptr, null, Node}
use middleware_development_d.Rbtree.Insert.{timer_less}
use middleware_development_d.Rbtree.Order.{Window, insert_item, Sorted}
use middleware_development_d.Rbtree.Whole.{IsRbTree, count, length-insert_item, init-IsRbTree}
use middleware_development_d.Timer.{Entry, Timers, init_timer, add_timer}
use middleware_development_d.Timer.Add.{on_tree-Returns, add_timer-IsRbTree}

-- One call: what `malloc` gives, the time, and the arguments.
pub record Request : Type 0 where
  pub te : Ptr
  pub now : ℕ
  pub msec : ℕ
  pub entry : Entry

unfoldable pub add_all : ℕ → List Request → Timers → Run Timers
unfolding add_timer
add_all fuel [] t = ok t
add_all fuel (q ∷ qs) t = add_timer fuel q.te q.now q.msec q.entry t >>= add_all fuel qs

abbrev pub asked : Request → Ptr × ℕ × ℕ
asked q = (q.te, add32 q.msec q.now, 0)

-- The deadlines put into a sorted list, one after the other.
abbrev pub insert_all : List Request → List (Ptr × ℕ × ℕ) → List (Ptr × ℕ × ℕ)
insert_all [] listed = listed
insert_all (q ∷ qs) listed = insert_all qs (insert_item timer_less (asked q) listed)

-- Each block is new, and each deadline in the window.
abbrev pub Granted : ℕ → Ptr → List Request → List (Ptr × ℕ × ℕ) → Type 0
Granted start s [] listed = Unit {0}
Granted start s (q ∷ qs) listed =
    (q.te ≢ null)
    × (q.te ≢ s)
    × (count q.te listed ≡ 0)
    × Window start (add32 q.msec q.now)
    × Granted start s qs (insert_item timer_less (asked q) listed)

module _ (fuel start : ℕ) (s : Ptr) (small : start < 4294967296) where
  and_then-Returns :
      {P Q : Timers → Type 0} {m : Run Timers} {k : Timers → Run Timers}
      → Returns P m
      → ((t : Timers) → P t → Returns Q (k t))
      → Returns Q (m >>= k)
  and_then-Returns (returns {a = t} p) next = next t p

  add_all-from :
      (qs : List Request) (listed : List (Ptr × ℕ × ℕ)) (t : Timers)
      → IsRbTree s t.tree listed
      → Sorted timer_less (Window start) listed
      → Granted start s qs listed
      → length listed + length qs ≤ fuel
      → Returns
          (λ t'.
            IsRbTree s t'.tree (insert_all qs listed)
            × Sorted timer_less (Window start) (insert_all qs listed))
          (add_all fuel qs t)
  unfolding add_all
  add_all-from [] listed t is sorted granted enough = returns (is, sorted)
  add_all-from (q ∷ qs) listed t is sorted (given, real, out, inside, granted) enough =
      and_then-Returns
        (add_timer-IsRbTree fuel start s q.te q.now q.msec q.entry t listed small is sorted given
          real out inside (omega (arith, enough)))
        λ t' (is', sorted', here, others).
          add_all-from qs (insert_item timer_less (asked q) listed) t' is' sorted' granted
            (omega (arith, enough, length-insert_item timer_less (asked q) listed))

  -- With the sentinel in memory, blocks from `malloc` that are new each time, deadlines within 2^31
  -- milliseconds from `start` on, and fuel for their number: `init_timer` and then the calls of `add_timer`
  -- return, and leave a red-black tree whose items are in order, namely the deadlines sorted by insertion.
  pub add_all-sorts :
      (qs : List Request) (t : Timers) (n : Node)
      → t.tree.cells s ≡ some n
      → Granted start s qs []
      → length qs ≤ fuel
      → Returns
          (λ t'.
            IsRbTree s t'.tree (insert_all qs [])
            × Sorted timer_less (Window start) (insert_all qs []))
          (init_timer s t >>= add_all fuel qs)
  unfolding init_timer
  add_all-sorts qs t n at granted enough =
      and_then-Returns
        (on_tree-Returns {P = λ t'. IsRbTree s t'.tree []} t (init-IsRbTree t.tree s n at)
          λ tree is. is)
        λ t' is. add_all-from qs [] t' is tt granted (omega (arith, enough))

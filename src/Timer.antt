-- ===== src/Timer.antt =====
-- The timers of `4.3 Redis/4.3.2Redis协议与异步方式/src/example/evnet/rbt-timer.h`, over the tree of
-- `Rbtree`. A `timer_entry_t` begins with its `rbnode`, so the two have one address. The
-- time is an argument of the functions that read it.
pub mod Nearest
pub mod Due
pub mod Add
pub mod Soonest
pub mod Sequence
pub mod Dues
pub mod Remove
pub mod Handlers
pub mod Expire
pub mod Wait
mod Tests
use middleware_development_d.Prelude.{
  ℕ, zero, suc, Bool, Option, none, some, List, [], ◌∷◌, ltb, ◌==◌, if◌then◌else◌, ◌*◌, ◌/◌, u32,
  add32, sub32, ℤ, pos, minus_one, signed32, Run, ok, fault, out_of_fuel,
}
use middleware_development_d.Rbtree.Store.{Ptr, null, Node, Tree, M, write, init, key}
use middleware_development_d.Rbtree.Rotate.{left_rotate, right_rotate}
use middleware_development_d.Rbtree.Walk.{min_node}
use middleware_development_d.Rbtree.Insert.{insert, insert_timer_value}
use middleware_development_d.Rbtree.Delete.{delete}

-- `handler`, by number, and `privdata`
pub record Entry : Type 0 where
  pub handler : Option ℕ
  pub privdata : ℕ

-- The global `timer` and the blocks that `add_timer` allocated.
pub record Timers : Type 0 where
  pub tree : Tree
  pub entries : Ptr → Entry

-- A command on the tree, as one on the timers.
abbrev pub on_tree {ℓ} : {B : Type ℓ} → Timers → Run (Unit {0} × Tree) → (Timers → Run B) → Run B
on_tree t (ok (_, tree)) k = k (record t { tree = tree })
on_tree t fault k = fault
on_tree t out_of_fuel k = out_of_fuel

unfoldable pub init_timer : Ptr → Timers → Run Timers
unfolding init
init_timer sentinel t = on_tree t (init sentinel t.tree) ok

-- The block of a fresh entry, after `memset`.
abbrev pub zeroed : Node
zeroed = record { key = 0; left = 0; right = 0; parent = 0; color = 0; payload = 0 }

abbrev pub with_entry : Timers → Ptr → Entry → ℕ → Timers
with_entry t te entry when = record {
  tree = record t.tree { cells = write t.tree.cells te (some (record zeroed { key = when })) };
  entries = λ p. if p == te then entry else t.entries p;
}

-- From what `clock_gettime` gives.
abbrev pub current_time : (sec : ℕ) → (nsec : ℕ) → ℕ
current_time sec nsec = add32 (u32 (u32 sec * 1000)) (nsec / 1000000)

-- `te` is what `malloc` gave; the block is written to without a look at whether it is NULL.
unfoldable pub add_timer : ℕ → Ptr → (now : ℕ) → (msec : ℕ) → Entry → Timers → Run Timers
unfolding insert insert_timer_value
add_timer fuel te now msec entry t =
    if te == null
    then fault
    else (let t' = with_entry t te entry (add32 msec now) in
        on_tree t' (insert fuel (insert_timer_value fuel) te t'.tree) ok)

-- `free(te)`
abbrev pub freed : Ptr → Timers → Timers
freed te t = record t { tree = record t.tree { cells = write t.tree.cells te none } }

unfoldable pub del_timer : ℕ → Ptr → Timers → Run Timers
unfolding delete
del_timer fuel te t = on_tree t (delete fuel te t.tree) λ t'. ok (freed te t')

-- The `int` that comes from the `unsigned int` difference `time`.
abbrev pub timeout_of : ℕ → ℤ
timeout_of time = signed32 (if ltb 0 time then time else 0)

unfoldable pub find_nearest_expire_timer : ℕ → (now : ℕ) → Timers → Run ℤ
unfolding min_node key
find_nearest_expire_timer fuel now t =
    if t.tree.root == t.tree.sentinel
    then ok minus_one
    else elim (min_node fuel t.tree.root t.tree.sentinel t.tree) [
      | ok (node, tree) ↦ elim (key node tree) [
        | ok (k, _) ↦ ok (timeout_of (sub32 k now))
        | fault ↦ fault
        | out_of_fuel ↦ out_of_fuel
      ]
      | fault ↦ fault
      | out_of_fuel ↦ out_of_fuel
    ]

-- What a handler `run` may change is a state of its own type, which the timers are part of.
module _ {S : Type 0} (timers : S → Timers) (put_timers : Timers → S → S)
    (run : ℕ → Ptr → S → Run S) where
  -- `if (te->handler) te->handler(te);`
  unfoldable pub touch : Ptr → S → Run S
  touch te w = elim ((timers w).entries te).handler [ none ↦ ok w | some h ↦ run h te w ]

  -- The loop of `expire_timer`, with `rounds` rounds at most.
  unfoldable pub expire_timer : ℕ → ℕ → (now : ℕ) → S → Run S
  unfolding touch min_node key del_timer
  expire_timer fuel zero now w = out_of_fuel
  expire_timer fuel (suc rounds) now w =
      let again = expire_timer fuel rounds now in
      let tree = (timers w).tree in
      if tree.root == tree.sentinel
      then ok w
      else elim (min_node fuel tree.root tree.sentinel tree) [
        | ok (node, tree') ↦ elim (key node tree') [
          | ok (k, _) ↦ if ltb now k then ok w else elim (touch node w) [
            | ok w' ↦ elim (del_timer fuel node (timers w')) [
              | ok t ↦ again (put_timers t w')
              | fault ↦ fault
              | out_of_fuel ↦ out_of_fuel
            ]
            | fault ↦ fault
            | out_of_fuel ↦ out_of_fuel
          ]
          | fault ↦ fault
          | out_of_fuel ↦ out_of_fuel
        ]
        | fault ↦ fault
        | out_of_fuel ↦ out_of_fuel
      ]

  -- `wait_timer_expire`: one reading of the clock for each round.
  unfoldable pub wait_timer_expire : ℕ → ℕ → List ℕ → S → Run S
  unfolding expire_timer
  wait_timer_expire fuel rounds [] w =
      if (timers w).tree.root == (timers w).tree.sentinel then ok w else out_of_fuel
  wait_timer_expire fuel rounds (now ∷ later) w =
      let again = wait_timer_expire fuel rounds later in
      if (timers w).tree.root == (timers w).tree.sentinel
      then ok w
      else elim (expire_timer fuel rounds now w) [
        | ok w' ↦ again w'
        | fault ↦ fault
        | out_of_fuel ↦ out_of_fuel
      ]

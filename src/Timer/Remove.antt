-- ===== src/Timer/Remove.antt =====
-- `del_timer`, and what the loop of `expire_timer` reads.
use middleware_development_d.Prelude.{
  ℕ, ◌≤◌, ◌≡◌, ◌≢◌, refl, sym, ap, ◌∙◌, true, false, none, List, [], ◌∷◌, length, arith, ◌==◌, Run,
  ok, Returns, returns,
}
use middleware_development_d.Rbtree.Store.{Ptr, Tree, key}
use middleware_development_d.Rbtree.Shape.{Shape, leaf, node, top}
use middleware_development_d.Rbtree.Balance.{items}
use middleware_development_d.Rbtree.Steps.{write_same}
use middleware_development_d.Rbtree.Walk.{min_node}
use middleware_development_d.Rbtree.Insert.{timer_less}
use middleware_development_d.Rbtree.Order.{Window, Sorted}
use middleware_development_d.Rbtree.Whole.{
  IsRbTree, count, count-once, is_real, size-items, write-IsRbTree,
}
use middleware_development_d.Rbtree.Drop.{remove_item, count-remove_item}
use middleware_development_d.Rbtree.Removes.{delete-IsRbTree}
use middleware_development_d.Rbtree.Visits.{item_addresses, addresses-items}
use middleware_development_d.Timer.{Timers, on_tree, del_timer}
use middleware_development_d.Timer.Nearest.{leftmost_node, top-ne, keys-head, nonleaf_of_keys}
use middleware_development_d.Timer.Soonest.{IsRbTree-IsTimers, item_keys, keys-items}

empty_top : (s : Ptr) (sh : Shape) → items sh ≡ [] → top s sh ≡ s
empty_top s leaf e = refl
empty_top s (node l a d r) e = absurd (omega (arith, size-items (node l a d r), ap length e))

-- What the loop reads first.
module _ (fuel : ℕ) (s : Ptr) (t : Timers) where
  pub empty_root : IsRbTree s t.tree [] → (t.tree.root == t.tree.sentinel) ≡ true
  empty_root is = same (is.focus.root ∙ empty_top s is.shape is.same_items ∙ sym is.focus.sentinel)
    where
      same : t.tree.root ≡ t.tree.sentinel → (t.tree.root == t.tree.sentinel) ≡ true
      same e = ground (arith, e)

  pub record Head (y : Ptr × ℕ × ℕ) : Type 0 where
    pub full : (t.tree.root == t.tree.sentinel) ≡ false
    pub found : min_node fuel t.tree.root t.tree.sentinel t.tree ≡ ok (y.0, t.tree)
    pub reads : key y.0 t.tree ≡ ok (y.1, t.tree)

  pub first-Head :
      (y : Ptr × ℕ × ℕ) (ys : List (Ptr × ℕ × ℕ))
      → IsRbTree s t.tree (y ∷ ys)
      → length (y ∷ ys) ≤ fuel
      → Head y
  first-Head y ys is enough =
      let timers = IsRbTree-IsTimers fuel s t (y ∷ ys) is enough in
      let e = keys-items is.shape ∙ ap item_keys is.same_items in
      let full : is.shape ≢ leaf = nonleaf_of_keys is.shape e in
      let (p, k, found, first) = leftmost_node timers full in
      let same_key : k ≡ y.1 = keys-head is.shape first.first_key e in
      let same : p ≡ y.0 =
        heads p y.0 _ _
          (sym first.first_address ∙ addresses-items is.shape ∙ ap item_addresses is.same_items) in
      record {
        full = top-ne t is.shape timers full;
        found = found ∙ ap (λ q. ok (q, t.tree)) same;
        reads =
            ap (λ q. key q t.tree) (sym same) ∙ first.reads_key ∙ ap (λ q. ok (q, t.tree)) same_key;
      }
    where
      heads : (a b : Ptr) (l m : List Ptr) → a ∷ l ≡ b ∷ m → a ≡ b
      heads a b l m e = cc

on_tree_then :
    {P : Timers → Type 0} {Q : Unit {0} × Tree → Type 0} (t : Timers) {m : Run (Unit {0} × Tree)}
    (k : Timers → Run Timers)
    → Returns Q m
    → ((tree : Tree) → Q (tt, tree) → Returns P (k (record t { tree = tree })))
    → Returns P (on_tree t m k)
on_tree_then t k (returns {a = r} q) next = next r.1 q

-- `del_timer` takes the entry out of the tree and of memory.
pub del_timer-IsRbTree :
    (fuel start : ℕ) (s te : Ptr) (t : Timers) (listed : List (Ptr × ℕ × ℕ))
    → IsRbTree s t.tree listed
    → Sorted timer_less (Window start) listed
    → 1 ≤ count te listed
    → length listed ≤ fuel
    → Returns
        (λ t'.
          IsRbTree s t'.tree (remove_item te listed)
          × Sorted timer_less (Window start) (remove_item te listed)
          × (t'.tree.cells te ≡ none)
          × (t'.entries ≡ t.entries))
        (del_timer fuel te t)
unfolding del_timer
del_timer-IsRbTree fuel start s te t listed is sorted inside enough =
    on_tree_then t _
      (delete-IsRbTree timer_less (Window start) fuel s t.tree listed te is sorted inside enough)
      λ tree (done, ordered). returns (
        write-IsRbTree s tree (remove_item te listed) te none done (is_real te is inside)
            (count-remove_item te listed (count-once te is)),
        ordered,
        write_same tree.cells te none,
        refl,
      )

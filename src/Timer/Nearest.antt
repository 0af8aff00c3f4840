-- ===== src/Timer/Nearest.antt =====
-- `find_nearest_expire_timer`: the timeout for epoll.
use middleware_development_d.Prelude.{
  ℕ, ◌-◌, ◌≤◌, ◌<◌, ◌≡◌, ◌≢◌, refl, sym, ap, ◌∙◌, false, List, [], ◌∷◌, arith, ◌==◌, sub32, pos,
  negsuc, ok,
}
use middleware_development_d.Rbtree.Store.{Ptr}
use middleware_development_d.Rbtree.Walk.{min_node}
use middleware_development_d.Rbtree.Shape.{Shape, leaf, node, size, top, keys, Holds}
use middleware_development_d.Rbtree.Leftmost.{First, min_node-First}
use middleware_development_d.Timer.{Timers, timeout_of, find_nearest_expire_timer}

-- The timers' tree has this shape, and the loops have rounds enough for it.
pub record IsTimers (fuel : ℕ) (t : Timers) (sh : Shape) : Type 0 where
  pub root : t.tree.root ≡ top t.tree.sentinel sh
  pub over : Ptr
  pub held : Holds t.tree.cells t.tree.sentinel over sh
  pub enough : size sh ≤ fuel

module _ {fuel : ℕ} {t : Timers} {sh : Shape} (is : IsTimers fuel t sh) where
  -- The first node, found by the code and in the shape.
  pub leftmost_node :
      sh ≢ leaf
      → (p : Ptr) × (k : ℕ) × (min_node fuel t.tree.root t.tree.sentinel t.tree ≡ ok (p, t.tree))
        × First t.tree sh p k
  leftmost_node full =
      let (p, k, run, first) = min_node-First fuel t.tree is.over sh is.held full is.enough in
      (p, k, ap (λ r. min_node fuel r t.tree.sentinel t.tree) is.root ∙ run, first)

-- A tree that is not empty has a root that is not the sentinel.
pub top-ne :
    (t : Timers) {fuel : ℕ} (sh : Shape)
    → IsTimers fuel t sh
    → sh ≢ leaf
    → (t.tree.root == t.tree.sentinel) ≡ false
top-ne t leaf is full = absurd (full refl)
top-ne t (node l a d r) is full = ground (arith, is.root, is.held.0)

pub nonleaf_of_keys : (sh : Shape) {k : ℕ} {ks : List ℕ} → keys sh ≡ k ∷ ks → sh ≢ leaf
nonleaf_of_keys sh {k} {ks} e is_leaf = nonempty (sym (ap keys is_leaf) ∙ e)
  where
    nonempty : [] ≡ k ∷ ks → ⊥
    nonempty q = cc

pub keys-head :
    (sh : Shape) {k k' : ℕ} {ks ks' : List ℕ} → keys sh ≡ k ∷ ks → keys sh ≡ k' ∷ ks' → k ≡ k'
keys-head sh a b = cc

module _ (fuel now : ℕ) (t : Timers) (sh : Shape) where
  -- With timers set, the value is the wrapped difference of the first key and the time, as an `int`.
  pub find_nearest_lem :
      (k : ℕ) (ks : List ℕ)
      → IsTimers fuel t sh
      → keys sh ≡ k ∷ ks
      → find_nearest_expire_timer fuel now t ≡ ok (timeout_of (sub32 k now))
  unfolding find_nearest_expire_timer
  find_nearest_lem k ks is e =
      let full : sh ≢ leaf = nonleaf_of_keys sh e in
      let (p, k', run, first) = leftmost_node is full in
      let same : k' ≡ k = keys-head sh first.first_key e in
      rw (top-ne t sh is full, run, first.reads_key, same)

  -- With rounds enough for the tree's size and the first timer at `k`, at or after the time read and at most 2^31 - 1 milliseconds ahead,
  -- the timeout is just the time left.
  pub find_nearest_ahead :
      (k : ℕ) (ks : List ℕ)
      → IsTimers fuel t sh
      → keys sh ≡ k ∷ ks
      → now ≤ k
      → k < 4294967296
      → k - now < 2147483648
      → find_nearest_expire_timer fuel now t ≡ ok (pos (k - now))
  find_nearest_ahead k ks is e le fits near =
      find_nearest_lem k ks is e ∙ ap (λ v. ok v) (ground arith)

  -- With rounds enough for the tree's size, when the first timer is overdue, by at most 2^31 milliseconds, the timeout is not 0 but the
  -- negative difference.
  pub find_nearest_overdue :
      (k : ℕ) (ks : List ℕ)
      → IsTimers fuel t sh
      → keys sh ≡ k ∷ ks
      → k < now
      → now < 4294967296
      → now - k ≤ 2147483648
      → find_nearest_expire_timer fuel now t ≡ ok (negsuc (now - k - 1))
  find_nearest_overdue k ks is e lt fits near =
      find_nearest_lem k ks is e ∙ ap (λ v. ok v) (ground arith)

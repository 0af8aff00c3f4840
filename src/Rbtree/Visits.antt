-- ===== src/Rbtree/Visits.antt =====
-- `ngx_rbtree_next` goes from each node to the next one in order.
use middleware_development_d.Prelude.{
  ℕ, zero, suc, ◌+◌, ◌≤◌, ◌<◌, ◌≡◌, refl, sym, ap, ◌∙◌, true, false, List, [], ◌∷◌, ◌++◌,
  append_assoc, append-nil, length, Option, arith, ◌==◌, ok,
}
use middleware_development_d.Rbtree.Store.{Ptr, null, Node, Tree}
use middleware_development_d.Rbtree.Shape.{Label, Shape, leaf, node, top, size, addresses, Holds}
use middleware_development_d.Rbtree.Walk.{min_node, climb, next_node}
use middleware_development_d.Rbtree.Leftmost.{min_node-First}
use middleware_development_d.Rbtree.Trail.{Trail, start, in_left, in_right, root_at, top_other}
use middleware_development_d.Rbtree.Focus.{
  Focus, from_left, from_right, to_left, to_right, reads_left, reads_right, reads_parent,
}
use middleware_development_d.Rbtree.Rotations.{get_sentinel_lem}
use middleware_development_d.Rbtree.Balance.{items}
use middleware_development_d.Rbtree.Whole.{IsRbTree, size-items}
use middleware_development_d.Rbtree.Rebalance.{climbs, not_root}
use middleware_development_d.Rbtree.Rounds.{reads_root, once_left, once_right}

-- The addresses that come after the place.
abbrev pub later : Trail → List Ptr
later (start o) = []
later (in_left up a d r) = a ∷ addresses r ++ later up
later (in_right up l a d) = later up

-- The first, or NULL.
abbrev pub head_or_null : List Ptr → Ptr
head_or_null [] = null
head_or_null (p ∷ ps) = p

held_at :
    (cells : Ptr → Option Node) (s s' up : Ptr) (sh : Shape)
    → s ≡ s'
    → Holds cells s up sh
    → Holds cells s' up sh
held_at cells s s' up sh e h = rw (sym e) h

module _ {s : Ptr} {bottom : Node} {t : Tree} where
  -- From a node without a right child, upwards.
  climb-later :
      (f : ℕ) (up : Trail) (l : Shape) (a : Ptr) (d : Label) (r : Shape)
      → Focus s bottom t up (node l a d r)
      → climbs up < f
      → climb f (root_at a up) a t ≡ ok (head_or_null (later up), t)
  unfolding climb
  climb-later zero up l a d r focus enough = ground (arith, enough)
  climb-later (suc f) (start o) l a d r focus enough =
      let here : (a == a) ≡ true = ground arith in rw (reads_parent focus, here) refl
  climb-later (suc f) (in_left up p e x) l a d r focus enough =
      let inside : (a == root_at p up) ≡ false = not_root p up a (once_left focus) in
      let here : (a == a) ≡ true = ground arith in
      rw (reads_parent focus, inside, reads_left (from_left focus), here) refl
  climb-later (suc f) (in_right up x p e) l a d r focus enough =
      let inside : (a == root_at p up) ≡ false = not_root p up a (once_right focus) in
      let other : (a == top s x) ≡ false =
        top_other s a x focus.tree.0 (ground (arith, focus.once a)) in
      rw (reads_parent focus, inside, reads_left (from_right focus), other)
        (climb-later f up x p e (node l a d r) (from_right focus) (omega (arith, enough)))

  next_node-later :
      (f : ℕ) (up : Trail) (l : Shape) (a : Ptr) (d : Label) (r : Shape)
      → Focus s bottom t up (node l a d r)
      → climbs up < f
      → size r ≤ f
      → next_node f a t ≡ ok (head_or_null (addresses r ++ later up), t)
  unfolding next_node
  next_node-later f up l a d leaf focus short enough =
      let same : (s == s) ≡ true = ground arith in
      rw (get_sentinel_lem s t focus.sentinel, reads_right focus, same, reads_root focus)
        (climb-later f up l a d leaf focus short)
  next_node-later f up l a d (node rl b e rr) focus short enough =
      let other : (b == s) ≡ false = ground (arith, focus.tree.3.0) in
      let (p, k, run, first) =
        min_node-First f t a (node rl b e rr)
          (held_at t.cells s t.sentinel a (node rl b e rr) (sym focus.sentinel) focus.tree.3)
          (λ q. absurd (omega (arith, ap size q))) enough in
      let found : min_node f b s t ≡ ok (p, t) =
        ap (λ z. min_node f b z t) (sym focus.sentinel) ∙ run in
      rw (get_sentinel_lem s t focus.sentinel, reads_right focus, other, found, first.first_address)
        refl

-- From each address in the list `ngx_rbtree_next` goes to the next, and from the last to NULL.
abbrev pub Visits : ℕ → Tree → List Ptr → Type 0
Visits f t [] = Unit {0}
Visits f t (p ∷ ps) = (next_node f p t ≡ ok (head_or_null ps, t)) × Visits f t ps

below-Visits :
    (f : ℕ) (s : Ptr) {bottom : Node} (t : Tree) (sh : Shape) (up : Trail)
    → Focus s bottom t up sh
    → climbs up + size sh < f
    → Visits f t (later up)
    → Visits f t (addresses sh ++ later up)
below-Visits f s t leaf up focus enough rest = rest
below-Visits f s t (node l a d r) up focus enough rest =
    rw (append_assoc (addresses l) (a ∷ addresses r) (later up)) (
      below-Visits f s t l (in_left up a d r) (to_left focus) (omega (arith, enough)) (
        next_node-later f up l a d r focus (omega (arith, enough)) (omega (arith, enough)),
        below-Visits f s t r (in_right up l a d) (to_right focus) (omega (arith, enough)) rest,
      ))

abbrev pub item_addresses : List (Ptr × ℕ × ℕ) → List Ptr
item_addresses [] = []
item_addresses (y ∷ ys) = y.0 ∷ item_addresses ys

item_addresses-append :
    (l r : List (Ptr × ℕ × ℕ)) → item_addresses (l ++ r) ≡ item_addresses l ++ item_addresses r
item_addresses-append [] r = refl
item_addresses-append (y ∷ l) r = ap (λ ps. y.0 ∷ ps) (item_addresses-append l r)

pub addresses-items : (sh : Shape) → addresses sh ≡ item_addresses (items sh)
addresses-items leaf = refl
addresses-items (node l a d r) = rw (
  item_addresses-append (items l) ((a, d.key, d.payload) ∷ items r),
  addresses-items l,
  addresses-items r,
)

-- In a red-black tree, with rounds enough for its size, `ngx_rbtree_next` goes from each node's address to
-- that of the next item in order, and from the last to NULL, and changes nothing.
pub next_node-Visits :
    (f : ℕ) (s : Ptr) (t : Tree) (listed : List (Ptr × ℕ × ℕ))
    → IsRbTree s t listed
    → length listed < f
    → Visits f t (item_addresses listed)
next_node-Visits f s t listed is enough =
    let order : addresses is.shape ++ [] ≡ item_addresses listed =
      append-nil (addresses is.shape)
      ∙ addresses-items is.shape
      ∙ ap item_addresses is.same_items in
    rw (sym order) (
      below-Visits f s t is.shape (start is.over) is.focus
        (omega (arith, size-items is.shape, ap length is.same_items, enough)) tt)

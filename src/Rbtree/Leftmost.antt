-- ===== src/Rbtree/Leftmost.antt =====
-- `ngx_rbtree_min` finds the first node in order.
use middleware_development_d.Prelude.{
  ℕ, zero, suc, ◌≤◌, ◌<◌, ◌≡◌, ◌≢◌, refl, ap, true, false, List, ◌∷◌, ◌++◌, arith, ◌==◌, ok,
}
use middleware_development_d.Rbtree.Store.{Ptr, Tree, key}
use middleware_development_d.Rbtree.Walk.{min_node}
use middleware_development_d.Rbtree.Fields.{key_lem, left_lem}
use middleware_development_d.Rbtree.Shape.{
  Label, Shape, leaf, node, size, top, addresses, keys, cell, Holds,
}

-- Some node at `p` with key `k` comes first.
pub record First (t : Tree) (sh : Shape) (p : Ptr) (k : ℕ) : Type 0 where
  pub later : List Ptr
  pub later_keys : List ℕ
  pub first_address : addresses sh ≡ p ∷ later
  pub first_key : keys sh ≡ k ∷ later_keys
  pub reads_key : key p t ≡ ok (k, t)

min_node-node :
    (f : ℕ) (t : Tree) (up : Ptr) (l : Shape) (a : Ptr) (d : Label) (r : Shape)
    → Holds t.cells t.sentinel up (node l a d r)
    → size l < f
    → (p : Ptr) × (k : ℕ) × (min_node f a t.sentinel t ≡ ok (p, t)) × First t (node l a d r) p k
unfolding min_node
min_node-node zero t up l a d r h fuel = absurd (omega arith)
min_node-node (suc f) t up leaf a d r (ne, at, hl, hr) fuel = (
  a,
  d.key,
  rw (
    left_lem t a (cell t.sentinel up leaf d r) at,
    (let e : (t.sentinel == t.sentinel) ≡ true = ground arith in e),
  ),
  record {
    later = addresses r;
    later_keys = keys r;
    first_address = refl;
    first_key = refl;
    reads_key = key_lem t a (cell t.sentinel up leaf d r) at;
  },
)
min_node-node (suc f) t up (node ll b e lr) a d r (ne, at, hl, hr) fuel =
    let (p, k, run, first) = min_node-node f t a ll b e lr hl (omega arith) in
    (
      p,
      k,
      rw
          (
            left_lem t a (cell t.sentinel up (node ll b e lr) d r) at,
            (let e : (b == t.sentinel) ≡ false = ground arith in e),
          )
          run,
      record {
        later = first.later ++ a ∷ addresses r;
        later_keys = first.later_keys ++ d.key ∷ keys r;
        first_address = ap (λ l. l ++ a ∷ addresses r) first.first_address;
        first_key = ap (λ l. l ++ d.key ∷ keys r) first.first_key;
        reads_key = first.reads_key;
      },
    )

-- On a tree that is not empty, with rounds enough for its size, `ngx_rbtree_min` returns the address
-- that comes first in order, with the first of the keys, and changes nothing.
pub min_node-First :
    (f : ℕ) (t : Tree) (up : Ptr) (sh : Shape)
    → Holds t.cells t.sentinel up sh
    → sh ≢ leaf
    → size sh ≤ f
    → (p : Ptr) × (k : ℕ) × (min_node f (top t.sentinel sh) t.sentinel t ≡ ok (p, t))
      × First t sh p k
min_node-First f t up leaf h full fuel = absurd (full refl)
min_node-First f t up (node l a d r) h full fuel = min_node-node f t up l a d r h (omega arith)

-- ===== src/Rbtree/Descent.antt =====
-- The loop of `ngx_rbtree_insert_value` and `ngx_rbtree_insert_timer_value` on a tree that is held.
use middleware_development_d.Prelude.{
  ℕ, zero, suc, ◌+◌, ◌≤◌, ◌≡◌, ◌≢◌, inl, inr, Bool, Bool-cases, true, false, some, arith, ◌==◌,
  if◌then◌else◌, Returns,
}
use middleware_development_d.Rbtree.Store.{Ptr, Node, Tree}
use middleware_development_d.Rbtree.Fields.{load_lem}
use middleware_development_d.Rbtree.Shape.{Label, Shape, leaf, node, top, size}
use middleware_development_d.Rbtree.Insert.{attach, descend}
use middleware_development_d.Rbtree.Trail.{Trail, in_left, in_right, times, times_on}
use middleware_development_d.Rbtree.Steps.{follow_ok}
use middleware_development_d.Rbtree.Focus.{Focus, to_left, to_right}
use middleware_development_d.Rbtree.Place.{fresh, attach-left, attach-right}

module _ (less : ℕ → ℕ → Bool) where
  -- The way down from a place to a leaf, for a key.
  abbrev pub way : ℕ → Trail → Shape → Trail
  way k up leaf = up
  way k up (node l a d r) =
      if less k d.key then way k (in_left up a d r) l else way k (in_right up l a d) r

  module _ (s : Ptr) (bottom : Node) (z : Ptr) (n : Node) (real : z ≢ s) where
    -- What the loop does from a place, with this fuel.
    abbrev Descends : ℕ → Type 0
    Descends f =
        (t : Tree) (up : Trail) (l : Shape) (a : Ptr) (d : Label) (r : Shape)
        → t.cells z ≡ some n
        → times z (node l a d r) + times_on z up ≡ 0
        → Focus s bottom t up (node l a d r)
        → size (node l a d r) ≤ f
        → Returns
            (λ (u, t').
              Focus s bottom t' (way n.key up (node l a d r)) (node leaf z (fresh n) leaf))
            (descend less f a z s t)

    module _ {f : ℕ} (next : Descends f) (t : Tree) (up : Trail) (a : Ptr) (d : Label)
        (at : t.cells z ≡ some n) where
      go_left :
          (l r : Shape)
          → times z (node l a d r) + times_on z up ≡ 0
          → Focus s bottom t up (node l a d r)
          → size l ≤ f
          → Returns
              (λ (u, t').
                Focus s bottom t' (way n.key (in_left up a d r) l) (node leaf z (fresh n) leaf))
              ((if top s l == s then attach true a z s else descend less f (top s l) z s) t)
      go_left leaf r out focus enough =
          let same : (s == s) ≡ true = ground arith in
          rw same (attach-left at real r (ground (arith, out)) (to_left focus))
      go_left (node ll b e lr) r out focus enough =
          let other : (b == s) ≡ false = ground (arith, focus.tree.2.0) in
          rw other
            (next t (in_left up a d r) ll b e lr at (ground (arith, out)) (to_left focus) enough)

      go_right :
          (l r : Shape)
          → times z (node l a d r) + times_on z up ≡ 0
          → Focus s bottom t up (node l a d r)
          → size r ≤ f
          → Returns
              (λ (u, t').
                Focus s bottom t' (way n.key (in_right up l a d) r) (node leaf z (fresh n) leaf))
              ((if top s r == s then attach false a z s else descend less f (top s r) z s) t)
      go_right l leaf out focus enough =
          let same : (s == s) ≡ true = ground arith in
          rw same (attach-right at real l (ground (arith, out)) (to_right focus))
      go_right l (node rl b e rr) out focus enough =
          let other : (b == s) ≡ false = ground (arith, focus.tree.3.0) in
          rw other
            (next t (in_right up l a d) rl b e rr at (ground (arith, out)) (to_right focus) enough)

    pub descend-Focus : (f : ℕ) → Descends f
    unfolding descend
    descend-Focus zero t up l a d r at out focus enough = ground (arith, enough)
    descend-Focus (suc f) t up l a d r at out focus enough = follow_ok _ (load_lem t z n at) (
        follow_ok _ (load_lem t a _ focus.tree.1) (elim (Bool-cases (less n.key d.key)) [
          | inl lower ↦
              rw lower (go_left (descend-Focus f) t up a d at l r out focus (omega (arith, enough)))
          | inr higher ↦
              rw higher
                (go_right (descend-Focus f) t up a d at l r out focus (omega (arith, enough)))
        ]))

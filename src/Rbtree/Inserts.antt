-- ===== src/Rbtree/Inserts.antt =====
-- `ngx_rbtree_insert` as a whole.
use middleware_development_d.Prelude.{
  ℕ, ◌<◌, ◌≡◌, ◌≢◌, refl, sym, ap, ◌∙◌, Bool, true, false, List, [], ◌∷◌, length, some, arith, ◌==◌,
  Returns, returns, Returns-weaken,
}
use middleware_development_d.Rbtree.Store.{
  Ptr, null, Node, Tree, ◌>>=◌, ◌>>◌, get_root, set_root, set_left, set_right, set_parent, black,
}
use middleware_development_d.Rbtree.Shape.{Label, Shape, leaf, node, size}
use middleware_development_d.Rbtree.Insert.{descend, rebalance, insert}
use middleware_development_d.Rbtree.Trail.{Trail, start, times}
use middleware_development_d.Rbtree.Steps.{follow, follow_ok, just, modify-Leaves}
use middleware_development_d.Rbtree.Focus.{Focus, black-Focus, red_label, red_top}
use middleware_development_d.Rbtree.Rotations.{get_sentinel_lem}
use middleware_development_d.Rbtree.Balance.{Level, Calm, items}
use middleware_development_d.Rbtree.Fix.{blackened}
use middleware_development_d.Rbtree.Rebalance.{Ready}
use middleware_development_d.Rbtree.Rounds.{reads_root, rebalance-Balanced}
use middleware_development_d.Rbtree.Place.{fresh}
use middleware_development_d.Rbtree.Descent.{way, descend-Focus}
use middleware_development_d.Rbtree.Order.{Order, insert_item, insert_item-Sorted, Sorted}
use middleware_development_d.Rbtree.Put.{whole-way, climbs-way, Fits-way, items-put}
use middleware_development_d.Rbtree.Whole.{
  IsRbTree, count, times-count, size-items, length-insert_item,
}

-- The last statement of `ngx_rbtree_insert`.
blacken :
    {o : Ptr} {bottom : Node} (s : Ptr) (t : Tree) (listed : List (Ptr × ℕ × ℕ)) (sh : Shape)
    → Focus s bottom t (start o) sh
    → Level sh
    → Calm sh
    → items sh ≡ listed
    → 0 < length listed
    → Returns (λ (u, t'). IsRbTree s t' listed) ((do root' ← get_root; black root') t)
blacken s t listed leaf focus level calm same full = ground (arith, same, full)
blacken {o} {bottom} s t listed (node l a d r) focus level (c, cl, cr) same full =
    follow_ok _ (reads_root focus) (
      Returns-weaken (black-Focus focus) λ (u, t') f. record {
        over = o;
        bottom = bottom;
        shape = node l a (blackened d) r;
        focus = f;
        level = level;
        calm = (refl, cl, cr);
        black_root = refl;
        same_items = same;
      })

module _ (less : ℕ → ℕ → Bool) {In : ℕ → Type 0} (order : Order less In) where
  -- The tree has nodes already.
  insert-node :
      {o : Ptr} {bottom : Node} (fuel : ℕ) (s : Ptr) (t : Tree) (z : Ptr) (n : Node) (l : Shape)
      (a : Ptr) (d : Label) (r : Shape)
      → Focus s bottom t (start o) (node l a d r)
      → Level (node l a d r)
      → Calm (node l a d r)
      → red_label d ≡ false
      → Sorted less In (items (node l a d r))
      → t.cells z ≡ some n
      → z ≢ s
      → times z (node l a d r) ≡ 0
      → In n.key
      → size (node l a d r) < fuel
      → Returns
          (λ (u, t'). IsRbTree s t' (insert_item less (z, n.key, n.payload) (items (node l a d r))))
          ((do descend less fuel a z s; rebalance fuel z; root' ← get_root; black root') t)
  insert-node {o} fuel s t z n l a d r focus level calm black_root sorted at real out inside
        enough =
      let sh : Shape = node l a d r in
      let up : Trail = way less n.key (start o) sh in
      let x : Ptr × ℕ × ℕ = (z, n.key, n.payload) in
      let ready : Ready up leaf (fresh n) leaf = record {
        red = refl;
        level = refl;
        levels = (tt, tt);
        calms = (tt, tt);
        calm_l = refl;
        calm_r = refl;
        fits = Fits-way less n.key (start o) sh level calm (rw black_root refl) tt;
      } in
      follow _
        (descend-Focus less s _ z n real fuel t (start o) l a d r at (omega (arith, out)) focus
          (omega (arith, enough)))
        λ _ t₁ f₁.
          follow _
            (rebalance-Balanced s fuel t₁ up leaf z (fresh n) leaf f₁ ready
              (omega (arith, climbs-way less n.key (start o) sh, enough)))
            λ _ t₂ b.
              blacken s t₂ (insert_item less x (items sh)) b.shape b.focus b.level b.calm
                (b.same_items
                  ∙ ap items (whole-way less n.key (node leaf z (fresh n) leaf) (start o) sh)
                  ∙ items-put less order z (fresh n) sh sorted inside)
                (omega (arith, length-insert_item less x (items sh)))

  -- The new node is the first.
  insert-root :
      {o : Ptr} {bottom : Node} (s : Ptr) (t : Tree) (z : Ptr) (n : Node)
      → Focus s bottom t (start o) leaf
      → t.cells z ≡ some n
      → z ≢ s
      → Returns
          (λ (u, t'). IsRbTree s t' ((z, n.key, n.payload) ∷ []))
          ((do set_parent z null; set_left z s; set_right z s; black z; set_root z) t)
  unfolding set_parent set_left set_right black set_root
  insert-root {o} {bottom} s t z n focus at real =
      follow _ (modify-Leaves t z n _ at) λ _ t₁ (l₁, r₁, c₁).
        follow _ (modify-Leaves t₁ z _ _ c₁) λ _ t₂ (l₂, r₂, c₂).
          follow _ (modify-Leaves t₂ z _ _ c₂) λ _ t₃ (l₃, r₃, c₃).
            follow _ (modify-Leaves t₃ z _ _ c₃) λ _ t₄ (l₄, r₄, c₄).
              let other : just z s ≡ 0 = ground (arith, real) in
              returns (record {
                over = null;
                bottom = bottom;
                shape = node leaf z (blackened (fresh n)) leaf;
                focus = record {
                  sentinel = l₄.sentinel ∙ l₃.sentinel ∙ l₂.sentinel ∙ l₁.sentinel ∙ focus.sentinel;
                  trail = tt;
                  tree = (real, c₄, tt, tt);
                  root = refl;
                  once = λ y. ground arith;
                  at_end =
                      l₄.cells s other
                      ∙ l₃.cells s other
                      ∙ l₂.cells s other
                      ∙ l₁.cells s other
                      ∙ focus.at_end;
                  end_black = focus.end_black;
                };
                level = (refl, tt, tt);
                calm = (refl, tt, tt);
                black_root = refl;
                same_items = refl;
              })

  insert-shape :
      {o : Ptr} {bottom : Node} (fuel : ℕ) (s : Ptr) (t : Tree) (z : Ptr) (n : Node) (sh : Shape)
      → Focus s bottom t (start o) sh
      → Level sh
      → Calm sh
      → red_top sh ≡ false
      → Sorted less In (items sh)
      → t.cells z ≡ some n
      → z ≢ s
      → times z sh ≡ 0
      → In n.key
      → size sh < fuel
      → Returns
          (λ (u, t'). IsRbTree s t' (insert_item less (z, n.key, n.payload) (items sh)))
          (insert fuel (descend less fuel) z t)
  unfolding insert
  insert-shape fuel s t z n leaf focus level calm black_root sorted at real out inside enough =
      let same : (s == s) ≡ true = ground arith in
      follow_ok _ (reads_root focus) (
        follow_ok _ (get_sentinel_lem s t focus.sentinel)
          (rw same (insert-root s t z n focus at real)))
  insert-shape fuel s t z n (node l a d r) focus level calm black_root sorted at real out inside
        enough =
      let other : (a == s) ≡ false = ground (arith, focus.tree.0) in
      follow_ok _ (reads_root focus) (
        follow_ok _ (get_sentinel_lem s t focus.sentinel) (
          rw other (
            insert-node fuel s t z n l a d r focus level calm black_root sorted at real out inside
              enough)))

  insert-kept :
      (fuel : ℕ) (s : Ptr) (t : Tree) (listed : List (Ptr × ℕ × ℕ)) (z : Ptr) (n : Node)
      → IsRbTree s t listed
      → Sorted less In listed
      → t.cells z ≡ some n
      → z ≢ s
      → count z listed ≡ 0
      → In n.key
      → length listed < fuel
      → Returns
          (λ (u, t'). IsRbTree s t' (insert_item less (z, n.key, n.payload) listed))
          (insert fuel (descend less fuel) z t)
  insert-kept fuel s t listed z n is sorted at real out inside enough = rw (sym is.same_items) (
      insert-shape fuel s t z n is.shape is.focus is.level is.calm is.black_root
        (rw is.same_items sorted) at real
        (times-count z is.shape ∙ ap (count z) is.same_items ∙ out) inside
        (omega (arith, size-items is.shape, ap length is.same_items, enough)))

  -- For a comparison that orders the keys of a range, a red-black tree with its items in order, and a node
  -- in memory with such a key that is neither in the tree nor its sentinel: with fuel for the tree's size
  -- `ngx_rbtree_insert` returns, and leaves a red-black tree with the node's item put in before the first
  -- greater one, which keeps the items in order.
  pub insert-IsRbTree :
      (fuel : ℕ) (s : Ptr) (t : Tree) (listed : List (Ptr × ℕ × ℕ)) (z : Ptr) (n : Node)
      → IsRbTree s t listed
      → Sorted less In listed
      → t.cells z ≡ some n
      → z ≢ s
      → count z listed ≡ 0
      → In n.key
      → length listed < fuel
      → Returns
          (λ (u, t').
            IsRbTree s t' (insert_item less (z, n.key, n.payload) listed)
            × Sorted less In (insert_item less (z, n.key, n.payload) listed))
          (insert fuel (descend less fuel) z t)
  insert-IsRbTree fuel s t listed z n is sorted at real out inside enough =
      Returns-weaken (insert-kept fuel s t listed z n is sorted at real out inside enough)
        λ (u, t') done.
          (done, insert_item-Sorted less In order (z, n.key, n.payload) listed inside sorted)

-- ===== src/Rbtree/Choose.antt =====
-- Which node leaves its place in `ngx_rbtree_delete`, and which one takes that place.
use middleware_development_d.Prelude.{ℕ, ◌<◌, ◌≡◌, refl, true, false, length, arith, ◌==◌, ok}
use middleware_development_d.Rbtree.Store.{Ptr, Node, Tree}
use middleware_development_d.Rbtree.Shape.{Label, Shape, leaf, node, top}
use middleware_development_d.Rbtree.Delete.{choose}
use middleware_development_d.Rbtree.Trail.{Trail, in_right}
use middleware_development_d.Rbtree.Focus.{Focus, to_right, reads_left, reads_right}
use middleware_development_d.Rbtree.Spine.{Spine, plug, Focus-plug, min_node-plug, top_real}

module _ {s : Ptr} {bottom : Node} {t : Tree} {z : Ptr} {d : Label} where
  -- What the first lines find: a node without a left child, one without a right child, and one with both.
  pub choose_right :
      (fuel : ℕ) (up : Trail) (r : Shape)
      → Focus s bottom t up (node leaf z d r)
      → choose fuel z s t ≡ ok ((z, top s r), t)
  unfolding choose
  choose_right fuel up r f =
      let same : (s == s) ≡ true = ground arith in rw (reads_left f, reads_right f, same) refl

  pub choose_left :
      (fuel : ℕ) (up : Trail) (ll : Shape) (a : Ptr) (g : Label) (lr : Shape)
      → Focus s bottom t up (node (node ll a g lr) z d leaf)
      → choose fuel z s t ≡ ok ((z, a), t)
  unfolding choose
  choose_left fuel up ll a g lr f =
      let same : (s == s) ≡ true = ground arith in
      let other : (a == s) ≡ false = ground (arith, f.tree.2.0) in
      rw (reads_left f, reads_right f, same, other) refl

  pub choose_both :
      (fuel : ℕ) (up : Trail) (ll : Shape) (a : Ptr) (g : Label) (lr : Shape) (ps : Spine) (b : Ptr)
      (e : Label) (y : Shape)
      → Focus s bottom t up (node (node ll a g lr) z d (plug ps (node leaf b e y)))
      → length ps < fuel
      → choose fuel z s t ≡ ok ((b, top s y), t)
  unfolding choose
  choose_both fuel up ll a g lr ps b e y f enough =
      let same : (s == s) ≡ true = ground arith in
      let other : (a == s) ≡ false = ground (arith, f.tree.2.0) in
      let full : (top s (plug ps (node leaf b e y)) == s) ≡ false =
        top_real (in_right up (node ll a g lr) z d) ps b e y (to_right f) in
      let place = Focus-plug (in_right up (node ll a g lr) z d) ps (node leaf b e y) (to_right f) in
      rw
        (
          reads_left f,
          reads_right f,
          other,
          full,
          min_node-plug fuel (in_right up (node ll a g lr) z d) ps b e y (to_right f) enough,
          reads_left place,
          same,
          reads_right place,
        )
        refl

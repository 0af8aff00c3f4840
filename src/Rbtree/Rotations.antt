-- ===== src/Rbtree/Rotations.antt =====
-- What the two rotations do to a tree.
use middleware_development_d.Prelude.{◌≡◌, refl, ap, arith, ok, Returns, Returns-weaken}
use middleware_development_d.Rbtree.Store.{
  Node, Ptr, Tree, set_left, set_right, set_parent, get_sentinel,
}
use middleware_development_d.Rbtree.Fields.{left_lem, right_lem, parent_lem}
use middleware_development_d.Rbtree.Shape.{Label, Shape, node, top}
use middleware_development_d.Rbtree.Rotate.{left_rotate, right_rotate}
use middleware_development_d.Rbtree.Trail.{Trail, above, linked}
use middleware_development_d.Rbtree.Steps.{follow, follow_ok}
use middleware_development_d.Rbtree.Relink.{relink_left_first-Hung, relink_right_first-Hung}
use middleware_development_d.Rbtree.Focus.{Focus}
use middleware_development_d.Rbtree.Parts.{Parts, modify_a, modify_b, move_m, Hangs-a, after_Hung}

pub get_sentinel_lem : (s : Ptr) (t : Tree) → t.sentinel ≡ s → get_sentinel t ≡ ok (s, t)
unfolding get_sentinel
get_sentinel_lem s t e = ap (λ x. ok (x, t)) e

module _ (s : Ptr) (bottom : Node) (a b : Ptr) (d e : Label) (l m r : Shape) (up : Trail) where
  -- `ngx_rbtree_left_rotate` at a node with a right child, in its place in a tree that is held: it
  -- returns, the child takes the place, with the node on its left, and the tree is held so, all else in its
  -- place and the sentinel's cell the same.
  pub left_rotate-Focus :
      (t : Tree)
      → Focus s bottom t up (node l a d (node m b e r))
      → Returns (λ (u, t'). Focus s bottom t' up (node (node l a d m) b e r)) (left_rotate a t)
  unfolding left_rotate set_left set_right set_parent
  left_rotate-Focus t f =
      let (a_ne, a_at, hl, (b_ne, b_at, hm, hr)) = f.tree in
      let p₀ : Parts s bottom a b l m r up t (linked (above up) d (top s l) b)
          (linked a e (top s m) (top s r)) a b b a =
        record {
          a_real = a_ne;
          b_real = b_ne;
          once = λ z. ground (arith, f.once z);
          sentinel = f.sentinel;
          at_a = a_at;
          at_b = b_at;
          holds_x = hl;
          holds_m = hm;
          holds_y = hr;
          trail = f.trail;
          root = f.root;
          at_end = f.at_end;
          end_black = f.end_black;
        } in
      follow_ok _ (get_sentinel_lem s t f.sentinel) (
        follow_ok _ (right_lem t a (linked (above up) d (top s l) b) a_at) (
          follow_ok _ (left_lem t b (linked a e (top s m) (top s r)) b_at) (
            follow _ (modify_a s bottom a b l m r up p₀ (λ n. record n { right = top s m }))
              λ u₁ t₁ p₁. follow _ (move_m s bottom a b l m r up p₁ a) λ u₂ t₂ p₂.
                follow_ok _ (parent_lem t₂ a (linked (above up) d (top s l) (top s m)) p₂.at_a) (
                  follow _ (modify_b s bottom a b l m r up p₂ (λ n. record n { parent = above up }))
                    λ u₃ t₃ p₃.
                      follow _
                        (relink_left_first-Hung s a b t₃ up
                          (Hangs-a s bottom a b l m r up p₃ refl refl))
                        λ u₄ t₄ h₄.
                          follow _
                            (modify_b s bottom a b l m r up
                              (after_Hung s bottom a b l m r up p₃ b t₄ h₄)
                              (λ n. record n { left = a }))
                            λ u₅ t₅ p₅.
                              Returns-weaken
                                (modify_a s bottom a b l m r up p₅ (λ n. record n { parent = b }))
                                λ (u, t') p. record {
                                  sentinel = p.sentinel;
                                  trail = p.trail;
                                  tree = (
                                    b_ne,
                                    p.at_b,
                                    (a_ne, p.at_a, p.holds_x, p.holds_m),
                                    p.holds_y,
                                  );
                                  root = p.root;
                                  once = λ z. ground (arith, f.once z);
                                  at_end = p.at_end;
                                  end_black = p.end_black;
                                }))))

  -- `ngx_rbtree_right_rotate` at a node with a left child, in its place in a tree that is held: it
  -- returns, the child takes the place, with the node on its right, and the tree is held so, all else in its
  -- place and the sentinel's cell the same.
  pub right_rotate-Focus :
      (t : Tree)
      → Focus s bottom t up (node (node l b e m) a d r)
      → Returns (λ (u, t'). Focus s bottom t' up (node l b e (node m a d r))) (right_rotate a t)
  unfolding right_rotate set_left set_right set_parent
  right_rotate-Focus t f =
      let (a_ne, a_at, (b_ne, b_at, hl, hm), hr) = f.tree in
      let p₀ : Parts s bottom a b r m l up t (linked (above up) d b (top s r))
          (linked a e (top s l) (top s m)) a b b a =
        record {
          a_real = a_ne;
          b_real = b_ne;
          once = λ z. ground (arith, f.once z);
          sentinel = f.sentinel;
          at_a = a_at;
          at_b = b_at;
          holds_x = hr;
          holds_m = hm;
          holds_y = hl;
          trail = f.trail;
          root = f.root;
          at_end = f.at_end;
          end_black = f.end_black;
        } in
      follow_ok _ (get_sentinel_lem s t f.sentinel) (
        follow_ok _ (left_lem t a (linked (above up) d b (top s r)) a_at) (
          follow_ok _ (right_lem t b (linked a e (top s l) (top s m)) b_at) (
            follow _ (modify_a s bottom a b r m l up p₀ (λ n. record n { left = top s m }))
              λ u₁ t₁ p₁. follow _ (move_m s bottom a b r m l up p₁ a) λ u₂ t₂ p₂.
                follow_ok _ (parent_lem t₂ a (linked (above up) d (top s m) (top s r)) p₂.at_a) (
                  follow _ (modify_b s bottom a b r m l up p₂ (λ n. record n { parent = above up }))
                    λ u₃ t₃ p₃.
                      follow _
                        (relink_right_first-Hung s a b t₃ up
                          (Hangs-a s bottom a b r m l up p₃ refl refl))
                        λ u₄ t₄ h₄.
                          follow _
                            (modify_b s bottom a b r m l up
                              (after_Hung s bottom a b r m l up p₃ b t₄ h₄)
                              (λ n. record n { right = a }))
                            λ u₅ t₅ p₅.
                              Returns-weaken
                                (modify_a s bottom a b r m l up p₅ (λ n. record n { parent = b }))
                                λ (u, t') p. record {
                                  sentinel = p.sentinel;
                                  trail = p.trail;
                                  tree = (
                                    b_ne,
                                    p.at_b,
                                    p.holds_y,
                                    (a_ne, p.at_a, p.holds_m, p.holds_x),
                                  );
                                  root = p.root;
                                  once = λ z. ground (arith, f.once z);
                                  at_end = p.at_end;
                                  end_black = p.end_black;
                                }))))

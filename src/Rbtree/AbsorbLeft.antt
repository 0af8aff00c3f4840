-- ===== src/Rbtree/AbsorbLeft.antt =====
-- One round of the loop of `ngx_rbtree_delete` after a black node left, where the short tree hangs on the
-- left: what it does to the tree, by the colours of the sibling and of the sibling's children.
use middleware_development_d.Prelude.{◌≡◌, refl, true, false, not, Returns, returns}
use middleware_development_d.Rbtree.Store.{
  Ptr, Node, Tree, ◌>>=◌, ◌>>◌, get_root, right, parent, black, red, copy_color,
}
use middleware_development_d.Rbtree.Shape.{Label, Shape, node, top}
use middleware_development_d.Rbtree.Delete.{absorb_left}
use middleware_development_d.Rbtree.Rotate.{left_rotate, right_rotate}
use middleware_development_d.Rbtree.Trail.{Trail, in_right, root_at}
use middleware_development_d.Rbtree.Steps.{follow, follow_ok}
use middleware_development_d.Rbtree.Focus.{
  Focus, from_left, from_right, to_left, to_right, black-Focus, red-Focus, reads_left, reads_right,
  red_label, red_top,
}
use middleware_development_d.Rbtree.Fix.{blackened, reddened}
use middleware_development_d.Rbtree.Rotations.{left_rotate-Focus, right_rotate-Focus}
use middleware_development_d.Rbtree.Rounds.{reads_root}
use middleware_development_d.Rbtree.Settle.{
  Knows, reads_top_parent, reads_black, copy_color-Focus, colored, and_false,
}

module _ {s : Ptr} {bottom : Node} {t : Tree} {up : Trail} {p c : Ptr} {d e : Label}
    {sh l r : Shape} (knows : Knows bottom p sh) where
  -- The sibling's children are black too.
  pub absorb_left-black :
      red_top l ≡ false
      → red_top r ≡ false
      → Focus s bottom t up (node sh p d (node l c e r))
      → Returns
          (λ (n, t'). (n ≡ p) × Focus s bottom t' up (node sh p d (node l c (reddened e) r)))
          (absorb_left (top s sh) c t)
  unfolding absorb_left
  absorb_left-black calm_l calm_r f =
      (follow_ok _ (reads_left (to_right f)) (
        follow_ok _ (reads_black l (to_left (to_right f))) (
          follow_ok _ (reads_right (to_right f)) (
            follow_ok _ (reads_black r (to_right (to_right f))) (
              rw (calm_l, calm_r)
                (follow _ (red-Focus (to_right f)) λ _ t₁ f₁.
                  rw (reads_top_parent sh (to_left (from_right f₁)) knows)
                    (returns (refl, from_right f₁))))))))

module _ {s : Ptr} {bottom : Node} {t : Tree} {up : Trail} {p c q : Ptr} {d e g : Label}
    {sh l rl rr : Shape} (knows : Knows bottom p sh) where
  -- The last steps of a round, with a black sibling whose right child is red.
  finish_left :
      Focus s bottom t up (node sh p d (node l c e (node rl q g rr)))
      → Returns
          (λ (n, t').
            (n ≡ root_at c up)
            × Focus s bottom t' up
                (node (node sh p (blackened d) l) c (colored e d) (node rl q (blackened g) rr)))
          ((do
            over ← parent (top s sh)
            copy_color c over
            black over
            outer ← right c
            black outer
            left_rotate over
            get_root)
            t)
  finish_left f = follow_ok _ (reads_top_parent sh (to_left f) knows) (
      follow _ (copy_color-Focus p _ f.tree.1 (to_right f)) λ _ t₁ f₁.
        follow _ (black-Focus (from_right f₁)) λ _ t₂ f₂. follow_ok _ (reads_right (to_right f₂)) (
          follow _ (black-Focus (to_right (to_right f₂))) λ _ t₃ f₃.
            follow _
              (left_rotate-Focus s bottom p c (blackened d) (colored e d) sh l
                (node rl q (blackened g) rr) up t₃ (from_right (from_right f₃)))
              λ _ t₄ f₄. rw (reads_root f₄) (returns (refl, f₄))))

  -- The right child of the sibling is red.
  pub absorb_left-outer :
      red_label g ≡ true
      → Focus s bottom t up (node sh p d (node l c e (node rl q g rr)))
      → Returns
          (λ (n, t').
            (n ≡ root_at c up)
            × Focus s bottom t' up
                (node (node sh p (blackened d) l) c (colored e d) (node rl q (blackened g) rr)))
          (absorb_left (top s sh) c t)
  unfolding absorb_left
  absorb_left-outer hot f = follow_ok _ (reads_left (to_right f)) (
      follow_ok _ (reads_black l (to_left (to_right f))) (
        follow_ok _ (reads_right (to_right f)) (
          follow_ok _ (reads_black (node rl q g rr) (to_right (to_right f)))
            (rw (hot, and_false (not (red_top l))) (finish_left f)))))

module _ {s : Ptr} {bottom : Node} {t : Tree} {up : Trail} {p c : Ptr} {d e : Label} {sh r : Shape}
    (knows : Knows bottom p sh) where
  -- The left child of the sibling comes up to the sibling's place.
  lift_left :
      {i : Ptr} {g : Label} {il ir : Shape}
      → Focus s bottom t up (node sh p d (node (node il i g ir) c e r))
      → Returns
          (λ (n, t').
            (n ≡ i)
            × Focus s bottom t' up
                (node sh p d (node il i (blackened g) (node ir c (reddened e) r))))
          ((do black i; red c; right_rotate c; up'' ← parent (top s sh); right up'') t)
  lift_left {i} {g} {il} {ir} f = follow _ (black-Focus (to_left (to_right f))) λ _ t₁ f₁.
      follow _ (red-Focus (from_left f₁)) λ _ t₂ f₂.
        follow _
          (right_rotate-Focus s bottom c i (reddened e) (blackened g) il ir r (in_right up sh p d)
            t₂ f₂)
          λ _ t₃ f₃.
            follow_ok _ (reads_top_parent sh (to_left (from_right f₃)) knows)
              (rw (reads_right (from_right f₃)) (returns (refl, from_right f₃)))

  -- Only the left child of the sibling is red.
  pub absorb_left-inner :
      {i : Ptr} {g : Label} {il ir : Shape}
      → red_label g ≡ true
      → red_top r ≡ false
      → Focus s bottom t up (node sh p d (node (node il i g ir) c e r))
      → Returns
          (λ (n, t').
            (n ≡ root_at i up)
            × Focus s bottom t' up (
                node
                  (node sh p (blackened d) il)
                  i
                  (colored (blackened g) d)
                  (node ir c (blackened (reddened e)) r)))
          (absorb_left (top s sh) c t)
  unfolding absorb_left
  absorb_left-inner {i} {g} {il} {ir} hot calm f = follow_ok _ (reads_left (to_right f)) (
      follow_ok _ (reads_black (node il i g ir) (to_left (to_right f))) (
        follow_ok _ (reads_right (to_right f)) (
          follow_ok _ (reads_black r (to_right (to_right f))) (
            rw (hot, calm)
              (follow _ (lift_left f) λ n t₁ (e', f₁). rw e' (finish_left knows f₁))))))

  -- A red sibling comes up to the parent's place first.
  pub raise_left :
      {l : Shape}
      → Focus s bottom t up (node sh p d (node l c e r))
      → Returns
          (λ (n, t').
            (n ≡ top s l)
            × Focus s bottom t' up (node (node sh p (reddened d) l) c (blackened e) r))
          ((do black c; red p; left_rotate p; up' ← parent (top s sh); right up') t)
  raise_left {l} f = follow _ (black-Focus (to_right f)) λ _ t₁ f₁.
      follow _ (red-Focus (from_right f₁)) λ _ t₂ f₂.
        follow _ (left_rotate-Focus s bottom p c (reddened d) (blackened e) sh l r up t₂ f₂)
          λ _ t₃ f₃.
            follow_ok _ (reads_top_parent sh (to_left (to_left f₃)) knows)
              (rw (reads_right (to_left f₃)) (returns (refl, f₃)))

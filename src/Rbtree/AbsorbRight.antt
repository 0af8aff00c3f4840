-- ===== src/Rbtree/AbsorbRight.antt =====
-- One round of the loop of `ngx_rbtree_delete` after a black node left, where the short tree hangs on the
-- right: what it does to the tree, by the colours of the sibling and of the sibling's children.
use middleware_development_d.Prelude.{◌≡◌, refl, true, false, Returns, returns}
use middleware_development_d.Rbtree.Store.{
  Ptr, Node, Tree, ◌>>=◌, ◌>>◌, get_root, left, parent, black, red, copy_color,
}
use middleware_development_d.Rbtree.Shape.{Label, Shape, node, top}
use middleware_development_d.Rbtree.Delete.{absorb_right}
use middleware_development_d.Rbtree.Rotate.{left_rotate, right_rotate}
use middleware_development_d.Rbtree.Trail.{Trail, in_left, root_at}
use middleware_development_d.Rbtree.Steps.{follow, follow_ok}
use middleware_development_d.Rbtree.Focus.{
  Focus, from_left, from_right, to_left, to_right, black-Focus, red-Focus, reads_left, reads_right,
  red_label, red_top,
}
use middleware_development_d.Rbtree.Fix.{blackened, reddened}
use middleware_development_d.Rbtree.Rotations.{left_rotate-Focus, right_rotate-Focus}
use middleware_development_d.Rbtree.Rounds.{reads_root}
use middleware_development_d.Rbtree.Settle.{
  Knows, reads_top_parent, reads_black, copy_color-Focus, colored,
}

module _ {s : Ptr} {bottom : Node} {t : Tree} {up : Trail} {p c : Ptr} {d e : Label}
    {sh l r : Shape} (knows : Knows bottom p sh) where
  -- The sibling's children are black too.
  pub absorb_right-black :
      red_top l ≡ false
      → red_top r ≡ false
      → Focus s bottom t up (node (node r c e l) p d sh)
      → Returns
          (λ (n, t'). (n ≡ p) × Focus s bottom t' up (node (node r c (reddened e) l) p d sh))
          (absorb_right (top s sh) c t)
  unfolding absorb_right
  absorb_right-black calm_l calm_r f = follow_ok _ (reads_left (to_left f)) (
      follow_ok _ (reads_black r (to_left (to_left f))) (
        follow_ok _ (reads_right (to_left f)) (
          follow_ok _ (reads_black l (to_right (to_left f))) (
            rw (calm_l, calm_r)
              (follow _ (red-Focus (to_left f)) λ _ t₁ f₁.
                rw (reads_top_parent sh (to_right (from_left f₁)) knows)
                  (returns (refl, from_left f₁)))))))

module _ {s : Ptr} {bottom : Node} {t : Tree} {up : Trail} {p c q : Ptr} {d e g : Label}
    {sh l rl rr : Shape} (knows : Knows bottom p sh) where
  -- The last steps of a round, with a black sibling whose left child is red.
  finish_right :
      Focus s bottom t up (node (node (node rl q g rr) c e l) p d sh)
      → Returns
          (λ (n, t').
            (n ≡ root_at c up)
            × Focus s bottom t' up
                (node (node rl q (blackened g) rr) c (colored e d) (node l p (blackened d) sh)))
          ((do
            over ← parent (top s sh)
            copy_color c over
            black over
            outer ← left c
            black outer
            right_rotate over
            get_root)
            t)
  finish_right f = follow_ok _ (reads_top_parent sh (to_right f) knows) (
      follow _ (copy_color-Focus p _ f.tree.1 (to_left f)) λ _ t₁ f₁.
        follow _ (black-Focus (from_left f₁)) λ _ t₂ f₂. follow_ok _ (reads_left (to_left f₂)) (
          follow _ (black-Focus (to_left (to_left f₂))) λ _ t₃ f₃.
            follow _
              (right_rotate-Focus s bottom p c (blackened d) (colored e d)
                (node rl q (blackened g) rr) l sh up t₃ (from_left (from_left f₃)))
              λ _ t₄ f₄. rw (reads_root f₄) (returns (refl, f₄))))

  -- The left child of the sibling is red.
  pub absorb_right-outer :
      red_label g ≡ true
      → Focus s bottom t up (node (node (node rl q g rr) c e l) p d sh)
      → Returns
          (λ (n, t').
            (n ≡ root_at c up)
            × Focus s bottom t' up
                (node (node rl q (blackened g) rr) c (colored e d) (node l p (blackened d) sh)))
          (absorb_right (top s sh) c t)
  unfolding absorb_right
  absorb_right-outer hot f = follow_ok _ (reads_left (to_left f)) (
      follow_ok _ (reads_black (node rl q g rr) (to_left (to_left f))) (
        follow_ok _ (reads_right (to_left f))
          (follow_ok _ (reads_black l (to_right (to_left f))) (rw hot (finish_right f)))))

module _ {s : Ptr} {bottom : Node} {t : Tree} {up : Trail} {p c : Ptr} {d e : Label} {sh r : Shape}
    (knows : Knows bottom p sh) where
  -- The right child of the sibling comes up to the sibling's place.
  lift_right :
      {i : Ptr} {g : Label} {il ir : Shape}
      → Focus s bottom t up (node (node r c e (node ir i g il)) p d sh)
      → Returns
          (λ (n, t').
            (n ≡ i)
            × Focus s bottom t' up
                (node (node (node r c (reddened e) ir) i (blackened g) il) p d sh))
          ((do black i; red c; left_rotate c; up'' ← parent (top s sh); left up'') t)
  lift_right {i} {g} {il} {ir} f = follow _ (black-Focus (to_right (to_left f))) λ _ t₁ f₁.
      follow _ (red-Focus (from_right f₁)) λ _ t₂ f₂.
        follow _
          (left_rotate-Focus s bottom c i (reddened e) (blackened g) r ir il (in_left up p d sh) t₂
            f₂)
          λ _ t₃ f₃.
            follow_ok _ (reads_top_parent sh (to_right (from_left f₃)) knows)
              (rw (reads_left (from_left f₃)) (returns (refl, from_left f₃)))

  -- Only the right child of the sibling is red.
  pub absorb_right-inner :
      {i : Ptr} {g : Label} {il ir : Shape}
      → red_label g ≡ true
      → red_top r ≡ false
      → Focus s bottom t up (node (node r c e (node ir i g il)) p d sh)
      → Returns
          (λ (n, t').
            (n ≡ root_at i up)
            × Focus s bottom t' up (
                node
                  (node r c (blackened (reddened e)) ir)
                  i
                  (colored (blackened g) d)
                  (node il p (blackened d) sh)))
          (absorb_right (top s sh) c t)
  unfolding absorb_right
  absorb_right-inner {i} {g} {il} {ir} hot calm f = follow_ok _ (reads_left (to_left f)) (
      follow_ok _ (reads_black r (to_left (to_left f))) (
        follow_ok _ (reads_right (to_left f)) (
          follow_ok _ (reads_black (node ir i g il) (to_right (to_left f))) (
            rw (calm, hot)
              (follow _ (lift_right f) λ n t₁ (e', f₁). rw e' (finish_right knows f₁))))))

  -- A red sibling comes up to the parent's place first.
  pub raise_right :
      {l : Shape}
      → Focus s bottom t up (node (node r c e l) p d sh)
      → Returns
          (λ (n, t').
            (n ≡ top s l)
            × Focus s bottom t' up (node r c (blackened e) (node l p (reddened d) sh)))
          ((do black c; red p; right_rotate p; up' ← parent (top s sh); left up') t)
  raise_right {l} f = follow _ (black-Focus (to_left f)) λ _ t₁ f₁.
      follow _ (red-Focus (from_left f₁)) λ _ t₂ f₂.
        follow _ (right_rotate-Focus s bottom p c (reddened d) (blackened e) r l sh up t₂ f₂)
          λ _ t₃ f₃.
            follow_ok _ (reads_top_parent sh (to_right (to_right f₃)) knows)
              (rw (reads_left (to_right f₃)) (returns (refl, f₃)))

-- ===== src/Rbtree/Fix.antt =====
-- One round of the loop of `ngx_rbtree_insert`: what it does to the tree, by the uncle's colour and the
-- side on which the node hangs.
use middleware_development_d.Prelude.{◌≡◌, refl, true, false, arith, ◌==◌, Returns, returns}
use middleware_development_d.Rbtree.Store.{Node, Ptr, Tree, pure, ◌>>=◌, ◌>>◌, parent, black, red}
use middleware_development_d.Rbtree.Shape.{Label, Shape, node, top}
use middleware_development_d.Rbtree.Rotate.{left_rotate, right_rotate}
use middleware_development_d.Rbtree.Insert.{fix_left, fix_right}
use middleware_development_d.Rbtree.Trail.{Trail, in_left, in_right, top_other}
use middleware_development_d.Rbtree.Steps.{follow, follow_ok}
use middleware_development_d.Rbtree.Focus.{
  Focus, from_left, from_right, to_left, to_right, black-Focus, red-Focus, reads_left, reads_right,
  reads_parent, reads_red, red_label, red_top,
}
use middleware_development_d.Rbtree.Rotations.{left_rotate-Focus, right_rotate-Focus}

abbrev pub blackened : Label → Label
blackened d = record d { color = 0 }

abbrev pub reddened : Label → Label
reddened d = record d { color = 1 }

module _ {s : Ptr} {bottom : Node} {t : Tree} {up : Trail} {g p a : Ptr} {dg dp d : Label}
    {l r x : Shape} where
  -- The parent comes up to the grandparent's place.
  turn_right :
      {u : Shape}
      → Focus s bottom t (in_left (in_left up g dg u) p dp x) (node l a d r)
      → Returns
          (λ (n, t').
            (n ≡ a)
            × Focus s bottom t'
                (in_left up p (blackened dp) (node x g (reddened dg) u))
                (node l a d r))
          ((do p' ← parent a; black p'; g' ← parent p'; red g'; right_rotate g'; pure a) t)
  turn_right {u} f = follow_ok _ (reads_parent f) (
      follow _ (black-Focus (from_left f)) λ _ t₁ f₁. follow_ok _ (reads_parent f₁) (
        follow _ (red-Focus (from_left f₁)) λ _ t₂ f₂.
          follow _
            (right_rotate-Focus s bottom g p (reddened dg) (blackened dp) (node l a d r) x u up t₂
              f₂)
            λ _ t₃ f₃. returns (refl, to_left f₃)))

  turn_left :
      {u : Shape}
      → Focus s bottom t (in_right (in_right up u g dg) x p dp) (node l a d r)
      → Returns
          (λ (n, t').
            (n ≡ a)
            × Focus s bottom t'
                (in_right up (node u g (reddened dg) x) p (blackened dp))
                (node l a d r))
          ((do p' ← parent a; black p'; g' ← parent p'; red g'; left_rotate g'; pure a) t)
  turn_left {u} f = follow_ok _ (reads_parent f) (
      follow _ (black-Focus (from_right f)) λ _ t₁ f₁. follow_ok _ (reads_parent f₁) (
        follow _ (red-Focus (from_right f₁)) λ _ t₂ f₂.
          follow _
            (left_rotate-Focus s bottom g p (reddened dg) (blackened dp) u x (node l a d r) up t₂
              f₂)
            λ _ t₃ f₃. returns (refl, to_right f₃)))

module _ {s : Ptr} {bottom : Node} {t : Tree} {p a : Ptr} {dp d : Label} {l r x : Shape} where
  rotate_left :
      {w : Trail}
      → Focus s bottom t (in_right w x p dp) (node l a d r)
      → Returns
          (λ (n, t'). (n ≡ p) × Focus s bottom t' w (node (node x p dp l) a d r))
          ((do left_rotate p; pure p) t)
  rotate_left {w} f =
      follow _ (left_rotate-Focus s bottom p a dp d x l r w t (from_right f))
        λ _ t₁ f₁. returns (refl, f₁)

  rotate_right :
      {w : Trail}
      → Focus s bottom t (in_left w p dp x) (node l a d r)
      → Returns
          (λ (n, t'). (n ≡ p) × Focus s bottom t' w (node l a d (node r p dp x)))
          ((do right_rotate p; pure p) t)
  rotate_right {w} f =
      follow _ (right_rotate-Focus s bottom p a dp d l r x w t (from_left f))
        λ _ t₁ f₁. returns (refl, f₁)

module _ {s : Ptr} {bottom : Node} {t : Tree} {up : Trail} {g p a : Ptr} {dg dp d : Label}
    {l r x u : Shape} (calm : red_top u ≡ false) where
  pub fix_left-outer :
      Focus s bottom t (in_left (in_left up g dg u) p dp x) (node l a d r)
      → Returns
          (λ (n, t').
            (n ≡ a)
            × Focus s bottom t'
                (in_left up p (blackened dp) (node x g (reddened dg) u))
                (node l a d r))
          (fix_left a p g t)
  unfolding fix_left
  fix_left-outer f =
      let grand = from_left (from_left f) in
      let side : (a == top s x) ≡ false = top_other s a x f.tree.0 (ground (arith, f.once a)) in
      follow_ok _ (reads_right grand) (
        follow_ok _ (reads_red u (to_right grand))
          (rw calm (follow_ok _ (reads_right (from_left f)) (rw side (turn_right f)))))

  pub fix_left-inner :
      Focus s bottom t (in_right (in_left up g dg u) x p dp) (node l a d r)
      → Returns
          (λ (n, t').
            (n ≡ p)
            × Focus s bottom t'
                (in_left up a (blackened d) (node r g (reddened dg) u))
                (node x p dp l))
          (fix_left a p g t)
  unfolding fix_left
  fix_left-inner f =
      let grand = from_left (from_right f) in
      let side : (a == a) ≡ true = ground arith in
      follow_ok _ (reads_right grand) (
        follow_ok _ (reads_red u (to_right grand)) (
          rw calm (
            follow_ok _ (reads_right (from_right f))
              (rw side (follow _ (rotate_left f) λ n t₁ (e, f₁). rw e (turn_right (to_left f₁)))))))

  pub fix_right-outer :
      Focus s bottom t (in_right (in_right up u g dg) x p dp) (node l a d r)
      → Returns
          (λ (n, t').
            (n ≡ a)
            × Focus s bottom t'
                (in_right up (node u g (reddened dg) x) p (blackened dp))
                (node l a d r))
          (fix_right a p g t)
  unfolding fix_right
  fix_right-outer f =
      let grand = from_right (from_right f) in
      let side : (a == top s x) ≡ false = top_other s a x f.tree.0 (ground (arith, f.once a)) in
      follow_ok _ (reads_left grand) (
        follow_ok _ (reads_red u (to_left grand))
          (rw calm (follow_ok _ (reads_left (from_right f)) (rw side (turn_left f)))))

  pub fix_right-inner :
      Focus s bottom t (in_left (in_right up u g dg) p dp x) (node l a d r)
      → Returns
          (λ (n, t').
            (n ≡ p)
            × Focus s bottom t'
                (in_right up (node u g (reddened dg) l) a (blackened d))
                (node r p dp x))
          (fix_right a p g t)
  unfolding fix_right
  fix_right-inner f =
      let grand = from_right (from_left f) in
      let side : (a == a) ≡ true = ground arith in
      follow_ok _ (reads_left grand) (
        follow_ok _ (reads_red u (to_left grand)) (
          rw calm (
            follow_ok _ (reads_left (from_left f)) (
              rw side (follow _ (rotate_right f) λ n t₁ (e, f₁). rw e (turn_left (to_right f₁)))))))

-- With a red uncle: parent and uncle black, the grandparent red.
module _ {s : Ptr} {bottom : Node} {t : Tree} {up : Trail} {g p c : Ptr} {dg dp du : Label}
    {xl xr ul ur : Shape} (a : Ptr) (busy : red_label du ≡ true) where
  pub fix_left-red :
      Focus s bottom t up (node (node xl p dp xr) g dg (node ul c du ur))
      → Returns
          (λ (n, t').
            (n ≡ g)
            × Focus s bottom t' up
                (node (node xl p (blackened dp) xr) g (reddened dg) (node ul c (blackened du) ur)))
          (fix_left a p g t)
  unfolding fix_left
  fix_left-red f = follow_ok _ (reads_right f) (
      follow_ok _ (reads_red (node ul c du ur) (to_right f)) (
        rw busy (
          follow _ (black-Focus (to_left f)) λ _ t₁ f₁.
            follow _ (black-Focus (to_right (from_left f₁)))
              λ _ t₂ f₂. follow _ (red-Focus (from_right f₂)) λ _ t₃ f₃. returns (refl, f₃))))

  pub fix_right-red :
      Focus s bottom t up (node (node ul c du ur) g dg (node xl p dp xr))
      → Returns
          (λ (n, t').
            (n ≡ g)
            × Focus s bottom t' up
                (node (node ul c (blackened du) ur) g (reddened dg) (node xl p (blackened dp) xr)))
          (fix_right a p g t)
  unfolding fix_right
  fix_right-red f = follow_ok _ (reads_left f) (
      follow_ok _ (reads_red (node ul c du ur) (to_left f)) (
        rw busy (
          follow _ (black-Focus (to_right f)) λ _ t₁ f₁.
            follow _ (black-Focus (to_left (from_right f₁)))
              λ _ t₂ f₂. follow _ (red-Focus (from_left f₂)) λ _ t₃ f₃. returns (refl, f₃))))

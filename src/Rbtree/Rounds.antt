-- ===== src/Rbtree/Rounds.antt =====
-- The loop of `ngx_rbtree_insert` as a whole.
use middleware_development_d.Prelude.{
  ℕ, zero, suc, ◌+◌, ◌<◌, ◌≡◌, refl, ap, inl, inr, Bool-cases, true, false, arith, ◌==◌,
  if◌then◌else◌, ok, Returns, returns,
}
use middleware_development_d.Rbtree.Store.{Node, Ptr, Tree, ◌>>=◌, get_root, left, parent}
use middleware_development_d.Rbtree.Shape.{Label, Shape, node, top}
use middleware_development_d.Rbtree.Insert.{fix_left, fix_right, rebalance}
use middleware_development_d.Rbtree.Trail.{
  Trail, start, in_left, in_right, times, times_on, root_at, top_other,
}
use middleware_development_d.Rbtree.Steps.{follow_ok}
use middleware_development_d.Rbtree.Focus.{
  Focus, from_left, from_right, reads_left, reads_parent, reads_red, red_label,
}
use middleware_development_d.Rbtree.Balance.{whole, items}
use middleware_development_d.Rbtree.Rebalance.{
  Ready, Balanced, climbs, settled, not_root, Rebalances,
}
use middleware_development_d.Rbtree.ClimbLeft.{left_left, left_right}
use middleware_development_d.Rbtree.ClimbRight.{right_left, right_right}

pub reads_root :
    {s : Ptr} {bottom : Node} {t : Tree} {up : Trail} {sh : Shape}
    → Focus s bottom t up sh
    → get_root t ≡ ok (root_at (top s sh) up, t)
unfolding get_root
reads_root {s} {t} f = ap (λ r. ok (r, t)) f.root

-- A node stands nowhere else in the tree.
module _ {s : Ptr} {bottom : Node} {t : Tree} {up : Trail} {a : Ptr} where
  pub once_left :
      {p : Ptr} {dp : Label} {x l r : Shape} {d : Label}
      → Focus s bottom t (in_left up p dp x) (node l a d r)
      → (if a == p then 1 else 0) + times_on a up ≡ 0
  once_left focus = ground (arith, focus.once a)

  pub once_right :
      {p : Ptr} {dp : Label} {x l r : Shape} {d : Label}
      → Focus s bottom t (in_right up x p dp) (node l a d r)
      → (if a == p then 1 else 0) + times_on a up ≡ 0
  once_right focus = ground (arith, focus.once a)

  uncle_left :
      {g : Ptr} {u sh : Shape} {d dg : Label} {x : Shape}
      → Focus s bottom t (in_left (in_right up u g dg) a d x) sh
      → times a u ≡ 0
  uncle_left focus = ground (arith, focus.once a)

  uncle_right :
      {g : Ptr} {u sh : Shape} {d dg : Label} {x : Shape}
      → Focus s bottom t (in_right (in_right up u g dg) x a d) sh
      → times a u ≡ 0
  uncle_right focus = ground (arith, focus.once a)

module _ {s : Ptr} {bottom : Node} {f : ℕ} (next : Rebalances s bottom f) {t : Tree} {l r x : Shape}
    {a p : Ptr} {d dp : Label} where
  -- The parent is red, so that there is a grandparent.
  red_left :
      (up : Trail)
      → red_label dp ≡ true
      → Focus s bottom t (in_left up p dp x) (node l a d r)
      → Ready (in_left up p dp x) l d r
      → climbs up < f
      → Returns
          (λ (v, t'). Balanced s bottom t' (items (whole up (node (node l a d r) p dp x))))
          ((do
            top ← parent p
            side ← left top
            n ← (if p == side then fix_left a p top else fix_right a p top)
            rebalance f n)
            t)
  red_left (start o) hot focus ready short = ground (arith, hot, ready.fits.4)
  red_left (in_left up g dg u) hot focus ready short =
      let same : (p == p) ≡ true = ground arith in
      follow_ok _ (reads_parent (from_left focus)) (
        follow_ok _ (reads_left (from_left (from_left focus)))
          (rw same (left_left next hot u focus ready (ground (arith, short)))))
  red_left (in_right up u g dg) hot focus ready short =
      let other : (p == top s u) ≡ false = top_other s p u focus.trail.0 (uncle_left focus) in
      follow_ok _ (reads_parent (from_left focus)) (
        follow_ok _ (reads_left (from_right (from_left focus)))
          (rw other (right_left next hot u focus ready (ground (arith, short)))))

  red_right :
      (up : Trail)
      → red_label dp ≡ true
      → Focus s bottom t (in_right up x p dp) (node l a d r)
      → Ready (in_right up x p dp) l d r
      → climbs up < f
      → Returns
          (λ (v, t'). Balanced s bottom t' (items (whole up (node x p dp (node l a d r)))))
          ((do
            top ← parent p
            side ← left top
            n ← (if p == side then fix_left a p top else fix_right a p top)
            rebalance f n)
            t)
  red_right (start o) hot focus ready short = ground (arith, hot, ready.fits.4)
  red_right (in_left up g dg u) hot focus ready short =
      let same : (p == p) ≡ true = ground arith in
      follow_ok _ (reads_parent (from_right focus)) (
        follow_ok _ (reads_left (from_left (from_right focus)))
          (rw same (left_right next hot u focus ready (ground (arith, short)))))
  red_right (in_right up u g dg) hot focus ready short =
      let other : (p == top s u) ≡ false = top_other s p u focus.trail.0 (uncle_right focus) in
      follow_ok _ (reads_parent (from_right focus)) (
        follow_ok _ (reads_left (from_right (from_right focus)))
          (rw other (right_right next hot u focus ready (ground (arith, short)))))

  below_left :
      (up : Trail)
      → Focus s bottom t (in_left up p dp x) (node l a d r)
      → Ready (in_left up p dp x) l d r
      → climbs up < f
      → Returns
          (λ (v, t'). Balanced s bottom t' (items (whole up (node (node l a d r) p dp x))))
          (rebalance (suc f) a t)
  unfolding rebalance
  below_left up focus ready short =
      let inside : (a == root_at p up) ≡ false = not_root p up a (once_left focus) in
      follow_ok _ (reads_root focus) (
        rw inside (
          follow_ok _ (reads_parent focus) (
            follow_ok _ (reads_red _ (from_left focus)) (elim (Bool-cases (red_label dp)) [
              | inl hot ↦ rw hot (red_left up hot focus ready short)
              | inr calm ↦
                  rw calm (returns (settled s t (in_left up p dp x) l a d r focus ready calm))
            ]))))

  below_right :
      (up : Trail)
      → Focus s bottom t (in_right up x p dp) (node l a d r)
      → Ready (in_right up x p dp) l d r
      → climbs up < f
      → Returns
          (λ (v, t'). Balanced s bottom t' (items (whole up (node x p dp (node l a d r)))))
          (rebalance (suc f) a t)
  unfolding rebalance
  below_right up focus ready short =
      let inside : (a == root_at p up) ≡ false = not_root p up a (once_right focus) in
      follow_ok _ (reads_root focus) (
        rw inside (
          follow_ok _ (reads_parent focus) (
            follow_ok _ (reads_red _ (from_right focus)) (elim (Bool-cases (red_label dp)) [
              | inl hot ↦ rw hot (red_right up hot focus ready short)
              | inr calm ↦
                  rw calm (returns (settled s t (in_right up x p dp) l a d r focus ready calm))
            ]))))

pub rebalance-Balanced : (s : Ptr) {bottom : Node} (f : ℕ) → Rebalances s bottom f
unfolding rebalance
rebalance-Balanced s zero t up l a d r focus ready short = ground (arith, short)
rebalance-Balanced s (suc f) t (start o) l a d r focus ready short =
    let here : (a == a) ≡ true = ground arith in
    follow_ok _ (reads_root focus)
      (rw here (returns (settled s t (start o) l a d r focus ready refl)))
rebalance-Balanced s (suc f) t (in_left up p dp x) l a d r focus ready short =
    below_left (rebalance-Balanced s f) up focus ready (ground (arith, short))
rebalance-Balanced s (suc f) t (in_right up x p dp) l a d r focus ready short =
    below_right (rebalance-Balanced s f) up focus ready (ground (arith, short))

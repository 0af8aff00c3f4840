-- ===== src/Rbtree/Spot.antt =====
-- The place of a node, by its address, in a red-black tree.
use middleware_development_d.Prelude.{
  ℕ, ◌+◌, ◌≤◌, ◌≡◌, refl, sym, ap, inl, inr, Bool, Bool-cases, true, false, ◌&&◌, ◌||◌, List, arith,
  ◌==◌, if◌then◌else◌,
}
use middleware_development_d.Rbtree.Store.{Ptr, Node, Tree}
use middleware_development_d.Rbtree.Shape.{Label, Shape, leaf, node, size}
use middleware_development_d.Rbtree.Trail.{Trail, start, in_left, in_right, times}
use middleware_development_d.Rbtree.Focus.{Focus, to_left, to_right, red_label, red_top}
use middleware_development_d.Rbtree.Balance.{weight, blacks, whole, items}
use middleware_development_d.Rbtree.Rebalance.{climbs, refit}
use middleware_development_d.Rbtree.Short.{Fitting}

one_calm : (x y z : Bool) → (x && (y || z)) ≡ false → ((y && x) ≡ false) × ((x && z) ≡ false)
one_calm false true z c = (refl, refl)
one_calm false false z c = (refl, refl)
one_calm true true z c = ground (arith, c)
one_calm true false z c = (refl, c)

other_calm : (x y z : Bool) → (x && (y || z)) ≡ false → ((z && x) ≡ false) × ((x && y) ≡ false)
other_calm false y true c = (refl, refl)
other_calm false y false c = (refl, refl)
other_calm true true z c = ground (arith, c)
other_calm true false false c = (refl, refl)
other_calm true false true c = ground (arith, c)

module _ {up : Trail} {l r : Shape} {a : Ptr} {d : Label} where
  pub Fitting-left : Fitting up (node l a d r) → Fitting (in_left up a d r) l
  Fitting-left fit =
      let (e, vl, vr) = fit.level in
      let (c, cl, cr) = fit.calm in
      let (calm_l, calm_r) = one_calm (red_label d) (red_top l) (red_top r) c in
      record {
        level = vl;
        calm = cl;
        fits = (sym e, vr, cr, calm_r, fit.calm_top, fit.fits);
        calm_top = calm_l;
      }

  pub Fitting-right : Fitting up (node l a d r) → Fitting (in_right up l a d) r
  Fitting-right fit =
      let (e, vl, vr) = fit.level in
      let (c, cl, cr) = fit.calm in
      let (calm_r, calm_l) = other_calm (red_label d) (red_top l) (red_top r) c in
      record {
        level = vr;
        calm = cr;
        fits = (
          e,
          vl,
          cl,
          calm_l,
          fit.calm_top,
          refit up (weight d + blacks l) (weight d + blacks r) (ap (λ n. weight d + n) e) fit.fits,
        );
        calm_top = calm_r;
      }

-- The node at `z` and the way up from it, in a tree with these items.
pub record Spot (s : Ptr) (bottom : Node) (t : Tree) (z : Ptr) (listed : List (Ptr × ℕ × ℕ))
    : Type 0 where
  pub up : Trail
  pub l : Shape
  pub d : Label
  pub r : Shape
  pub focus : Focus s bottom t up (node l z d r)
  pub fit : Fitting up (node l z d r)
  pub same_items : items (whole up (node l z d r)) ≡ listed

is_same : (z a : ℕ) → (z == a) ≡ true → z ≡ a
is_same z a h = ground (arith, h)

on_right :
    (z a n m : ℕ)
    → (z == a) ≡ false
    → (n == 0) ≡ true
    → 1 ≤ (if z == a then 1 else 0) + (n + m)
    → 1 ≤ m
on_right z a n m other out inside = ground (arith, other, out, inside)

on_left : (n : ℕ) → (n == 0) ≡ false → 1 ≤ n
on_left n into = ground (arith, into)

pub find-Spot :
    {s : Ptr} {bottom : Node} {t : Tree} (z : Ptr) (up : Trail) (sh : Shape)
    → 1 ≤ times z sh
    → Focus s bottom t up sh
    → Fitting up sh
    → Spot s bottom t z (items (whole up sh))
find-Spot z up leaf inside focus fit = ground (arith, inside)
find-Spot {s} {bottom} {t} z up (node l a d r) inside focus fit = elim (Bool-cases (z == a)) [
  | inl here ↦
      rw (is_same z a here)
        (record { up = up; l = l; d = d; r = r; focus = focus; fit = fit; same_items = refl })
  | inr elsewhere ↦ elim (Bool-cases (times z l == 0)) [
    | inl out ↦
        find-Spot z (in_right up l a d) r
          (on_right z a (times z l) (times z r) elsewhere out inside) (to_right focus)
          (Fitting-right fit)
    | inr into ↦
        find-Spot z (in_left up a d r) l (on_left (times z l) into) (to_left focus)
          (Fitting-left fit)
  ]
]

pub climbs-whole : (up : Trail) (sh : Shape) → climbs up + size sh ≤ size (whole up sh)
climbs-whole (start o) sh = omega arith
climbs-whole (in_left up a d r) sh = omega (arith, climbs-whole up (node sh a d r))
climbs-whole (in_right up l a d) sh = omega (arith, climbs-whole up (node l a d sh))

-- ===== src/Rbtree/Heir.antt =====
-- The child that comes to the place of a node that had no other child.
use middleware_development_d.Prelude.{
  ◌+◌, ◌≡◌, refl, sym, ap, ◌∙◌, Bool, true, false, ◌&&◌, ◌||◌, arith,
}
use middleware_development_d.Rbtree.Store.{Ptr}
use middleware_development_d.Rbtree.Shape.{Label, Shape, leaf, node}
use middleware_development_d.Rbtree.Trail.{Trail}
use middleware_development_d.Rbtree.Focus.{red_label, red_top}
use middleware_development_d.Rbtree.Balance.{weight, blacks, Level, Calm, Fits}
use middleware_development_d.Rbtree.Rebalance.{refit}
use middleware_development_d.Rbtree.Short.{Fitting}

-- The child `y` of a node with the label `e`, which had no other child and left its place.
pub record Heir (up : Trail) (e : Label) (y : Shape) : Type 0 where
  pub level : Level y
  pub calm : Calm y
  pub fits : Fits (weight e + blacks y) up
  pub calm_top : (red_label e && red_top y) ≡ false

or_false : (x y : Bool) → (x && (y || false)) ≡ (x && y)
or_false true y = ground arith
or_false false y = refl

pub Heir-right :
    (up : Trail) (b : Ptr) (e : Label) (y : Shape) → Fitting up (node leaf b e y) → Heir up e y
Heir-right up b e y fit = record {
  level = fit.level.2;
  calm = fit.calm.2;
  fits =
      refit up (weight e + 0) (weight e + blacks y) (ap (λ n. weight e + n) fit.level.0) fit.fits;
  calm_top = fit.calm.0;
}

pub Heir-left :
    (up : Trail) (b : Ptr) (e : Label) (y : Shape) → Fitting up (node y b e leaf) → Heir up e y
Heir-left up b e y fit = record {
  level = fit.level.1;
  calm = fit.calm.1;
  fits = fit.fits;
  calm_top = sym (or_false (red_label e) (red_top y)) ∙ fit.calm.0;
}

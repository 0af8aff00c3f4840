-- ===== src/Rbtree/Short.antt =====
-- A place in the tree whose ways down have one black node less than the other ways of the tree: what the
-- loop of `ngx_rbtree_delete` starts from, and what a round of it leaves.
use middleware_development_d.Prelude.{
  ℕ, ◌+◌, ◌<◌, ◌≡◌, refl, sym, ◌∙◌, inl, inr, Bool-cases, false, ◌&&◌, List, arith, if◌then◌else◌,
}
use middleware_development_d.Rbtree.Store.{Ptr, Node, Tree}
use middleware_development_d.Rbtree.Shape.{Label, Shape, leaf, node, top}
use middleware_development_d.Rbtree.Trail.{Trail, start, in_left, in_right, root_at}
use middleware_development_d.Rbtree.Focus.{Focus, red_top}
use middleware_development_d.Rbtree.Balance.{
  weight, blacks, Level, Calm, below_red, Fits, base, whole, items, Focus-whole, whole-Level,
  whole-Calm, still_calm,
}
use middleware_development_d.Rbtree.Rebalance.{climbs}
use middleware_development_d.Rbtree.Whole.{IsRbTree}
use middleware_development_d.Rbtree.Settle.{Knows}

-- Below the top, which may be red and have red children.
abbrev pub CalmBelow : Shape → Type 0
CalmBelow leaf = Unit {0}
CalmBelow (node l a d r) = Calm l × Calm r

pub Calm-CalmBelow : (sh : Shape) → Calm sh → CalmBelow sh
Calm-CalmBelow leaf c = tt
Calm-CalmBelow (node l a d r) c = (c.1, c.2)

pub CalmBelow-Calm : (sh : Shape) → red_top sh ≡ false → CalmBelow sh → Calm sh
CalmBelow-Calm leaf calm c = tt
CalmBelow-Calm (node l a d r) calm c = (rw calm refl, c.0, c.1)

-- The root's parent is not read.
abbrev pub Known : Node → Trail → Shape → Type 0
Known bottom (start o) sh = Unit {0}
Known bottom (in_left up a d r) sh = Knows bottom a sh
Known bottom (in_right up l a d) sh = Knows bottom a sh

pub Known-node :
    (bottom : Node) (l : Shape) (a : Ptr) (d : Label) (r : Shape) (up : Trail)
    → Known bottom up (node l a d r)
Known-node bottom l a d r (start o) = tt
Known-node bottom l a d r (in_left up p e x) = tt
Known-node bottom l a d r (in_right up x p e) = tt

pub record Short (bottom : Node) (up : Trail) (sh : Shape) : Type 0 where
  pub known : Known bottom up sh
  pub level : Level sh
  pub calm : CalmBelow sh
  pub fits : Fits (1 + blacks sh) up

-- A tree that belongs at its place.
pub record Fitting (up : Trail) (sh : Shape) : Type 0 where
  pub level : Level sh
  pub calm : Calm sh
  pub fits : Fits (blacks sh) up
  pub calm_top : (red_top sh && below_red up) ≡ false

whole-black :
    (up : Trail) (sh : Shape) (h : ℕ)
    → Fits h up
    → (red_top sh && below_red up) ≡ false
    → red_top (whole up sh) ≡ false
whole-black (start o) sh h fits b = ground (arith, b)
whole-black (in_left up a d r) sh h fits b =
    whole-black up (node sh a d r) (weight d + h) fits.5 fits.4
whole-black (in_right up l a d) sh h fits b =
    whole-black up (node l a d sh) (weight d + h) fits.5 fits.4

pub top-whole : (s : Ptr) (up : Trail) (sh : Shape) → top s (whole up sh) ≡ root_at (top s sh) up
top-whole s (start o) sh = refl
top-whole s (in_left up a d r) sh = top-whole s up (node sh a d r)
top-whole s (in_right up l a d) sh = top-whole s up (node l a d sh)

pub Fitting-IsRbTree :
    {s : Ptr} {bottom : Node} {t : Tree} (up : Trail) (sh : Shape) (wanted : List (Ptr × ℕ × ℕ))
    → Focus s bottom t up sh
    → Fitting up sh
    → items (whole up sh) ≡ wanted
    → IsRbTree s t wanted
Fitting-IsRbTree {s} {bottom} up sh wanted f fit same = record {
  over = base up;
  bottom = bottom;
  shape = whole up sh;
  focus = Focus-whole up sh f;
  level = whole-Level up sh fit.level fit.fits;
  calm = whole-Calm up sh (blacks sh) fit.calm fit.fits (still_calm (red_top sh) up fit.calm_top);
  black_root = whole-black up sh (blacks sh) fit.fits fit.calm_top;
  same_items = same;
}

-- The rounds that are left.
abbrev pub rounds : Trail → Shape → ℕ
rounds up sh = if red_top sh then 0 else climbs up

-- Where the loop goes on, at the node `n`.
pub record Goes (s : Ptr) (bottom : Node) (f : ℕ) (wanted : List (Ptr × ℕ × ℕ)) (n : Ptr) (t : Tree)
    : Type 0 where
  pub up : Trail
  pub shape : Shape
  pub here : n ≡ top s shape
  pub focus : Focus s bottom t up shape
  pub short : Short bottom up shape
  pub enough : rounds up shape < f
  pub same_items : items (whole up shape) ≡ wanted

-- At the root when all is in place.
pub finished :
    {s : Ptr} {bottom : Node} {f : ℕ} {t : Tree} (n : Ptr) (up : Trail) (sh : Shape)
    (wanted : List (Ptr × ℕ × ℕ))
    → n ≡ root_at (top s sh) up
    → Focus s bottom t up sh
    → Fitting up sh
    → items (whole up sh) ≡ wanted
    → 0 < f
    → Goes s bottom f wanted n t
finished {s} {bottom} {f} n up sh wanted e focus fit same some_left = record {
  up = start (base up);
  shape = whole up sh;
  here = e ∙ sym (top-whole s up sh);
  focus = Focus-whole up sh focus;
  short = record {
    known = tt;
    level = whole-Level up sh fit.level fit.fits;
    calm =
        Calm-CalmBelow (whole up sh) (
          whole-Calm up sh (blacks sh) fit.calm fit.fits (still_calm (red_top sh) up fit.calm_top));
    fits = tt;
  };
  enough = elim (Bool-cases (red_top (whole up sh))) [
    | inl hot ↦ rw hot some_left
    | inr calm ↦ rw calm some_left
  ];
  same_items = same;
}

-- ===== src/Rbtree/Rebalance.antt =====
-- The loop of `ngx_rbtree_insert` that restores the colours.
use middleware_development_d.Prelude.{
  ℕ, suc, ◌+◌, ◌<◌, ◌≡◌, refl, sym, Bool, true, false, ◌&&◌, List, arith, ◌==◌, if◌then◌else◌,
  Returns,
}
use middleware_development_d.Rbtree.Store.{Node, Ptr, Tree}
use middleware_development_d.Rbtree.Shape.{Label, Shape, node}
use middleware_development_d.Rbtree.Insert.{rebalance}
use middleware_development_d.Rbtree.Trail.{
  Trail, start, in_left, in_right, times_on, root_at, root_at-times,
}
use middleware_development_d.Rbtree.Focus.{Focus, red_label, red_top}
use middleware_development_d.Rbtree.Balance.{
  weight, blacks, Level, Calm, Fits, base, whole, items, Focus-whole, below_red_node, whole-Level,
  whole-Calm,
}

-- A red node with black children, which could stand below the trail but for a red parent or no parent.
pub record Ready (up : Trail) (l : Shape) (d : Label) (r : Shape) : Type 0 where
  pub red : red_label d ≡ true
  pub level : blacks l ≡ blacks r
  pub levels : Level l × Level r
  pub calms : Calm l × Calm r
  pub calm_l : red_top l ≡ false
  pub calm_r : red_top r ≡ false
  pub fits : Fits (blacks l) up

-- A whole red-black tree but for the root's colour, with these items.
pub record Balanced (s : Ptr) (bottom : Node) (t : Tree) (wanted : List (Ptr × ℕ × ℕ))
    : Type 0 where
  pub over : Ptr
  pub shape : Shape
  pub focus : Focus s bottom t (start over) shape
  pub level : Level shape
  pub calm : Calm shape
  pub same_items : items shape ≡ wanted

abbrev pub climbs : Trail → ℕ
climbs (start o) = 0
climbs (in_left up a d r) = suc (climbs up)
climbs (in_right up l a d) = suc (climbs up)

and_false : (x : Bool) → (x && false) ≡ false
and_false true = refl
and_false false = refl

-- The node is itself the top of a red-black tree, as high as its children.
module _ {up : Trail} {l r : Shape} {d : Label} (a : Ptr) (ready : Ready up l d r) where
  pub Ready-Level : Level (node l a d r)
  Ready-Level = (ready.level, ready.levels.0, ready.levels.1)

  pub Ready-Calm : Calm (node l a d r)
  Ready-Calm =
      (rw (ready.calm_l, ready.calm_r) (and_false (red_label d)), ready.calms.0, ready.calms.1)

  pub Ready-blacks : weight d + blacks l ≡ blacks l
  Ready-blacks = ground (arith, ready.red)

pub refit : (up : Trail) (h k : ℕ) → h ≡ k → Fits h up → Fits k up
refit up h k e fits = rw (sym e) fits

-- The parent is no longer red.
pub settled :
    (s : Ptr) {bottom : Node} (t : Tree) (up : Trail) (l : Shape) (a : Ptr) (d : Label) (r : Shape)
    → Focus s bottom t up (node l a d r)
    → Ready up l d r
    → below_red_node up ≡ false
    → Balanced s bottom t (items (whole up (node l a d r)))
settled s t up l a d r f ready calm = record {
  over = base up;
  shape = whole up (node l a d r);
  focus = Focus-whole up (node l a d r) f;
  level =
      whole-Level up (node l a d r) (Ready-Level a ready)
        (refit up (blacks l) (weight d + blacks l) (sym (Ready-blacks a ready)) ready.fits);
  calm =
      whole-Calm up (node l a d r) (blacks l) (Ready-Calm a ready) ready.fits
        (rw calm (and_false (red_label d)));
  same_items = refl;
}

-- A node below another is not the root.
pub not_root :
    (p : Ptr) (up : Trail) (a : Ptr)
    → (if a == p then 1 else 0) + times_on a up ≡ 0
    → (a == root_at p up) ≡ false
not_root p up a out = ground (arith, root_at-times p up)

-- What the loop does from a place, with this fuel.
abbrev pub Rebalances : Ptr → Node → ℕ → Type 0
Rebalances s bottom f =
    (t : Tree) (up : Trail) (l : Shape) (a : Ptr) (d : Label) (r : Shape)
    → Focus s bottom t up (node l a d r)
    → Ready up l d r
    → climbs up < f
    → Returns (λ (u, t'). Balanced s bottom t' (items (whole up (node l a d r)))) (rebalance f a t)

-- The loop goes on from a place of another tree with the same items.
pub goes_on :
    {s : Ptr} {bottom : Node} {f : ℕ} {t : Tree}
    → Rebalances s bottom f
    → (up : Trail) (l : Shape) (a : Ptr) (d : Label) (r : Shape) (wanted : List (Ptr × ℕ × ℕ))
    → items (whole up (node l a d r)) ≡ wanted
    → Ready up l d r
    → climbs up < f
    → (n : Ptr) → n ≡ a
    → Focus s bottom t up (node l a d r)
    → Returns (λ (u, t'). Balanced s bottom t' wanted) (rebalance f n t)
goes_on {s} {f} {t} next up l a d r wanted same ready short n e focus =
    rw (e, sym same) (next t up l a d r focus ready short)

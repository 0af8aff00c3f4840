-- ===== src/Rbtree/Balance.antt =====
-- Red-black trees: as many black nodes on every way down, and no red node below a red one.
use middleware_development_d.Prelude.{
  ℕ, ◌+◌, ◌≡◌, refl, sym, ap, Bool, true, false, ◌&&◌, ◌||◌, List, [], ◌∷◌, ◌++◌, ◌==◌,
  if◌then◌else◌,
}
use middleware_development_d.Rbtree.Store.{Node, Ptr, Tree}
use middleware_development_d.Rbtree.Shape.{Label, Shape, leaf, node}
use middleware_development_d.Rbtree.Trail.{Trail, start, in_left, in_right}
use middleware_development_d.Rbtree.Focus.{Focus, from_left, from_right, red_label, red_top}

abbrev pub weight : Label → ℕ
weight d = if d.color == 0 then 1 else 0

-- The black nodes on the leftmost way down.
abbrev pub blacks : Shape → ℕ
blacks leaf = 0
blacks (node l a d r) = weight d + blacks l

abbrev pub Level : Shape → Type 0
Level leaf = Unit {0}
Level (node l a d r) = (blacks l ≡ blacks r) × Level l × Level r

abbrev pub Calm : Shape → Type 0
Calm leaf = Unit {0}
Calm (node l a d r) = ((red_label d && (red_top l || red_top r)) ≡ false) × Calm l × Calm r

-- The place at the end of the trail is below a red node; the root must not be red either.
abbrev pub below_red : Trail → Bool
below_red (start o) = true
below_red (in_left up a d r) = red_label d
below_red (in_right up l a d) = red_label d

-- A tree with `h` black nodes on its ways down, and a black top, makes the whole a red-black tree.
abbrev pub Fits : ℕ → Trail → Type 0
Fits h (start o) = Unit {0}
Fits h (in_left up a d r) =
    (blacks r ≡ h)
    × Level r
    × Calm r
    × ((red_label d && red_top r) ≡ false)
    × ((red_label d && below_red up) ≡ false)
    × Fits (weight d + h) up
Fits h (in_right up l a d) =
    (blacks l ≡ h)
    × Level l
    × Calm l
    × ((red_label d && red_top l) ≡ false)
    × ((red_label d && below_red up) ≡ false)
    × Fits (weight d + h) up

-- The root's parent, and the whole tree.
abbrev pub base : Trail → Ptr
base (start o) = o
base (in_left up a d r) = base up
base (in_right up l a d) = base up

abbrev pub whole : Trail → Shape → Shape
whole (start o) sh = sh
whole (in_left up a d r) sh = whole up (node sh a d r)
whole (in_right up l a d) sh = whole up (node l a d sh)

-- What the nodes carry, in order.
abbrev pub items : Shape → List (Ptr × ℕ × ℕ)
items leaf = []
items (node l a d r) = items l ++ (a, d.key, d.payload) ∷ items r

pub items-whole :
    (up : Trail) (x y : Shape) → items x ≡ items y → items (whole up x) ≡ items (whole up y)
items-whole (start o) x y e = e
items-whole (in_left up a d r) x y e =
    items-whole up (node x a d r) (node y a d r) (ap (λ i. i ++ (a, d.key, d.payload) ∷ items r) e)
items-whole (in_right up l a d) x y e =
    items-whole up (node l a d x) (node l a d y) (ap (λ i. items l ++ (a, d.key, d.payload) ∷ i) e)

pub Focus-whole :
    {s : Ptr} {bottom : Node} {t : Tree} (up : Trail) (sh : Shape)
    → Focus s bottom t up sh
    → Focus s bottom t (start (base up)) (whole up sh)
Focus-whole (start o) sh f = f
Focus-whole (in_left up a d r) sh f = Focus-whole up (node sh a d r) (from_left f)
Focus-whole (in_right up l a d) sh f = Focus-whole up (node l a d sh) (from_right f)

-- Below a node.
abbrev pub below_red_node : Trail → Bool
below_red_node (start o) = false
below_red_node (in_left up a d r) = red_label d
below_red_node (in_right up l a d) = red_label d

pub whole-Level : (up : Trail) (sh : Shape) → Level sh → Fits (blacks sh) up → Level (whole up sh)
whole-Level (start o) sh v fits = v
whole-Level (in_left up a d r) sh v (e, vr, cr, br, bu, fits) =
    whole-Level up (node sh a d r) (sym e, v, vr) fits
whole-Level (in_right up l a d) sh v (e, vl, cl, bl, bu, fits) =
    whole-Level up (node l a d sh) (e, vl, v) (rw e fits)

pub still_calm :
    (x : Bool) (up : Trail) → (x && below_red up) ≡ false → (x && below_red_node up) ≡ false
still_calm false up p = refl
still_calm true (start o) p = refl
still_calm true (in_left up a d r) p = p
still_calm true (in_right up l a d) p = p

pub whole-Calm :
    (up : Trail) (sh : Shape) (h : ℕ)
    → Calm sh
    → Fits h up
    → (red_top sh && below_red_node up) ≡ false
    → Calm (whole up sh)
whole-Calm (start o) sh h c fits b = c
whole-Calm (in_left up a d r) sh h c (e, vr, cr, br, bu, fits) b =
    whole-Calm up (node sh a d r) (weight d + h)
      (both_calm (red_label d) (red_top sh) (red_top r) b br, c, cr) fits
      (still_calm (red_label d) up bu)
  where
    both_calm : (x y z : Bool) → (y && x) ≡ false → (x && z) ≡ false → (x && (y || z)) ≡ false
    both_calm false y z p q = refl
    both_calm true false z p q = q
    both_calm true true z p q = p
whole-Calm (in_right up l a d) sh h c (e, vl, cl, bl, bu, fits) b =
    whole-Calm up (node l a d sh) (weight d + h)
      (both_calm (red_label d) (red_top l) (red_top sh) bl b, cl, c) fits
      (still_calm (red_label d) up bu)
  where
    both_calm : (x z y : Bool) → (x && z) ≡ false → (y && x) ≡ false → (x && (z || y)) ≡ false
    both_calm false z y p q = refl
    both_calm true false false p q = refl
    both_calm true false true p q = q
    both_calm true true y p q = p

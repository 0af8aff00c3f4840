-- ===== src/Rbtree/Spine.antt =====
-- The leftmost way down in a tree: to the node that takes the place of a node with two children.
use middleware_development_d.Prelude.{
  ℕ, zero, suc, ◌+◌, ◌≤◌, ◌<◌, ◌≡◌, refl, sym, ap, true, false, List, [], ◌∷◌, ◌++◌, length, arith,
  ◌==◌, if◌then◌else◌, ok,
}
use middleware_development_d.Rbtree.Store.{Ptr, Node, Tree}
use middleware_development_d.Rbtree.Shape.{Label, Shape, leaf, node, top, size}
use middleware_development_d.Rbtree.Walk.{min_node}
use middleware_development_d.Rbtree.Trail.{Trail, in_left, times, times_on, above}
use middleware_development_d.Rbtree.Focus.{Focus, to_left, reads_left}
use middleware_development_d.Rbtree.Balance.{weight, Fits, below_red, whole, items}
use middleware_development_d.Rbtree.Rebalance.{climbs}
use middleware_development_d.Rbtree.Short.{Fitting}
use middleware_development_d.Rbtree.Spot.{Fitting-left}

-- The nodes on the way, the top first, each with what is on its right.
abbrev pub Spine : Type 0
Spine = List (Ptr × Label × Shape)

-- The trail at the end of the way, and the tree with `x` there.
abbrev pub hang : Trail → Spine → Trail
hang w [] = w
hang w ((a, d, r) ∷ ps) = hang (in_left w a d r) ps

abbrev pub plug : Spine → Shape → Shape
plug [] x = x
plug ((a, d, r) ∷ ps) x = node (plug ps x) a d r

pub whole-hang : (w : Trail) (ps : Spine) (x : Shape) → whole (hang w ps) x ≡ whole w (plug ps x)
whole-hang w [] x = refl
whole-hang w ((a, d, r) ∷ ps) x = whole-hang (in_left w a d r) ps x

pub climbs-hang : (w : Trail) (ps : Spine) → climbs (hang w ps) ≡ climbs w + length ps
climbs-hang w [] = omega arith
climbs-hang w ((a, d, r) ∷ ps) = omega (arith, climbs-hang (in_left w a d r) ps)

pub items-plug :
    (ps : Spine) (b : Ptr) (e : Label) (y : Shape)
    → items (plug ps (node leaf b e y)) ≡ (b, e.key, e.payload) ∷ items (plug ps y)
items-plug [] b e y = refl
items-plug ((a, d, r) ∷ ps) b e y =
    ap (λ i. i ++ (a, d.key, d.payload) ∷ items r) (items-plug ps b e y)

module _ {s : Ptr} {bottom : Node} {t : Tree} where
  pub Focus-plug :
      (w : Trail) (ps : Spine) (x : Shape)
      → Focus s bottom t w (plug ps x)
      → Focus s bottom t (hang w ps) x
  Focus-plug w [] x f = f
  Focus-plug w ((a, d, r) ∷ ps) x f = Focus-plug (in_left w a d r) ps x (to_left f)

  pub top_real :
      (v : Trail) (ps : Spine) (b : Ptr) (e : Label) (y : Shape)
      → Focus s bottom t v (plug ps (node leaf b e y))
      → (top s (plug ps (node leaf b e y)) == s) ≡ false
  top_real v [] b e y f = ground (arith, f.tree.0)
  top_real v ((a, d, r) ∷ ps) b e y f = ground (arith, f.tree.0)

  -- The loop of `ngx_rbtree_min` goes this way.
  pub min_node-plug :
      (f : ℕ) (w : Trail) (ps : Spine) (b : Ptr) (e : Label) (y : Shape)
      → Focus s bottom t w (plug ps (node leaf b e y))
      → length ps < f
      → min_node f (top s (plug ps (node leaf b e y))) s t ≡ ok (b, t)
  unfolding min_node
  min_node-plug zero w ps b e y focus enough = ground (arith, enough)
  min_node-plug (suc f) w [] b e y focus enough =
      let same : (s == s) ≡ true = ground arith in rw (reads_left focus, same) refl
  min_node-plug (suc f) w ((a, d, r) ∷ ps) b e y focus enough =
      let other = top_real (in_left w a d r) ps b e y (to_left focus) in
      rw (reads_left focus, other)
        (min_node-plug f (in_left w a d r) ps b e y (to_left focus) (omega (arith, enough)))

pub Fitting-plug :
    (w : Trail) (ps : Spine) (x : Shape) → Fitting w (plug ps x) → Fitting (hang w ps) x
Fitting-plug w [] x f = f
Fitting-plug w ((a, d, r) ∷ ps) x f = Fitting-plug (in_left w a d r) ps x (Fitting-left f)

-- A tree that fits at the end of the way does so below another trail of the same colours.
pub Fits-hang :
    (w w' : Trail) (ps : Spine) (h : ℕ)
    → ((k : ℕ) → Fits k w → Fits k w')
    → below_red w ≡ below_red w'
    → Fits h (hang w ps)
    → Fits h (hang w' ps)
Fits-hang w w' [] h go same fits = go h fits
Fits-hang w w' ((a, d, r) ∷ ps) h go same fits =
    Fits-hang (in_left w a d r) (in_left w' a d r) ps h
      (λ k (e, vr, cr, br, bu, rest). (e, vr, cr, br, rw (sym same) bu, go (weight d + k) rest))
      refl fits

-- The parent of the place is the last node on the way.
pub above-hang :
    (w w' : Trail) (a : Ptr) (d : Label) (r : Shape) (ps : Spine)
    → above (hang (in_left w a d r) ps) ≡ above (hang (in_left w' a d r) ps)
above-hang w w' a d r [] = refl
above-hang w w' a d r ((b, e, x) ∷ ps) = above-hang (in_left w a d r) (in_left w' a d r) b e x ps

pub times_on-hang :
    (q : Ptr) (w : Trail) (a : Ptr) (d : Label) (r : Shape) (ps : Spine)
    → (if q == above (hang (in_left w a d r) ps) then 1 else 0) + times_on q w
      ≤ times_on q (hang (in_left w a d r) ps)
times_on-hang q w a d r [] = omega arith
times_on-hang q w a d r ((b, e, x) ∷ ps) = omega (arith, times_on-hang q (in_left w a d r) b e x ps)

pub times_on-hang_least : (q : Ptr) (w : Trail) (ps : Spine) → times_on q w ≤ times_on q (hang w ps)
times_on-hang_least q w [] = omega arith
times_on-hang_least q w ((a, d, r) ∷ ps) = omega (arith, times_on-hang_least q (in_left w a d r) ps)

pub times-plug :
    (q : Ptr) (ps : Spine) (b : Ptr) (e : Label) (y : Shape)
    → times q (plug ps (node leaf b e y)) ≡ (if q == b then 1 else 0) + times q (plug ps y)
times-plug q [] b e y = omega arith
times-plug q ((a, d, r) ∷ ps) b e y = omega (arith, times-plug q ps b e y)

-- Every tree with a node has a leftmost one.
pub record Least (sh : Shape) : Type 0 where
  pub ps : Spine
  pub b : Ptr
  pub e : Label
  pub y : Shape
  pub parts : sh ≡ plug ps (node leaf b e y)

pub node-Least : (l : Shape) (a : Ptr) (d : Label) (r : Shape) → Least (node l a d r)
node-Least leaf a d r = record { ps = []; b = a; e = d; y = r; parts = refl }
node-Least (node ll c e lr) a d r =
    let low = node-Least ll c e lr in
    record {
      ps = (a, d, r) ∷ low.ps;
      b = low.b;
      e = low.e;
      y = low.y;
      parts = ap (λ x. node x a d r) low.parts;
    }

pub length-plug : (ps : Spine) (x : Shape) → length ps + size x ≤ size (plug ps x)
length-plug [] x = omega arith
length-plug ((a, d, r) ∷ ps) x = omega (arith, length-plug ps x)

-- ===== src/Rbtree/Replaced.antt =====
-- `ngx_rbtree_delete` of a node with two children: the leftmost node on its right takes its place.
use middleware_development_d.Prelude.{
  ℕ, suc, ◌+◌, ◌≤◌, ◌<◌, ◌≡◌, refl, sym, true, false, [], ◌∷◌, length, some, arith, ◌==◌,
  if◌then◌else◌, Returns, Returns-weaken,
}
use middleware_development_d.Rbtree.Store.{
  Ptr, Node, Tree, pure, ◌>>=◌, ◌>>◌, left, parent, is_red, set_left, set_right, set_parent,
}
use middleware_development_d.Rbtree.Fields.{parent_lem, is_red_lem}
use middleware_development_d.Rbtree.Shape.{Label, Shape, leaf, node, top}
use middleware_development_d.Rbtree.Delete.{settle, clear_node, replace}
use middleware_development_d.Rbtree.Trail.{
  Trail, start, in_left, in_right, times, times_on, above, linked,
}
use middleware_development_d.Rbtree.Steps.{follow, follow_ok}
use middleware_development_d.Rbtree.Focus.{Focus, to_right}
use middleware_development_d.Rbtree.Balance.{weight, blacks, whole, items}
use middleware_development_d.Rbtree.Rebalance.{climbs, not_root}
use middleware_development_d.Rbtree.Settle.{colored}
use middleware_development_d.Rbtree.Whole.{IsRbTree}
use middleware_development_d.Rbtree.Relink.{below, reads_side}
use middleware_development_d.Rbtree.Short.{Known, Fitting}
use middleware_development_d.Rbtree.Unhang.{Freed, Freed-Hangs, frees_right, unhang, rehang}
use middleware_development_d.Rbtree.Succeed.{clear_node-Focus, replace-Focus}
use middleware_development_d.Rbtree.Spot.{Fitting-right}
use middleware_development_d.Rbtree.Spine.{
  Spine, hang, plug, whole-hang, climbs-hang, Focus-plug, Fitting-plug, Fits-hang, above-hang,
  times_on-hang, times_on-hang_least, times-plug,
}
use middleware_development_d.Rbtree.Heir.{Heir, Heir-right}
use middleware_development_d.Rbtree.Removal.{Knows-Known, closes}

pub below-hang : (w : Trail) (ps : Spine) → below w ≡ true → below (hang w ps) ≡ true
below-hang w [] under = under
below-hang w ((a, d, r) ∷ ps) under = below-hang (in_left w a d r) ps refl

once_here :
    (b a y x u : ℕ)
    → (if b == b then 1 else 0) + (y + ((if b == a then 1 else 0) + (x + u))) ≤ 1
    → (if b == a then 1 else 0) + u ≡ 0
once_here b a y x u once = ground (arith, once)

module _ {s : Ptr} {bottom : Node} {t : Tree} where
  -- A node below another one is not the root.
  pub below_root :
      {b : Ptr} {nb : Node} {q : Ptr} {y : Shape} (up : Trail)
      → below up ≡ true
      → Freed s bottom b nb q b up y t
      → (b == t.root) ≡ false
  below_root (start o) under f = ground (arith, under)
  below_root {b} {y = y} (in_left up a d x) under f =
      rw f.root (not_root a up b (once_here b a (times b y) (times b x) (times_on b up) (f.once b)))
  below_root {b} {y = y} (in_right up x a d) under f =
      rw f.root (not_root a up b (once_here b a (times b y) (times b x) (times_on b up) (f.once b)))

  Freed-up :
      {b q : Ptr} {nb : Node} {w : Trail} {y : Shape} {a : Ptr} {d : Label} {r : Shape}
      → q ≡ a
      → Freed s bottom b nb q (top s y) (in_left w a d r) y t
      → Freed s bottom b nb (above w) a w (node y a d r) t
  Freed-up e f = record {
    sentinel = f.sentinel;
    trail = f.trail.3;
    tree = (f.trail.0, f.trail.1, rw e at f.tree, f.trail.2);
    root = f.root;
    once = λ z. omega (arith, f.once z);
    at_b = f.at_b;
    real = f.real;
    at_end = f.at_end;
    end_black = f.end_black;
  }

  Freed-plug :
      {b q : Ptr} {nb : Node} (w : Trail) (ps : Spine) (y : Shape)
      → q ≡ above (hang w ps)
      → Freed s bottom b nb q (top s y) (hang w ps) y t
      → Freed s bottom b nb (above w) (top s (plug ps y)) w (plug ps y) t
  Freed-plug w [] y e f = rw (sym e) f
  Freed-plug w ((a, d, r) ∷ ps) y e f = Freed-up refl (Freed-plug (in_left w a d r) ps y e f)

parent_other :
    (over z k m : ℕ)
    → (if z == over then 1 else 0) + ((if z == z then 1 else 0) + k) ≤ m
    → m ≤ 1
    → (over == z) ≡ false
parent_other over z k m some_times few = ground (arith, some_times, few)

apart_from : (b z k n : ℕ) → (if z == b then 1 else 0) + (k + n) ≤ 1 → 1 ≤ n → (b == z) ≡ false
apart_from b z k n once here = ground (arith, once, here)

some_on : (z k n : ℕ) → (if z == z then 1 else 0) + k ≤ n → 1 ≤ n
some_on z k n h = ground (arith, h)

few_on : (j k n : ℕ) → j + (k + n) ≤ 1 → n ≤ 1
few_on j k n h = omega (arith, h)

-- Counting `z` once `b` stands in its place.
out_of :
    (z b l r r' u : ℕ)
    → (if z == z then 1 else 0) + (l + r') + u ≤ 1
    → r' ≡ (if z == b then 1 else 0) + r
    → (if z == b then 1 else 0) + (l + r) + u ≡ 0
out_of z b l r r' u once same = ground (arith, once, same)

module _ (s b z : Ptr) (e d : Label) (l y : Shape) (up : Trail) where
  -- The child's link to its parent, and `subst` in the place of `node`.
  abbrev Moved : Spine → (Unit {0} × Tree) → Type 0
  Moved ps (u, t') =
      (bottom' : Node) × Focus s bottom' t' up (node l b (colored e d) (plug ps y))
      × ((n : Node) × (t'.cells z ≡ some n))
      × Known bottom' (hang (in_right up l b (colored e d)) ps) y

  moves :
      {bottom : Node} {t : Tree} (ps : Spine) (x0 y0 : Ptr)
      → Freed s bottom b
          (linked (above (hang (in_right up l z d) ps)) e x0 y0)
          b
          (top s y)
          (hang (in_right up l z d) ps)
          y
          t
      → times_on z (hang (in_right up l z d) ps) ≤ 1
      → Returns (Moved ps) (
          (do
            up' ← parent b
            (if up' == z then set_parent (top s y) b else set_parent (top s y) up')
            replace z b s)
            t)
  moves {t} [] x0 y0 f once =
      let same : (z == z) ≡ true = ground arith in
      follow_ok _ (parent_lem t b _ f.at_b) (
        rw same (
          follow _ (rehang y b f) λ _ t₁ (bottom', f₁, known).
            Returns-weaken (replace-Focus f₁) λ (u, t₂) (f₂, at). (bottom', f₂, (_, at), known)))
  moves {t} ((a, g, r) ∷ ps) x0 y0 f once =
      let over : Ptr = above (hang (in_left (in_right up l z d) a g r) ps) in
      let other : (over == z) ≡ false =
        parent_other over z _ _ (times_on-hang z (in_right up l z d) a g r ps) once in
      follow_ok _ (parent_lem t b _ f.at_b) (
        rw other (
          follow _ (rehang y over f) λ _ t₁ (bottom', f₁, known).
            Returns-weaken
              (replace-Focus (Freed-plug (in_right up l z d) ((a, g, r) ∷ ps) y refl f₁))
              λ (u, t₂) (f₂, at). (
                bottom',
                f₂,
                (_, at),
                Knows-Known bottom' (hang (in_left (in_right up l b (colored e d)) a g r) ps) y (
                    rw (above-hang (in_right up l z d) (in_right up l b (colored e d)) a g r ps) at
                      known),
              )))

  -- From the last test on.
  pub removes_inner :
      {bottom : Node} {t : Tree} (fuel : ℕ) (ps : Spine)
      → Focus s bottom t up (node l z d (plug ps (node leaf b e y)))
      → Fitting up (node l z d (plug ps (node leaf b e y)))
      → suc (climbs up) + length ps < fuel
      → Returns
          (λ (u, t'). IsRbTree s t' (items (whole up (node l b (colored e d) (plug ps y)))))
          ((do
            was_red ← is_red b
            over ← parent b
            side ← left over
            (if b == side then set_left over (top s y) else set_right over (top s y))
            (if b == z then (do up ← parent b; set_parent (top s y) up) else (do
              up ← parent b
              (if up == z then set_parent (top s y) b else set_parent (top s y) up)
              replace z b s))
            clear_node z
            if was_red then pure tt else settle fuel (top s y))
            t)
  removes_inner {bottom} {t} fuel ps focus fit enough =
      let w : Trail = in_right up l z d in
      let place : Focus s bottom t (hang w ps) (node leaf b e y) =
        Focus-plug w ps (node leaf b e y) (to_right focus) in
      let heir : Heir (hang w ps) e y =
        Heir-right (hang w ps) b e y (Fitting-plug w ps (node leaf b e y) (Fitting-right fit)) in
      let w' : Trail = in_right up l b (colored e d) in
      let heir' : Heir (hang w' ps) e y = record {
        level = heir.level;
        calm = heir.calm;
        fits = Fits-hang w w' ps (weight e + blacks y) (λ k h. h) refl heir.fits;
        calm_top = heir.calm_top;
      } in
      let here : 1 ≤ times_on z (hang w ps) = some_on z _ _ (times_on-hang_least z w ps) in
      let under : below (hang w ps) ≡ true = below-hang w ps refl in
      let f = frees_right place in
      follow_ok _ (is_red_lem t b _ f.at_b) (
        follow_ok _ (parent_lem t b _ f.at_b) (
          follow_ok _ (reads_side s b b t (hang w ps) under (Freed-Hangs refl refl f)) (
            follow _ (unhang under refl refl f) λ _ t₁ f₁. rw (apart_from b z _ _ (f.once z) here) (
              follow _ (moves ps _ _ f₁ (few_on _ _ _ (f.once z)))
                λ _ t₂ (bottom', f₂, (n, at), known).
                  follow _
                    (clear_node-Focus z focus.tree.0
                      (out_of z b (times z l) (times z (plug ps y)) _ (times_on z up) (focus.once z)
                        (times-plug z ps b e y))
                      at f₂)
                    λ _ t₃ f₃.
                      Returns-weaken
                        (closes fuel (hang w' ps) e y (Focus-plug w' ps y (to_right f₃)) known heir'
                          (omega (arith, climbs-hang w' ps, enough)))
                        λ (u, t₄) is. rw (whole-hang w' ps y) at is))))

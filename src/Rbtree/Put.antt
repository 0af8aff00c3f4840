-- ===== src/Rbtree/Put.antt =====
-- The tree with a new node at the end of the way that its key takes.
use middleware_development_d.Prelude.{
  ℕ, ◌+◌, ◌≤◌, ◌≡◌, refl, sym, ap, ◌∙◌, inl, inr, Bool, Bool-cases, true, false, ◌&&◌, ◌||◌, ◌∷◌,
  ◌++◌, arith, if◌then◌else◌,
}
use middleware_development_d.Rbtree.Store.{Ptr}
use middleware_development_d.Rbtree.Shape.{Label, Shape, leaf, node, size}
use middleware_development_d.Rbtree.Trail.{Trail, in_left, in_right}
use middleware_development_d.Rbtree.Focus.{red_label, red_top}
use middleware_development_d.Rbtree.Balance.{
  weight, blacks, Level, Calm, below_red, Fits, whole, items,
}
use middleware_development_d.Rbtree.Rebalance.{climbs, refit}
use middleware_development_d.Rbtree.Descent.{way}
use middleware_development_d.Rbtree.Order.{
  Order, insert_item, insert_item-front, insert_item-back, Sorted, Sorted-left, Sorted-right,
  Sorted-Past,
}

module _ (less : ℕ → ℕ → Bool) where
  -- As an unbalanced search tree does it.
  abbrev pub put : ℕ → Shape → Shape → Shape
  put k x leaf = x
  put k x (node l a d r) = if less k d.key then node (put k x l) a d r else node l a d (put k x r)

  pub whole-way :
      (k : ℕ) (x : Shape) (up : Trail) (sh : Shape)
      → whole (way less k up sh) x ≡ whole up (put k x sh)
  whole-way k x up leaf = refl
  whole-way k x up (node l a d r) = elim (Bool-cases (less k d.key)) [
    | inl lower ↦ rw lower (whole-way k x (in_left up a d r) l)
    | inr higher ↦ rw higher (whole-way k x (in_right up l a d) r)
  ]

  pub climbs-way :
      (k : ℕ) (up : Trail) (sh : Shape) → climbs (way less k up sh) ≤ climbs up + size sh
  climbs-way k up leaf = omega arith
  climbs-way k up (node l a d r) = elim (Bool-cases (less k d.key)) [
    | inl lower ↦ rw lower (omega (arith, climbs-way k (in_left up a d r) l))
    | inr higher ↦ rw higher (omega (arith, climbs-way k (in_right up l a d) r))
  ]

  calm_left : (x y z : Bool) → (x && (y || z)) ≡ false → (y && x) ≡ false
  calm_left true y z p = ground (arith, p)
  calm_left false true z p = refl
  calm_left false false z p = refl

  calm_right : (x y z : Bool) → (x && (y || z)) ≡ false → (z && x) ≡ false
  calm_right true y z p = ground (arith, p)
  calm_right false y true p = refl
  calm_right false y false p = refl

  -- At the end of the way a tree without black nodes fits.
  pub Fits-way :
      (k : ℕ) (up : Trail) (sh : Shape)
      → Level sh
      → Calm sh
      → (red_top sh && below_red up) ≡ false
      → Fits (blacks sh) up
      → Fits 0 (way less k up sh)
  Fits-way k up leaf level calm below fits = fits
  Fits-way k up (node l a d r) (e, vl, vr) (c, cl, cr) below fits =
      let left : (red_top l && red_label d) ≡ false =
        calm_left (red_label d) (red_top l) (red_top r) c in
      let right : (red_top r && red_label d) ≡ false =
        calm_right (red_label d) (red_top l) (red_top r) c in
      elim (Bool-cases (less k d.key)) [
        | inl lower ↦ rw lower (
            Fits-way k (in_left up a d r) l vl cl left
              (sym e, vr, cr, ground (arith, right), below, fits))
        | inr higher ↦ rw higher (
            Fits-way k (in_right up l a d) r vr cr right (
              e,
              vl,
              cl,
              ground (arith, left),
              below,
              refit up (weight d + blacks l) (weight d + blacks r) (ground (arith, e)) fits,
            ))
      ]

  -- In order, the new node stands where the sorted list has it.
  pub items-put :
      {In : ℕ → Type 0} (order : Order less In) (z : Ptr) (d : Label) (sh : Shape)
      → Sorted less In (items sh)
      → In d.key
      → items (put d.key (node leaf z d leaf) sh)
        ≡ insert_item less (z, d.key, d.payload) (items sh)
  items-put order z d leaf sorted inside = refl
  items-put {In} order z d (node l a e r) sorted inside =
      let y : Ptr × ℕ × ℕ = (a, e.key, e.payload) in
      let x : Ptr × ℕ × ℕ = (z, d.key, d.payload) in
      elim (Bool-cases (less d.key e.key)) [
        | inl lower ↦ rw lower (
            ap (λ i. i ++ y ∷ items r)
              (items-put order z d l (Sorted-left less In (items l) (y ∷ items r) sorted) inside)
            ∙ sym (insert_item-front less x y (items l) (items r) lower))
        | inr higher ↦ rw higher (
            ap (λ i. items l ++ y ∷ i)
              (items-put order z d r (Sorted-right less In (items l) (y ∷ items r) sorted).2 inside)
            ∙ sym (
                insert_item-back less x (items l) (y ∷ items r)
                  (Sorted-Past less In order d.key y (items l) (items r) sorted inside higher)
                ∙ rw higher refl))
      ]

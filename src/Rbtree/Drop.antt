-- ===== src/Rbtree/Drop.antt =====
-- A list of items without the one at an address.
use middleware_development_d.Prelude.{
  ℕ, ◌+◌, ◌≤◌, ◌≡◌, refl, sym, ap, ◌∙◌, inl, inr, Bool, Bool-cases, true, false, List, [], ◌∷◌,
  ◌++◌, append_assoc, arith, ◌==◌, if◌then◌else◌,
}
use middleware_development_d.Rbtree.Store.{Ptr}
use middleware_development_d.Rbtree.Shape.{Shape, node}
use middleware_development_d.Rbtree.Trail.{Trail, start, in_left, in_right}
use middleware_development_d.Rbtree.Balance.{whole, items}
use middleware_development_d.Rbtree.Order.{Ahead, Sorted}
use middleware_development_d.Rbtree.Whole.{count, count-append}

abbrev pub remove_item : Ptr → List (Ptr × ℕ × ℕ) → List (Ptr × ℕ × ℕ)
remove_item z [] = []
remove_item z (y ∷ ys) = if z == y.0 then ys else y ∷ remove_item z ys

remove_item-middle :
    (z k v : ℕ) (i j : List (Ptr × ℕ × ℕ))
    → count z i ≡ 0
    → remove_item z (i ++ (z, k, v) ∷ j) ≡ i ++ j
remove_item-middle z k v [] j out = let here : (z == z) ≡ true = ground arith in rw here refl
remove_item-middle z k v (y ∷ i) j out =
    let other : (z == y.0) ≡ false = ground (arith, out) in
    rw other (ap (λ l. y ∷ l) (remove_item-middle z k v i j (ground (arith, out))))

first_only : (m n k : ℕ) → k ≡ m + (1 + n) → k ≤ 1 → m ≡ 0
first_only m n k e few = omega (arith, e, few)

-- A tree at a place without one of its items leaves the whole without that item.
pub items-without :
    (z k v : ℕ) (up : Trail) (x y : Shape) (i j : List (Ptr × ℕ × ℕ))
    → items x ≡ i ++ (z, k, v) ∷ j
    → items y ≡ i ++ j
    → count z (items (whole up x)) ≤ 1
    → items (whole up y) ≡ remove_item z (items (whole up x))
items-without z k v (start o) x y i j full rest once =
    let here : (z == z) ≡ true = ground arith in
    let counted : count z (items x) ≡ count z i + (1 + count z j) =
      ap (count z) full ∙ count-append z i ((z, k, v) ∷ j) ∙ rw here refl in
    rest
    ∙ sym (
        ap (remove_item z) full
        ∙ remove_item-middle z k v i j (first_only _ (count z j) _ counted once))
items-without z k v (in_left up a d r) x y i j full rest once =
    items-without z k v up (node x a d r) (node y a d r) i (j ++ (a, d.key, d.payload) ∷ items r)
      (rw full (simp (append_assoc))) (rw rest (simp (append_assoc))) once
items-without z k v (in_right up l a d) x y i j full rest once =
    items-without z k v up (node l a d x) (node l a d y) (items l ++ (a, d.key, d.payload) ∷ i) j
      (rw full (simp (append_assoc))) (rw rest (simp (append_assoc))) once

pub count-remove_item :
    (z : Ptr) (l : List (Ptr × ℕ × ℕ)) → count z l ≤ 1 → count z (remove_item z l) ≡ 0
count-remove_item z [] once = refl
count-remove_item z (y ∷ l) once = elim (Bool-cases (z == y.0)) [
  | inl here ↦ rw here (omega (arith, rw here at once))
  | inr other ↦
      rw other (rw other (omega (arith, count-remove_item z l (omega (arith, rw other at once)))))
]

module _ (less : ℕ → ℕ → Bool) (In : ℕ → Type 0) where
  remove_item-Ahead :
      (k : ℕ) (z : Ptr) (l : List (Ptr × ℕ × ℕ)) → Ahead less k l → Ahead less k (remove_item z l)
  remove_item-Ahead k z [] all = tt
  remove_item-Ahead k z (y ∷ l) (ky, all) = elim (Bool-cases (z == y.0)) [
    | inl here ↦ rw here all
    | inr other ↦ rw other (ky, remove_item-Ahead k z l all)
  ]

  pub remove_item-Sorted :
      (z : Ptr) (l : List (Ptr × ℕ × ℕ)) → Sorted less In l → Sorted less In (remove_item z l)
  remove_item-Sorted z [] sorted = tt
  remove_item-Sorted z (y ∷ l) (iy, all, sorted) = elim (Bool-cases (z == y.0)) [
    | inl here ↦ rw here sorted
    | inr other ↦ rw other (iy, remove_item-Ahead y.1 z l all, remove_item-Sorted z l sorted)
  ]

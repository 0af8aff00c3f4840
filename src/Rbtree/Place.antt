-- ===== src/Rbtree/Place.antt =====
-- The way that `ngx_rbtree_insert_value` and `ngx_rbtree_insert_timer_value` go down, and the new node that
-- they hang at its end.
use middleware_development_d.Prelude.{
  ℕ, ◌+◌, ◌≤◌, ◌≡◌, ◌≢◌, ◌∙◌, true, false, some, arith, ◌==◌, if◌then◌else◌, Returns,
  Returns-weaken,
}
use middleware_development_d.Rbtree.Store.{
  Ptr, Node, Tree, ◌>>◌, set_left, set_right, set_parent, red,
}
use middleware_development_d.Rbtree.Shape.{Label, Shape, leaf, node}
use middleware_development_d.Rbtree.Insert.{attach}
use middleware_development_d.Rbtree.Trail.{
  Trail, in_left, in_right, times, times_on, linked, Holds-agree, OnTrail-agree,
}
use middleware_development_d.Rbtree.Steps.{follow, Leaves, just, modify-Leaves}
use middleware_development_d.Rbtree.Focus.{Focus}

-- The label of a node once it hangs in the tree.
abbrev pub fresh : Node → Label
fresh n = record { key = n.key; color = 1; payload = n.payload }

-- The fields of the new node.
module _ (s : Ptr) (t : Tree) (p z : Ptr) (n : Node) (at : t.cells z ≡ some n) where
  fill :
      Returns
        (λ (u, t').
          Leaves (just z) t t' × (t'.root ≡ t.root) × (t'.cells z ≡ some (linked p (fresh n) s s)))
        ((do set_parent z p; set_left z s; set_right z s; red z) t)
  unfolding set_parent set_left set_right red
  fill = follow _ (modify-Leaves t z n _ at) λ _ t₁ (l₁, r₁, c₁).
      follow _ (modify-Leaves t₁ z _ _ c₁) λ _ t₂ (l₂, r₂, c₂).
        follow _ (modify-Leaves t₂ z _ _ c₂) λ _ t₃ (l₃, r₃, c₃).
          Returns-weaken (modify-Leaves t₃ z _ _ c₃) λ (u, t₄) (l₄, r₄, c₄). (
            record {
              sentinel = l₄.sentinel ∙ l₃.sentinel ∙ l₂.sentinel ∙ l₁.sentinel;
              cells = λ y o. l₄.cells y o ∙ l₃.cells y o ∙ l₂.cells y o ∙ l₁.cells y o;
            },
            r₄ ∙ r₃ ∙ r₂ ∙ r₁,
            c₄,
          )

-- Counting addresses: those that stand in a part of the tree are neither the parent nor the new node.
from_parent : (i p q : ℕ) → 0 + (i + (p + q)) ≤ 1 → 1 ≤ p + q → i ≡ 0
from_parent i p q = omega arith

from_new : (f : Ptr → ℕ) (y z : Ptr) → f z ≡ 0 → 1 ≤ f y → just z y ≡ 0
from_new f y z out here = ground arith

with_new :
    (f : Ptr → ℕ) (y z : Ptr) → f z ≡ 0 → f y ≤ 1 → (if y == z then 1 else 0) + (0 + 0) + f y ≤ 1
with_new f y z out once = ground arith

-- The place where the loop hangs the new node.
module _ {s : Ptr} {bottom : Node} {t : Tree} {w : Trail} {a z : Ptr} {d : Label} {n : Node}
    (at : t.cells z ≡ some n) (real : z ≢ s) where
  pub attach-left :
      (r : Shape)
      → times_on z (in_left w a d r) ≡ 0
      → Focus s bottom t (in_left w a d r) leaf
      → Returns
          (λ (u, t'). Focus s bottom t' (in_left w a d r) (node leaf z (fresh n) leaf))
          (attach true a z s t)
  unfolding attach set_left
  attach-left r out focus =
      follow _ (modify-Leaves t a _ (λ m. record m { left = z }) focus.trail.1) λ _ t₁ (l₁, r₁, c₁).
        Returns-weaken (fill s t₁ a z n (l₁.cells z (ground (arith, out)) ∙ at))
          λ (u, t') (l₂, r₂, c₂).
            let same : (y : Ptr) → just a y ≡ 0 → just z y ≡ 0 → t'.cells y ≡ t.cells y =
              λ y oa oz. l₂.cells y oz ∙ l₁.cells y oa in
            let kept : (y : Ptr) → 1 ≤ times y r + times_on y w → t'.cells y ≡ t.cells y = λ y o.
              same y (from_parent _ (times y r) (times_on y w) (focus.once y) o)
                (from_new (λ q. times q r + times_on q w) y z (ground (arith, out)) o) in
            record {
              sentinel = l₂.sentinel ∙ l₁.sentinel ∙ focus.sentinel;
              trail = (
                focus.trail.0,
                l₂.cells a (ground (arith, out)) ∙ c₁,
                Holds-agree t.cells t'.cells s a r (λ y o. kept y (omega (arith, o))) focus.trail.2,
                OnTrail-agree t.cells t'.cells s a w (λ y o. kept y (omega (arith, o)))
                    focus.trail.3,
              );
              tree = (real, c₂, tt, tt);
              root = r₂ ∙ r₁ ∙ focus.root;
              once = λ y.
                  with_new (λ q. times_on q (in_left w a d r)) y z out
                    (omega (arith, focus.once y));
              at_end = same s (ground (arith, focus.trail.0)) (ground (arith, real)) ∙ focus.at_end;
              end_black = focus.end_black;
            }

  pub attach-right :
      (r : Shape)
      → times_on z (in_right w r a d) ≡ 0
      → Focus s bottom t (in_right w r a d) leaf
      → Returns
          (λ (u, t'). Focus s bottom t' (in_right w r a d) (node leaf z (fresh n) leaf))
          (attach false a z s t)
  unfolding attach set_right
  attach-right r out focus =
      follow _ (modify-Leaves t a _ (λ m. record m { right = z }) focus.trail.1)
        λ _ t₁ (l₁, r₁, c₁).
          Returns-weaken (fill s t₁ a z n (l₁.cells z (ground (arith, out)) ∙ at))
            λ (u, t') (l₂, r₂, c₂).
              let same : (y : Ptr) → just a y ≡ 0 → just z y ≡ 0 → t'.cells y ≡ t.cells y =
                λ y oa oz. l₂.cells y oz ∙ l₁.cells y oa in
              let kept : (y : Ptr) → 1 ≤ times y r + times_on y w → t'.cells y ≡ t.cells y = λ y o.
                same y (from_parent _ (times y r) (times_on y w) (focus.once y) o)
                  (from_new (λ q. times q r + times_on q w) y z (ground (arith, out)) o) in
              record {
                sentinel = l₂.sentinel ∙ l₁.sentinel ∙ focus.sentinel;
                trail = (
                  focus.trail.0,
                  l₂.cells a (ground (arith, out)) ∙ c₁,
                  Holds-agree t.cells t'.cells s a r (λ y o. kept y (omega (arith, o)))
                      focus.trail.2,
                  OnTrail-agree t.cells t'.cells s a w (λ y o. kept y (omega (arith, o)))
                      focus.trail.3,
                );
                tree = (real, c₂, tt, tt);
                root = r₂ ∙ r₁ ∙ focus.root;
                once = λ y.
                    with_new (λ q. times_on q (in_right w r a d)) y z out
                      (omega (arith, focus.once y));
                at_end =
                    same s (ground (arith, focus.trail.0)) (ground (arith, real)) ∙ focus.at_end;
                end_black = focus.end_black;
              }

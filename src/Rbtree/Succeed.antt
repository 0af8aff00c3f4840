-- ===== src/Rbtree/Succeed.antt =====
-- `subst` takes the place of `node` in `ngx_rbtree_delete`, and the cell of `node` is cleared.
use middleware_development_d.Prelude.{
  ℕ, ◌+◌, ◌≤◌, ◌≡◌, ◌≢◌, refl, ◌∙◌, some, arith, Returns, Returns-weaken,
}
use middleware_development_d.Rbtree.Store.{
  Ptr, Node, Tree, get_root, modify, set_left, set_right, set_parent, set_key, copy_color,
}
use middleware_development_d.Rbtree.Fields.{load_lem, left_lem, right_lem, parent_lem}
use middleware_development_d.Rbtree.Shape.{Label, Shape, leaf, node, top}
use middleware_development_d.Rbtree.Delete.{replace, clear_node}
use middleware_development_d.Rbtree.Rotate.{relink_left_first}
use middleware_development_d.Rbtree.Trail.{
  Trail, in_right, times, times_on, above, linked, Holds-agree, OnTrail-agree,
}
use middleware_development_d.Rbtree.Steps.{follow, follow_ok, just, modify-Leaves}
use middleware_development_d.Rbtree.Relink.{relink_left_first-Hung}
use middleware_development_d.Rbtree.Parts.{Parts, modify_b, move_m, Hangs-a, after_Hung}
use middleware_development_d.Rbtree.Focus.{Focus}
use middleware_development_d.Rbtree.Settle.{colored}
use middleware_development_d.Rbtree.Unhang.{Freed}

module _ {s : Ptr} {bottom : Node} {z b : Ptr} {up : Trail} where
  -- The node `z` is still in its place, and `b` is on its way there.
  starts :
      {l r : Shape} {t : Tree} {d : Label} {nb : Node} {q : Ptr}
      → Freed s bottom b nb q (top s r) (in_right up l z d) r t
      → Parts s bottom z b l r leaf up t (linked (above up) d (top s l) (top s r)) nb z q z z
  starts f =
      let (ne, at, hl, hu) = f.trail in
      record {
        a_real = ne;
        b_real = f.real;
        once = λ y. ground (arith, f.once y);
        sentinel = f.sentinel;
        at_a = at;
        at_b = f.at_b;
        holds_x = hl;
        holds_m = f.tree;
        holds_y = tt;
        trail = hu;
        root = f.root;
        at_end = f.at_end;
        end_black = f.end_black;
      }

  turn :
      {x m y : Shape} {t : Tree} {na nb : Node} {px pm py hole : Ptr}
      → Parts s bottom z b x m y up t na nb px pm py hole
      → Parts s bottom z b m x y up t na nb pm px py hole
  turn p = record {
    a_real = p.a_real;
    b_real = p.b_real;
    once = λ y. omega (arith, p.once y);
    sentinel = p.sentinel;
    at_a = p.at_a;
    at_b = p.at_b;
    holds_x = p.holds_m;
    holds_m = p.holds_x;
    holds_y = p.holds_y;
    trail = p.trail;
    root = p.root;
    at_end = p.at_end;
    end_black = p.end_black;
  }

  copies :
      {x m y : Shape} {t : Tree} {na nb : Node} {px pm py hole : Ptr}
      → Parts s bottom z b x m y up t na nb px pm py hole
      → Returns
          (λ (u, t').
            Parts s bottom z b x m y up t' na (record nb { color = na.color }) px pm py hole)
          (copy_color b z t)
  unfolding copy_color
  copies {t} {na} p =
      follow_ok _ (load_lem t z na p.at_a)
        (modify_b s bottom z b _ _ _ up p (λ m. record m { color = na.color }))

  pub replace-Focus :
      {l r : Shape} {t : Tree} {d e : Label} {o on_left on_right q : Ptr}
      → Freed s bottom b (linked o e on_left on_right) q (top s r) (in_right up l z d) r t
      → Returns
          (λ (u, t').
            Focus s bottom t' up (node l b (colored e d) r)
            × (t'.cells z ≡ some (linked (above up) d (top s l) (top s r))))
          (replace z b s t)
  unfolding replace set_left set_right set_parent relink_left_first get_root
  replace-Focus {l} {r} {t} f =
      let p = starts f in
      follow_ok _ (left_lem t z _ p.at_a) (
        follow _ (modify_b s bottom z b l r leaf up p _) λ _ t₁ p₁.
          follow_ok _ (right_lem t₁ z _ p₁.at_a) (
            follow _ (modify_b s bottom z b l r leaf up p₁ _) λ _ t₂ p₂.
              follow_ok _ (parent_lem t₂ z _ p₂.at_a) (
                follow _ (modify_b s bottom z b l r leaf up p₂ _) λ _ t₃ p₃.
                  follow _ (copies p₃) λ _ t₄ p₄.
                    follow _
                      (relink_left_first-Hung s z b t₄ up
                        (Hangs-a s bottom z b l r leaf up p₄ refl refl))
                      λ _ t₅ h₅.
                        let p₅ = after_Hung s bottom z b l r leaf up p₄ b t₅ h₅ in
                        follow_ok _ (left_lem t₅ b _ p₅.at_b) (
                          follow _ (move_m s bottom z b r l leaf up (turn p₅) b) λ _ t₆ p₆.
                            follow_ok _ (right_lem t₆ b _ p₆.at_b) (
                              Returns-weaken (move_m s bottom z b l r leaf up (turn p₆) b)
                                λ (u, t₇) p₇. (
                                  record {
                                    sentinel = p₇.sentinel;
                                    trail = p₇.trail;
                                    tree = (p₇.b_real, p₇.at_b, p₇.holds_x, p₇.holds_m);
                                    root = p₇.root;
                                    once = λ y. ground (arith, p₇.once y);
                                    at_end = p₇.at_end;
                                    end_black = p₇.end_black;
                                  },
                                  p₇.at_a,
                                ))))))

-- A cell outside of the tree may be cleared.
module _ {s : Ptr} {bottom : Node} {up : Trail} {sh : Shape} (z : Ptr) (real : z ≢ s)
    (out : times z sh + times_on z up ≡ 0) where
  outside :
      {t : Tree} {n : Node} (g : Node → Node)
      → t.cells z ≡ some n
      → Focus s bottom t up sh
      → Returns (λ (u, t'). Focus s bottom t' up sh × (t'.cells z ≡ some (g n))) (modify z g t)
  outside {t} {n} g at f = Returns-weaken (modify-Leaves t z n g at) λ (u, t') (leaves, root, now).
      (
        record {
          sentinel = leaves.sentinel ∙ f.sentinel;
          trail =
              OnTrail-agree t.cells t'.cells s (top s sh) up
                (λ y o. leaves.cells y (other (λ x. times_on x up) y (omega (arith, out)) o))
                f.trail;
          tree =
              Holds-agree t.cells t'.cells s (above up) sh
                (λ y o. leaves.cells y (other (λ x. times x sh) y (omega (arith, out)) o)) f.tree;
          root = root ∙ f.root;
          once = f.once;
          at_end = leaves.cells s (ground (arith, real)) ∙ f.at_end;
          end_black = f.end_black;
        },
        now,
      )
    where
      other : (h : Ptr → ℕ) (y : Ptr) → h z ≡ 0 → 1 ≤ h y → just z y ≡ 0
      other h y none here = ground (arith, none, here)

  pub clear_node-Focus :
      {t : Tree} {n : Node}
      → t.cells z ≡ some n
      → Focus s bottom t up sh
      → Returns (λ (u, t'). Focus s bottom t' up sh) (clear_node z t)
  unfolding clear_node set_left set_right set_parent set_key
  clear_node-Focus at f = follow _ (outside _ at f) λ _ t₁ (f₁, at₁).
      follow _ (outside _ at₁ f₁) λ _ t₂ (f₂, at₂).
        follow _ (outside _ at₂ f₂)
          λ _ t₃ (f₃, at₃). Returns-weaken (outside _ at₃ f₃) λ (u, t₄) (f₄, at₄). f₄

-- ===== src/Rbtree/Removal.antt =====
-- `ngx_rbtree_delete` of a node with one child at most, and what comes after a node left its place.
use middleware_development_d.Prelude.{
  ℕ, not, ◌+◌, ◌<◌, ◌≡◌, ◌≢◌, refl, sym, ap, ◌∙◌, inl, inr, Bool, Bool-cases, true, false, List,
  some, arith, ◌==◌, if◌then◌else◌, Run, Returns, returns, Returns-weaken,
}
use middleware_development_d.Rbtree.Store.{
  Ptr, Node, Tree, M, pure, ◌>>=◌, ◌>>◌, left, parent, is_red, set_root, set_left, set_right,
  set_parent, black,
}
use middleware_development_d.Rbtree.Fields.{parent_lem, is_red_lem}
use middleware_development_d.Rbtree.Shape.{Label, Shape, leaf, node, top}
use middleware_development_d.Rbtree.Delete.{settle, clear_node}
use middleware_development_d.Rbtree.Trail.{Trail, start, in_left, in_right, times, above}
use middleware_development_d.Rbtree.Steps.{follow, follow_ok, modify-Leaves}
use middleware_development_d.Rbtree.Focus.{Focus, red_label, red_top}
use middleware_development_d.Rbtree.Balance.{weight, blacks, whole, items}
use middleware_development_d.Rbtree.Rebalance.{climbs, refit}
use middleware_development_d.Rbtree.Settle.{Knows}
use middleware_development_d.Rbtree.Whole.{IsRbTree, count, times-count}
use middleware_development_d.Rbtree.Relink.{below, reads_side}
use middleware_development_d.Rbtree.Short.{Known, Calm-CalmBelow, Short, Fitting-IsRbTree}
use middleware_development_d.Rbtree.Settles.{blackens_root, settle-IsRbTree}
use middleware_development_d.Rbtree.Unhang.{Freed, gone, Freed-Hangs, Freed-Focus, unhang, rehang}
use middleware_development_d.Rbtree.Succeed.{clear_node-Focus}
use middleware_development_d.Rbtree.Heir.{Heir}

pub Knows-Known :
    (bottom : Node) (up : Trail) (y : Shape) → Knows bottom (above up) y → Known bottom up y
Knows-Known bottom (start o) y knows = tt
Knows-Known bottom (in_left up a d r) y knows = knows
Knows-Known bottom (in_right up l a d) y knows = knows

light : (d : Label) (n : ℕ) → red_label d ≡ true → weight d + n ≡ n
light d n hot = ground (arith, hot)

heavy : (d : Label) (n : ℕ) → red_label d ≡ false → weight d + n ≡ 1 + n
heavy d n calm = ground (arith, calm)

less_rounds : {m f : ℕ} (b : Bool) → m < f → (if b then 0 else m) < f
less_rounds b h = ground (arith, h)

module _ {s : Ptr} {bottom : Node} {t : Tree} where
  -- A red node left a red-black tree; after a black one the loop makes it one again.
  pub closes :
      (fuel : ℕ) (up : Trail) (e : Label) (y : Shape)
      → Focus s bottom t up y
      → Known bottom up y
      → Heir up e y
      → climbs up < fuel
      → Returns
          (λ (u, t'). IsRbTree s t' (items (whole up y)))
          ((if red_label e then pure tt else settle fuel (top s y)) t)
  closes fuel up e y focus known heir enough = elim (Bool-cases (red_label e)) [
    | inl hot ↦ rw hot (
        returns (
          Fitting-IsRbTree up y _ focus
            (record {
              level = heir.level;
              calm = heir.calm;
              fits = refit up (weight e + blacks y) (blacks y) (light e (blacks y) hot) heir.fits;
              calm_top = rw (rw hot at heir.calm_top) refl;
            })
            refl))
    | inr calm ↦ rw calm (
        settle-IsRbTree s fuel bottom t up y focus
          (record {
            known = known;
            level = heir.level;
            calm = Calm-CalmBelow y heir.calm;
            fits =
                refit up (weight e + blacks y) (1 + blacks y) (heavy e (blacks y) calm) heir.fits;
          })
          (less_rounds (red_top y) enough))
  ]

Returns-both :
    {A : Type 0} {P Q : A → Type 0} {r : Run A}
    → Returns P r
    → Returns Q r
    → Returns (λ a. P a × Q a) r
Returns-both (returns p) (returns q) = returns (p, q)

module _ {s : Ptr} {t : Tree} where
  -- A cell outside of the tree stays when the tree's top is made black.
  blackens_other :
      {bottom n : Node} {up : Trail} (z : Ptr) (y : Shape)
      → z ≢ s
      → times z y ≡ 0
      → t.cells z ≡ some n
      → Focus s bottom t up y
      → Returns (λ (u, t'). t'.cells z ≡ some n) (black (top s y) t)
  unfolding black
  blackens_other {bottom} z leaf real out at f =
      Returns-weaken (modify-Leaves t s bottom (λ m. record m { color = 0 }) f.at_end)
        λ (u, t') (leaves, root, now). leaves.cells z (ground (arith, real)) ∙ at
  blackens_other z (node l a d r) real out at f =
      Returns-weaken (modify-Leaves t a _ (λ m. record m { color = 0 }) f.tree.1)
        λ (u, t') (leaves, root, now). leaves.cells z (ground (arith, out)) ∙ at

  clear_node-IsRbTree :
      (listed : List (Ptr × ℕ × ℕ)) (z : Ptr) (n : Node)
      → IsRbTree s t listed
      → z ≢ s
      → count z listed ≡ 0
      → t.cells z ≡ some n
      → Returns (λ (u, t'). IsRbTree s t' listed) (clear_node z t)
  clear_node-IsRbTree listed z n is real out at =
      let absent : times z is.shape ≡ 0 =
        times-count z is.shape ∙ ap (count z) is.same_items ∙ out in
      Returns-weaken (clear_node-Focus z real (omega (arith, absent)) at is.focus) λ (u, t') f.
        record {
          over = is.over;
          bottom = is.bottom;
          shape = is.shape;
          focus = f;
          level = is.level;
          calm = is.calm;
          black_root = is.black_root;
          same_items = is.same_items;
        }

module _ {s : Ptr} {bottom : Node} {t : Tree} where
  -- A node that is not the root, and names its parent.
  pub removes_below :
      (fuel : ℕ) (up : Trail) (z : Ptr) (d : Label) (y : Shape) (n : Node) (other : M (Unit {0}))
      → below up ≡ true
      → n.parent ≡ above up
      → n.color ≡ d.color
      → Freed s bottom z n z z up y t
      → Heir up d y
      → climbs up < fuel
      → Returns
          (λ (u, t'). IsRbTree s t' (items (whole up y)))
          ((do
            was_red ← is_red z
            over ← parent z
            side ← left over
            (if z == side then set_left over (top s y) else set_right over (top s y))
            (if z == z then (do up ← parent z; set_parent (top s y) up) else other)
            clear_node z
            if was_red then pure tt else settle fuel (top s y))
            t)
  removes_below fuel up z d y n other under knows color f heir enough =
      let same : (z == z) ≡ true = ground arith in
      let hot : not (n.color == 0) ≡ red_label d = ap (λ c. not (c == 0)) color in
      follow_ok _ (is_red_lem t z n f.at_b) (
        follow_ok _ (parent_lem t z n f.at_b) (
          rw (knows, hot)
            (follow_ok _ (reads_side s z z t up under (Freed-Hangs knows refl f)) (
              follow _ (unhang under knows refl f) λ _ t₁ f₁. rw same (
                follow _ (follow_ok _ (parent_lem t₁ z n f₁.at_b) (rehang y n.parent f₁))
                  λ _ t₂ (bottom', f₂, known).
                    follow _
                      (clear_node-Focus z f.real (gone f₂) f₂.at_b (Freed-Focus knows refl f₂))
                      λ _ t₃ f₃.
                        closes fuel up d y f₃ (Knows-Known bottom' up y (rw knows at known)) heir
                          enough)))))

module _ {s : Ptr} {bottom : Node} {t : Tree} where
  -- The root, with one child at most: its child is the root then, and black.
  pub removes_root :
      {o : Ptr} (z : Ptr) (d : Label) (y : Shape) (n : Node)
      → Freed s bottom z n z z (start o) y t
      → Heir (start o) d y
      → Returns
          (λ (u, t'). IsRbTree s t' (items y))
          ((do set_root (top s y); black (top s y); clear_node z) t)
  unfolding set_root
  removes_root z d y n f heir =
      let focus : Focus s bottom (record t { root = top s y }) (start z) y = record {
        sentinel = f.sentinel;
        trail = tt;
        tree = f.tree;
        root = refl;
        once = λ q. ground (arith, f.once q);
        at_end = f.at_end;
        end_black = f.end_black;
      } in
      let short : Short bottom (start z) y = record {
        known = tt;
        level = heir.level;
        calm = Calm-CalmBelow y heir.calm;
        fits = tt;
      } in
      follow _
        (Returns-both (blackens_root z y focus short)
          (blackens_other z y f.real (omega (arith, gone f)) f.at_b focus))
        λ _ t₂ (is, at).
          clear_node-IsRbTree (items y) z n is f.real
            (sym (times-count z y) ∙ omega (arith, gone f)) at

-- ===== src/Rbtree/Settles.antt =====
-- The loop of `ngx_rbtree_delete`: from a short place it leaves a red-black tree.
use middleware_development_d.Prelude.{
  ℕ, zero, suc, not, ◌+◌, ◌<◌, ◌≡◌, ◌≢◌, refl, sym, ◌∙◌, inl, inr, Bool, Bool-cases, true, false,
  List, arith, ◌==◌, if◌then◌else◌, Returns, Returns-weaken,
}
use middleware_development_d.Rbtree.Store.{Ptr, Node, Tree, black}
use middleware_development_d.Rbtree.Shape.{Label, Shape, leaf, node, top}
use middleware_development_d.Rbtree.Delete.{settle}
use middleware_development_d.Rbtree.Trail.{Trail, start, in_left, in_right, times_on, root_at}
use middleware_development_d.Rbtree.Steps.{follow, follow_ok, modify-Leaves}
use middleware_development_d.Rbtree.Focus.{
  Focus, from_left, from_right, not_on, black-Focus, reads_left, red_label, red_top,
}
use middleware_development_d.Rbtree.Balance.{weight, blacks, whole, items, items-whole}
use middleware_development_d.Rbtree.Fix.{blackened}
use middleware_development_d.Rbtree.Rebalance.{climbs, refit, not_root}
use middleware_development_d.Rbtree.Rounds.{reads_root, once_left, once_right}
use middleware_development_d.Rbtree.Settle.{reads_top_parent, reads_black, and_false}
use middleware_development_d.Rbtree.Whole.{IsRbTree}
use middleware_development_d.Rbtree.Short.{Short, Fitting-IsRbTree, Goes, rounds}
use middleware_development_d.Rbtree.ShortLeft.{settle_left-Goes}
use middleware_development_d.Rbtree.ShortRight.{settle_right-Goes}

sentinel_out : (s p n : ℕ) → p ≢ s → n ≡ 0 → (if s == p then 1 else 0) + n ≡ 0
sentinel_out s p n real out = ground (arith, real, out)

red_weight : (d : Label) (n : ℕ) → red_label d ≡ true → 1 + (weight d + n) ≡ 1 + n
red_weight d n hot = ground (arith, hot)

module _ {s : Ptr} {bottom : Node} {t : Tree} where
  -- The sentinel and the nodes below a node are not the root.
  not_root_left :
      (up : Trail) (p : Ptr) (d : Label) (x sh : Shape)
      → Focus s bottom t (in_left up p d x) sh
      → (top s sh == root_at p up) ≡ false
  not_root_left up p d x leaf focus =
      let away : times_on s up ≡ 0 = not_on t s p up focus.trail.3 in
      let real : p ≢ s = focus.trail.0 in
      not_root p up s (sentinel_out s p (times_on s up) real away)
  not_root_left up p d x (node l a e r) focus = not_root p up a (once_left focus)

  not_root_right :
      (up : Trail) (p : Ptr) (d : Label) (x sh : Shape)
      → Focus s bottom t (in_right up x p d) sh
      → (top s sh == root_at p up) ≡ false
  not_root_right up p d x leaf focus =
      let away : times_on s up ≡ 0 = not_on t s p up focus.trail.3 in
      let real : p ≢ s = focus.trail.0 in
      not_root p up s (sentinel_out s p (times_on s up) real away)
  not_root_right up p d x (node l a e r) focus = not_root p up a (once_right focus)

  -- The top of a right child is not the left child; a sibling of a short tree has a node.
  not_left :
      (up : Trail) (p : Ptr) (d : Label) (x sh : Shape)
      → Focus s bottom t (in_right up x p d) sh
      → Short bottom (in_right up x p d) sh
      → (top s sh == top s x) ≡ false
  not_left up p d leaf sh focus short = ground (arith, short.fits.0)
  not_left up p d (node l a e r) leaf focus short = ground (arith, focus.trail.2.0)
  not_left up p d (node l a e r) (node y b g z) focus short = ground (arith, focus.once b)

  -- A red top is made black.
  blackens_red :
      (up : Trail) (l : Shape) (a : Ptr) (d : Label) (r : Shape)
      → red_label d ≡ true
      → Focus s bottom t up (node l a d r)
      → Short bottom up (node l a d r)
      → Returns (λ (u, t'). IsRbTree s t' (items (whole up (node l a d r)))) (black a t)
  blackens_red up l a d r hot focus short = Returns-weaken (black-Focus focus) λ (u, t') f₁.
      Fitting-IsRbTree up (node l a (blackened d) r) _ f₁
        (record {
          level = short.level;
          calm = (refl, short.calm.0, short.calm.1);
          fits =
              refit up (1 + (weight d + blacks l)) (1 + blacks l) (red_weight d (blacks l) hot)
                short.fits;
          calm_top = refl;
        })
        (items-whole up _ _ refl)

  -- So is the root.
  pub blackens_root :
      (o : Ptr) (sh : Shape)
      → Focus s bottom t (start o) sh
      → Short bottom (start o) sh
      → Returns (λ (u, t'). IsRbTree s t' (items sh)) (black (top s sh) t)
  unfolding black
  blackens_root o (node l a d r) focus short =
      Returns-weaken (unfold black in black-Focus focus) λ (u, t') f₁.
        Fitting-IsRbTree (start o) (node l a (blackened d) r) _ f₁
          (record {
            level = short.level;
            calm = (refl, short.calm.0, short.calm.1);
            fits = tt;
            calm_top = refl;
          })
          refl
  blackens_root o leaf focus short =
      Returns-weaken (modify-Leaves t s bottom _ focus.at_end) λ (u, t') (leaves, root, now).
        Fitting-IsRbTree (start o) leaf _
          (record {
            sentinel = leaves.sentinel ∙ focus.sentinel;
            trail = tt;
            tree = tt;
            root = root ∙ focus.root;
            once = focus.once;
            at_end = now;
            end_black = refl;
          })
          (record { level = tt; calm = tt; fits = tt; calm_top = refl }) refl

-- What the loop does from a short place, with this fuel.
abbrev pub Settles : Ptr → ℕ → Type 0
Settles s f =
    (bottom : Node) (t : Tree) (up : Trail) (sh : Shape)
    → Focus s bottom t up sh
    → Short bottom up sh
    → rounds up sh < f
    → Returns (λ (u, t'). IsRbTree s t' (items (whole up sh))) (settle f (top s sh) t)

if_less : {m f : ℕ} (b : Bool) → suc m < suc f → (if b then 0 else m) < f
if_less b h = ground (arith, h)

-- A round, and then the rest.
module _ {s : Ptr} {f : ℕ} (next : Settles s f) where
  next_round :
      {bottom : Node} (wanted : List (Ptr × ℕ × ℕ)) (n : Ptr) (t : Tree)
      → Goes s bottom f wanted n t
      → Returns (λ (u, t'). IsRbTree s t' wanted) (settle f n t)
  next_round {bottom} wanted n t goes =
      rw (goes.here, sym goes.same_items)
        (next bottom t goes.up goes.shape goes.focus goes.short goes.enough)

  -- At a black place, which is the root or has a parent.
  settle_calm :
      (bottom : Node) (t : Tree) (up : Trail) (sh : Shape)
      → red_top sh ≡ false
      → Focus s bottom t up sh
      → Short bottom up sh
      → climbs up < suc f
      → Returns (λ (u, t'). IsRbTree s t' (items (whole up sh))) (settle (suc f) (top s sh) t)
  unfolding settle
  settle_calm bottom t (start o) sh calm focus short enough =
      let here : (top s sh == top s sh) ≡ true = ground arith in
      follow_ok _ (reads_root focus)
        (follow_ok _ (reads_black sh focus) (rw (calm, here) (blackens_root o sh focus short)))
  settle_calm bottom t (in_left up p d x) sh calm focus short enough =
      let here : (top s sh == top s sh) ≡ true = ground arith in
      follow_ok _ (reads_root focus) (
        follow_ok _ (reads_black sh focus) (
          rw (calm, not_root_left up p d x sh focus)
            (follow_ok _ (reads_top_parent sh focus short.known) (
              follow_ok _ (reads_left (from_left focus)) (
                rw here (
                  follow _
                    (settle_left-Goes calm (omega (arith, enough)) x (if_less (red_label d) enough)
                      (from_left focus) short)
                    λ n t₁ goes. next_round _ n t₁ goes))))))
  settle_calm bottom t (in_right up x p d) sh calm focus short enough =
      follow_ok _ (reads_root focus) (
        follow_ok _ (reads_black sh focus) (
          rw (calm, not_root_right up p d x sh focus)
            (follow_ok _ (reads_top_parent sh focus short.known) (
              follow_ok _ (reads_left (from_right focus)) (
                rw (not_left up p d x sh focus short) (
                  follow _
                    (settle_right-Goes calm (omega (arith, enough)) x (if_less (red_label d) enough)
                      (from_right focus) short)
                    λ n t₁ goes. next_round _ n t₁ goes))))))

-- From a short place, with rounds for the way up from it, the loop returns and leaves a red-black tree
-- with the same items.
pub settle-IsRbTree : (s : Ptr) (f : ℕ) → Settles s f
unfolding settle
settle-IsRbTree s zero bottom t up sh focus short enough = ground (arith, enough)
settle-IsRbTree s (suc f) bottom t up (node l a d r) focus short enough =
    elim (Bool-cases (red_label d)) [
      | inl hot ↦ follow_ok _ (reads_root focus) (
          follow_ok _ (reads_black (node l a d r) focus) (
            rw (hot, and_false (not (a == root_at a up)))
              (blackens_red up l a d r hot focus short)))
      | inr calm ↦
          unfold settle in
          settle_calm (settle-IsRbTree s f) bottom t up (node l a d r) calm focus short
            (rw calm at enough)
    ]
settle-IsRbTree s (suc f) bottom t up leaf focus short enough =
    unfold settle in settle_calm (settle-IsRbTree s f) bottom t up leaf refl focus short enough

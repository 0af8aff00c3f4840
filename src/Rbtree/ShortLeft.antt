-- ===== src/Rbtree/ShortLeft.antt =====
-- A round of the loop of `ngx_rbtree_delete` where the short tree is a left child.
use middleware_development_d.Prelude.{
  ℕ, ◌+◌, ◌<◌, ◌≡◌, refl, sym, inl, inr, Bool-cases, true, false, append_assoc, arith,
  if◌then◌else◌, Returns, Returns-weaken,
}
use middleware_development_d.Rbtree.Store.{Ptr, Node, Tree}
use middleware_development_d.Rbtree.Shape.{Label, Shape, leaf, node, top}
use middleware_development_d.Rbtree.Delete.{absorb_left, settle_left}
use middleware_development_d.Rbtree.Trail.{Trail, in_left}
use middleware_development_d.Rbtree.Steps.{follow, follow_ok}
use middleware_development_d.Rbtree.Focus.{
  Focus, to_left, to_right, reads_right, reads_red, red_label, red_top,
}
use middleware_development_d.Rbtree.Fix.{blackened, reddened}
use middleware_development_d.Rbtree.Balance.{weight, blacks, whole, items, items-whole}
use middleware_development_d.Rbtree.Rebalance.{climbs, refit}
use middleware_development_d.Rbtree.Settle.{colored, and_false}
use middleware_development_d.Rbtree.AbsorbLeft.{
  absorb_left-black, absorb_left-outer, absorb_left-inner, raise_left,
}
use middleware_development_d.Rbtree.Short.{Short, Known-node, CalmBelow-Calm, Goes, finished}

module _ {s : Ptr} {bottom : Node} {f : ℕ} {t : Tree} {w : Trail} {p c : Ptr} {d e : Label}
    {sh : Shape} (calm : red_top sh ≡ false) (calm_e : red_label e ≡ false)
    (enough : (if red_label d then 0 else climbs w) < f) where
  -- The place of the parent is short now.
  black_left :
      (l r : Shape)
      → red_top l ≡ false
      → red_top r ≡ false
      → Focus s bottom t w (node sh p d (node l c e r))
      → Short bottom (in_left w p d (node l c e r)) sh
      → Returns
          (λ (n, t'). Goes s bottom f (items (whole w (node sh p d (node l c e r)))) n t')
          (absorb_left (top s sh) c t)
  black_left l r calm_l calm_r focus short =
      let (ec, (el, vl, vr), (bl, cl, cr), bd, bw, fits) = short.fits in
      Returns-weaken (absorb_left-black short.known calm_l calm_r focus) λ (n, t') (here, f₁).
        record {
          up = w;
          shape = node sh p d (node l c (reddened e) r);
          here = here;
          focus = f₁;
          short = record {
            known = Known-node bottom sh p d (node l c (reddened e) r) w;
            level = (ground (arith, ec, calm_e), short.level, (el, vl, vr));
            calm = (CalmBelow-Calm sh calm short.calm, (rw (calm_l, calm_r) refl, cl, cr));
            fits =
                refit w (weight d + (1 + blacks sh)) (1 + (weight d + blacks sh)) (omega arith)
                  fits;
          };
          enough = enough;
          same_items = items-whole w _ _ refl;
        }

  outer_left :
      {q : Ptr} {g : Label} (l rl rr : Shape)
      → red_label g ≡ true
      → Focus s bottom t w (node sh p d (node l c e (node rl q g rr)))
      → Short bottom (in_left w p d (node l c e (node rl q g rr))) sh
      → Returns
          (λ (n, t').
            Goes s bottom f (items (whole w (node sh p d (node l c e (node rl q g rr))))) n t')
          (absorb_left (top s sh) c t)
  outer_left {q} {g} l rl rr hot focus short =
      let (ec, (el, vl, (er, vrl, vrr)), (bl, cl, (br, crl, crr)), bd, bw, fits) = short.fits in
      Returns-weaken (absorb_left-outer short.known hot focus) λ (n, t') (here, f₁).
        finished n w (node (node sh p (blackened d) l) c (colored e d) (node rl q (blackened g) rr))
          _ here f₁
          (record {
            level = (
              ground (arith, ec, el, calm_e, hot),
              (ground (arith, ec, calm_e), short.level, vl),
              (er, vrl, vrr),
            );
            calm = (
              and_false (red_label d),
              (refl, CalmBelow-Calm sh calm short.calm, cl),
              (refl, crl, crr),
            );
            fits = fits;
            calm_top = bw;
          })
          (items-whole w _ _ (simp (append_assoc))) (ground (arith, enough))

  inner_left :
      {i : Ptr} {g : Label} (il ir r : Shape)
      → red_label g ≡ true
      → red_top r ≡ false
      → Focus s bottom t w (node sh p d (node (node il i g ir) c e r))
      → Short bottom (in_left w p d (node (node il i g ir) c e r)) sh
      → Returns
          (λ (n, t').
            Goes s bottom f (items (whole w (node sh p d (node (node il i g ir) c e r)))) n t')
          (absorb_left (top s sh) c t)
  inner_left {i} {g} il ir r hot calm_r focus short =
      let (ec, (el, (ei, vil, vir), vr), (bl, (bi, cil, cir), cr), bd, bw, fits) = short.fits in
      Returns-weaken (absorb_left-inner short.known hot calm_r focus) λ (n, t') (here, f₁).
        finished n w
          (node (node sh p (blackened d) il) i (colored (blackened g) d)
            (node ir c (blackened (reddened e)) r))
          _ here f₁
          (record {
            level = (
              ground (arith, ec, ei, calm_e, hot),
              (ground (arith, ec, calm_e, hot), short.level, vil),
              (ground (arith, ei, el, hot), vir, vr),
            );
            calm = (
              and_false (red_label d),
              (refl, CalmBelow-Calm sh calm short.calm, cil),
              (refl, cir, cr),
            );
            fits = fits;
            calm_top = bw;
          })
          (items-whole w _ _ (simp (append_assoc))) (ground (arith, enough))

  -- Whatever the colours below a black sibling.
  absorbs_left :
      (l r : Shape)
      → Focus s bottom t w (node sh p d (node l c e r))
      → Short bottom (in_left w p d (node l c e r)) sh
      → Returns
          (λ (n, t'). Goes s bottom f (items (whole w (node sh p d (node l c e r)))) n t')
          (absorb_left (top s sh) c t)
  absorbs_left leaf leaf focus short = black_left leaf leaf refl refl focus short
  absorbs_left (node il i g ir) leaf focus short = elim (Bool-cases (red_label g)) [
    | inl hot ↦ inner_left il ir leaf hot refl focus short
    | inr calm_l ↦ black_left (node il i g ir) leaf calm_l refl focus short
  ]
  absorbs_left leaf (node rl q h rr) focus short = elim (Bool-cases (red_label h)) [
    | inl hot ↦ outer_left leaf rl rr hot focus short
    | inr calm_r ↦ black_left leaf (node rl q h rr) refl calm_r focus short
  ]
  absorbs_left (node il i g ir) (node rl q h rr) focus short = elim (Bool-cases (red_label h)) [
    | inl hot ↦ outer_left (node il i g ir) rl rr hot focus short
    | inr calm_r ↦ elim (Bool-cases (red_label g)) [
      | inl hot ↦ inner_left il ir (node rl q h rr) hot calm_r focus short
      | inr calm_l ↦ black_left (node il i g ir) (node rl q h rr) calm_l calm_r focus short
    ]
  ]

module _ {s : Ptr} {bottom : Node} {f : ℕ} {t : Tree} {w : Trail} {p c : Ptr} {d e : Label}
    {sh : Shape} (calm : red_top sh ≡ false) (some_left : 0 < f) where
  -- Below a red sibling, once that has come up.
  raised_left :
      (l r : Shape)
      → red_label e ≡ true
      → Focus s bottom t w (node sh p d (node l c e r))
      → Short bottom (in_left w p d (node l c e r)) sh
      → Returns
          (λ (n, t'). Goes s bottom f (items (whole w (node sh p d (node l c e r)))) n t')
          (settle_left (top s sh) p t)
  unfolding settle_left
  raised_left leaf r hot focus short = ground (arith, hot, short.fits.0)
  raised_left (node ll lc le lr) r hot focus short =
      let (ec, (el, vl, vr), (bl, cl, cr), bd, bw, fits) = short.fits in
      let calm_l : red_label le ≡ false = ground (arith, bl, hot) in
      let same : items
            (whole w (node (node sh p (reddened d) (node ll lc le lr)) c (blackened e) r))
          ≡ items (whole w (node sh p d (node (node ll lc le lr) c e r))) =
        items-whole w _ _ (simp (append_assoc)) in
      follow_ok _ (reads_right focus) (
        follow_ok _ (reads_red (node (node ll lc le lr) c e r) (to_right focus)) (
          rw hot (
            follow _ (raise_left short.known focus) λ n t₁ (here, f₁).
              rw (here, sym same)
                (absorbs_left calm calm_l some_left ll lr (to_left f₁) (record {
                  known = short.known;
                  level = short.level;
                  calm = short.calm;
                  fits = (
                    ground (arith, ec, hot),
                    vl,
                    cl,
                    calm_l,
                    refl,
                    (
                      ground (arith, ec, el, hot),
                      vr,
                      cr,
                      refl,
                      refl,
                      refit w (weight d + (1 + blacks sh)) (1 + (0 + (1 + blacks sh)))
                          (ground (arith, bd, hot)) fits,
                    ),
                  );
                })))))

module _ {s : Ptr} {bottom : Node} {f : ℕ} {t : Tree} {w : Trail} {p : Ptr} {d : Label} {sh : Shape}
    (calm : red_top sh ≡ false) (some_left : 0 < f) where
  pub settle_left-Goes :
      (x : Shape)
      → (if red_label d then 0 else climbs w) < f
      → Focus s bottom t w (node sh p d x)
      → Short bottom (in_left w p d x) sh
      → Returns
          (λ (n, t'). Goes s bottom f (items (whole w (node sh p d x))) n t')
          (settle_left (top s sh) p t)
  unfolding settle_left
  settle_left-Goes leaf enough focus short = ground (arith, short.fits.0)
  settle_left-Goes (node l q g r) enough focus short = elim (Bool-cases (red_label g)) [
    | inl hot ↦ raised_left calm some_left l r hot focus short
    | inr calm_e ↦ follow_ok _ (reads_right focus) (
        follow_ok _ (reads_red (node l q g r) (to_right focus))
          (rw calm_e (absorbs_left calm calm_e enough l r focus short)))
  ]

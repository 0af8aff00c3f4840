-- ===== src/Rbtree/ShortRight.antt =====
-- A round of the loop of `ngx_rbtree_delete` where the short tree is a right child.
use middleware_development_d.Prelude.{
  ℕ, ◌+◌, ◌<◌, ◌≡◌, refl, sym, inl, inr, Bool-cases, true, false, append_assoc, arith,
  if◌then◌else◌, Returns, Returns-weaken,
}
use middleware_development_d.Rbtree.Store.{Ptr, Node, Tree}
use middleware_development_d.Rbtree.Shape.{Label, Shape, leaf, node, top}
use middleware_development_d.Rbtree.Delete.{absorb_right, settle_right}
use middleware_development_d.Rbtree.Trail.{Trail, in_right}
use middleware_development_d.Rbtree.Steps.{follow, follow_ok}
use middleware_development_d.Rbtree.Focus.{
  Focus, to_left, to_right, reads_left, reads_red, red_label, red_top,
}
use middleware_development_d.Rbtree.Fix.{blackened, reddened}
use middleware_development_d.Rbtree.Balance.{weight, blacks, whole, items, items-whole}
use middleware_development_d.Rbtree.Rebalance.{climbs, refit}
use middleware_development_d.Rbtree.Settle.{colored, and_false}
use middleware_development_d.Rbtree.AbsorbRight.{
  absorb_right-black, absorb_right-outer, absorb_right-inner, raise_right,
}
use middleware_development_d.Rbtree.Short.{Short, Known-node, CalmBelow-Calm, Goes, finished}

module _ {s : Ptr} {bottom : Node} {f : ℕ} {t : Tree} {w : Trail} {p c : Ptr} {d e : Label}
    {sh : Shape} (calm : red_top sh ≡ false) (calm_e : red_label e ≡ false)
    (enough : (if red_label d then 0 else climbs w) < f) where
  -- The place of the parent is short now.
  black_right :
      (l r : Shape)
      → red_top l ≡ false
      → red_top r ≡ false
      → Focus s bottom t w (node (node l c e r) p d sh)
      → Short bottom (in_right w (node l c e r) p d) sh
      → Returns
          (λ (n, t'). Goes s bottom f (items (whole w (node (node l c e r) p d sh))) n t')
          (absorb_right (top s sh) c t)
  black_right l r calm_l calm_r focus short =
      let (ec, (el, vl, vr), (bl, cl, cr), bd, bw, fits) = short.fits in
      Returns-weaken (absorb_right-black short.known calm_r calm_l focus) λ (n, t') (here, f₁).
        record {
          up = w;
          shape = node (node l c (reddened e) r) p d sh;
          here = here;
          focus = f₁;
          short = record {
            known = Known-node bottom (node l c (reddened e) r) p d sh w;
            level = (ground (arith, ec, calm_e), (el, vl, vr), short.level);
            calm = ((rw (calm_l, calm_r) refl, cl, cr), CalmBelow-Calm sh calm short.calm);
            fits =
                refit w (weight d + (1 + blacks sh)) (1 + (weight d + (0 + blacks l)))
                  (ground (arith, ec, calm_e)) fits;
          };
          enough = enough;
          same_items = items-whole w _ _ refl;
        }

  outer_right :
      {q : Ptr} {g : Label} (rl rr r : Shape)
      → red_label g ≡ true
      → Focus s bottom t w (node (node (node rl q g rr) c e r) p d sh)
      → Short bottom (in_right w (node (node rl q g rr) c e r) p d) sh
      → Returns
          (λ (n, t').
            Goes s bottom f (items (whole w (node (node (node rl q g rr) c e r) p d sh))) n t')
          (absorb_right (top s sh) c t)
  outer_right {q} {g} rl rr r hot focus short =
      let (ec, (el, (er, vrl, vrr), vr), (bl, (br, crl, crr), cr), bd, bw, fits) = short.fits in
      Returns-weaken (absorb_right-outer short.known hot focus) λ (n, t') (here, f₁).
        finished n w (node (node rl q (blackened g) rr) c (colored e d) (node r p (blackened d) sh))
          _ here f₁
          (record {
            level = (
              ground (arith, el, hot),
              (er, vrl, vrr),
              (ground (arith, ec, el, calm_e, hot), vr, short.level),
            );
            calm = (
              and_false (red_label d),
              (refl, crl, crr),
              (refl, cr, CalmBelow-Calm sh calm short.calm),
            );
            fits =
                refit w (weight d + (1 + blacks sh)) (weight d + (1 + blacks rl))
                  (ground (arith, ec, calm_e, hot)) fits;
            calm_top = bw;
          })
          (items-whole w _ _ (simp (append_assoc))) (ground (arith, enough))

  inner_right :
      {i : Ptr} {g : Label} (l il ir : Shape)
      → red_label g ≡ true
      → red_top l ≡ false
      → Focus s bottom t w (node (node l c e (node il i g ir)) p d sh)
      → Short bottom (in_right w (node l c e (node il i g ir)) p d) sh
      → Returns
          (λ (n, t').
            Goes s bottom f (items (whole w (node (node l c e (node il i g ir)) p d sh))) n t')
          (absorb_right (top s sh) c t)
  inner_right {i} {g} l il ir hot calm_l focus short =
      let (ec, (el, vl, (ei, vil, vir)), (bl, cl, (bi, cil, cir)), bd, bw, fits) = short.fits in
      Returns-weaken (absorb_right-inner short.known hot calm_l focus) λ (n, t') (here, f₁).
        finished n w
          (node (node l c (blackened (reddened e)) il) i (colored (blackened g) d)
            (node ir p (blackened d) sh))
          _ here f₁
          (record {
            level = (
              ground (arith, el, ei, hot),
              (ground (arith, el, hot), vl, vil),
              (ground (arith, ec, el, ei, calm_e, hot), vir, short.level),
            );
            calm = (
              and_false (red_label d),
              (refl, cl, cil),
              (refl, cir, CalmBelow-Calm sh calm short.calm),
            );
            fits =
                refit w (weight d + (1 + blacks sh)) (weight d + (1 + blacks l))
                  (ground (arith, ec, calm_e)) fits;
            calm_top = bw;
          })
          (items-whole w _ _ (simp (append_assoc))) (ground (arith, enough))

  -- Whatever the colours below a black sibling.
  absorbs_right :
      (l r : Shape)
      → Focus s bottom t w (node (node l c e r) p d sh)
      → Short bottom (in_right w (node l c e r) p d) sh
      → Returns
          (λ (n, t'). Goes s bottom f (items (whole w (node (node l c e r) p d sh))) n t')
          (absorb_right (top s sh) c t)
  absorbs_right leaf leaf focus short = black_right leaf leaf refl refl focus short
  absorbs_right leaf (node il i g ir) focus short = elim (Bool-cases (red_label g)) [
    | inl hot ↦ inner_right leaf il ir hot refl focus short
    | inr calm_r ↦ black_right leaf (node il i g ir) refl calm_r focus short
  ]
  absorbs_right (node rl q h rr) leaf focus short = elim (Bool-cases (red_label h)) [
    | inl hot ↦ outer_right rl rr leaf hot focus short
    | inr calm_l ↦ black_right (node rl q h rr) leaf calm_l refl focus short
  ]
  absorbs_right (node rl q h rr) (node il i g ir) focus short = elim (Bool-cases (red_label h)) [
    | inl hot ↦ outer_right rl rr (node il i g ir) hot focus short
    | inr calm_l ↦ elim (Bool-cases (red_label g)) [
      | inl hot ↦ inner_right (node rl q h rr) il ir hot calm_l focus short
      | inr calm_r ↦ black_right (node rl q h rr) (node il i g ir) calm_l calm_r focus short
    ]
  ]

module _ {s : Ptr} {bottom : Node} {f : ℕ} {t : Tree} {w : Trail} {p c : Ptr} {d e : Label}
    {sh : Shape} (calm : red_top sh ≡ false) (some_left : 0 < f) where
  -- Below a red sibling, once that has come up.
  raised_right :
      (l r : Shape)
      → red_label e ≡ true
      → Focus s bottom t w (node (node l c e r) p d sh)
      → Short bottom (in_right w (node l c e r) p d) sh
      → Returns
          (λ (n, t'). Goes s bottom f (items (whole w (node (node l c e r) p d sh))) n t')
          (settle_right (top s sh) p t)
  unfolding settle_right
  raised_right l leaf hot focus short = ground (arith, hot, short.fits.0, short.fits.1.0)
  raised_right l (node rl rc re rr) hot focus short =
      let (ec, (el, vl, vr), (bl, cl, cr), bd, bw, fits) = short.fits in
      let calm_r : red_label re ≡ false = ground (arith, bl, hot) in
      let same : items
            (whole w (node l c (blackened e) (node (node rl rc re rr) p (reddened d) sh)))
          ≡ items (whole w (node (node l c e (node rl rc re rr)) p d sh)) =
        items-whole w _ _ (simp (append_assoc)) in
      follow_ok _ (reads_left focus) (
        follow_ok _ (reads_red (node l c e (node rl rc re rr)) (to_left focus)) (
          rw hot (
            follow _ (raise_right short.known focus) λ n t₁ (here, f₁).
              rw (here, sym same)
                (absorbs_right calm calm_r some_left rl rr (to_right f₁) (record {
                  known = short.known;
                  level = short.level;
                  calm = short.calm;
                  fits = (
                    ground (arith, ec, el, hot),
                    vr,
                    cr,
                    calm_r,
                    refl,
                    (
                      ground (arith, ec, hot),
                      vl,
                      cl,
                      refl,
                      refl,
                      refit w (weight d + (1 + blacks sh)) (1 + (0 + (1 + blacks sh)))
                          (ground (arith, bd, hot)) fits,
                    ),
                  );
                })))))

module _ {s : Ptr} {bottom : Node} {f : ℕ} {t : Tree} {w : Trail} {p : Ptr} {d : Label} {sh : Shape}
    (calm : red_top sh ≡ false) (some_left : 0 < f) where
  pub settle_right-Goes :
      (x : Shape)
      → (if red_label d then 0 else climbs w) < f
      → Focus s bottom t w (node x p d sh)
      → Short bottom (in_right w x p d) sh
      → Returns
          (λ (n, t'). Goes s bottom f (items (whole w (node x p d sh))) n t')
          (settle_right (top s sh) p t)
  unfolding settle_right
  settle_right-Goes leaf enough focus short = ground (arith, short.fits.0)
  settle_right-Goes (node l q g r) enough focus short = elim (Bool-cases (red_label g)) [
    | inl hot ↦ raised_right calm some_left l r hot focus short
    | inr calm_e ↦ follow_ok _ (reads_left focus) (
        follow_ok _ (reads_red (node l q g r) (to_left focus))
          (rw calm_e (absorbs_right calm calm_e enough l r focus short)))
  ]

-- ===== src/Rbtree/ClimbLeft.antt =====
-- A round of the loop of `ngx_rbtree_insert` below a red parent that is a left child.
use middleware_development_d.Prelude.{
  ℕ, ◌+◌, ◌<◌, ◌≡◌, refl, sym, ◌∙◌, inl, inr, Bool-cases, true, false, append_assoc, arith, Returns,
}
use middleware_development_d.Rbtree.Store.{Node, Ptr, Tree, ◌>>=◌}
use middleware_development_d.Rbtree.Shape.{Label, Shape, leaf, node}
use middleware_development_d.Rbtree.Insert.{fix_left, rebalance}
use middleware_development_d.Rbtree.Trail.{Trail, in_left, in_right}
use middleware_development_d.Rbtree.Steps.{follow}
use middleware_development_d.Rbtree.Focus.{Focus, from_left, from_right, red_label, red_top}
use middleware_development_d.Rbtree.Balance.{weight, blacks, whole, items, items-whole}
use middleware_development_d.Rbtree.Fix.{
  blackened, reddened, fix_left-outer, fix_left-inner, fix_left-red,
}
use middleware_development_d.Rbtree.Rebalance.{
  Ready, Ready-Level, Ready-Calm, Ready-blacks, refit, Balanced, climbs, Rebalances, goes_on,
}

module _ {s : Ptr} {bottom : Node} {f : ℕ} (next : Rebalances s bottom f) {t : Tree} {up : Trail}
    {l r x : Shape} {a p g : Ptr} {d dp dg : Label} (hot : red_label dp ≡ true) where
  -- The node hangs on the left, and its uncle is black.
  left_left-black :
      (u : Shape)
      → red_top u ≡ false
      → Focus s bottom t (in_left (in_left up g dg u) p dp x) (node l a d r)
      → Ready (in_left (in_left up g dg u) p dp x) l d r
      → climbs up + 1 < f
      → Returns
          (λ (v, t').
            Balanced s bottom t' (items (whole up (node (node (node l a d r) p dp x) g dg u))))
          ((do n ← fix_left a p g; rebalance f n) t)
  left_left-black u calm focus ready short =
      let (ex, vx, cx, bx, bd, (eu, vu, cu, bu, bg, fits)) = ready.fits in
      follow _ (fix_left-outer calm focus) λ n t₁ (e, f₁).
        goes_on next (in_left up p (blackened dp) (node x g (reddened dg) u)) l a d r
          (items (whole up (node (node (node l a d r) p dp x) g dg u)))
          (items-whole up _ _ (simp (append_assoc)))
          (record {
            red = ready.red;
            level = ready.level;
            levels = ready.levels;
            calms = ready.calms;
            calm_l = ready.calm_l;
            calm_r = ready.calm_r;
            fits = (
              ground (arith, ex),
              (ground (arith, ex, eu, hot), vx, vu),
              (ground (arith, hot, bx, calm), cx, cu),
              refl,
              refl,
              refit up (weight dg + (weight dp + blacks l)) (1 + blacks l) (ground (arith, hot, bd))
                  fits,
            );
          })
          (ground (arith, short)) n e f₁

  -- It hangs on the right.
  left_right-black :
      (u : Shape)
      → red_top u ≡ false
      → Focus s bottom t (in_right (in_left up g dg u) x p dp) (node l a d r)
      → Ready (in_right (in_left up g dg u) x p dp) l d r
      → climbs up + 1 < f
      → Returns
          (λ (v, t').
            Balanced s bottom t' (items (whole up (node (node x p dp (node l a d r)) g dg u))))
          ((do n ← fix_left a p g; rebalance f n) t)
  left_right-black u calm focus ready short =
      let (ex, vx, cx, bx, bd, (eu, vu, cu, bu, bg, fits)) = ready.fits in
      follow _ (fix_left-inner calm focus) λ n t₁ (e, f₁).
        goes_on next (in_left up a (blackened d) (node r g (reddened dg) u)) x p dp l
          (items (whole up (node (node x p dp (node l a d r)) g dg u)))
          (items-whole up _ _ (simp (append_assoc)))
          (record {
            red = hot;
            level = ex;
            levels = (vx, ready.levels.0);
            calms = (cx, ready.calms.0);
            calm_l = ground (arith, hot, bx);
            calm_r = ready.calm_l;
            fits = (
              ground (arith, ex, ready.level),
              (ground (arith, ready.level, eu, hot), ready.levels.1, vu),
              (ground (arith, ready.calm_r, calm), ready.calms.1, cu),
              refl,
              refl,
              refit up (weight dg + (weight dp + blacks l)) (1 + blacks x)
                  (ground (arith, hot, bd, ex)) fits,
            );
          })
          (ground (arith, short)) n e f₁

  -- The uncle is red.
  left_left-red :
      {c : Ptr} {du : Label} {ul ur : Shape}
      → red_label du ≡ true
      → Focus s bottom t (in_left (in_left up g dg (node ul c du ur)) p dp x) (node l a d r)
      → Ready (in_left (in_left up g dg (node ul c du ur)) p dp x) l d r
      → climbs up < f
      → Returns
          (λ (v, t').
            Balanced s bottom t'
              (items (whole up (node (node (node l a d r) p dp x) g dg (node ul c du ur)))))
          ((do n ← fix_left a p g; rebalance f n) t)
  left_left-red {c} {du} {ul} {ur} busy focus ready short =
      let (ex, vx, cx, bx, bd, (eu, (eur, vul, vur), (bur, cul, cur), bu, bg, fits)) = ready.fits in
      follow _ (fix_left-red a busy (from_left (from_left focus))) λ n t₁ (e, f₁).
        goes_on next up (node (node l a d r) p (blackened dp) x) g (reddened dg)
          (node ul c (blackened du) ur)
          (items (whole up (node (node (node l a d r) p dp x) g dg (node ul c du ur))))
          (items-whole up _ _ refl)
          (record {
            red = refl;
            level = ground (arith, eu, hot, busy, Ready-blacks a ready);
            levels = ((Ready-blacks a ready ∙ sym ex, Ready-Level a ready, vx), (eur, vul, vur));
            calms = ((refl, Ready-Calm a ready, cx), (refl, cul, cur));
            calm_l = refl;
            calm_r = refl;
            fits =
                refit up (weight dg + (weight dp + blacks l)) (1 + (weight d + blacks l))
                  (ground (arith, hot, bd, Ready-blacks a ready)) fits;
          })
          short n e f₁

  left_right-red :
      {c : Ptr} {du : Label} {ul ur : Shape}
      → red_label du ≡ true
      → Focus s bottom t (in_right (in_left up g dg (node ul c du ur)) x p dp) (node l a d r)
      → Ready (in_right (in_left up g dg (node ul c du ur)) x p dp) l d r
      → climbs up < f
      → Returns
          (λ (v, t').
            Balanced s bottom t'
              (items (whole up (node (node x p dp (node l a d r)) g dg (node ul c du ur)))))
          ((do n ← fix_left a p g; rebalance f n) t)
  left_right-red {c} {du} {ul} {ur} busy focus ready short =
      let (ex, vx, cx, bx, bd, (eu, (eur, vul, vur), (bur, cul, cur), bu, bg, fits)) = ready.fits in
      follow _ (fix_left-red a busy (from_left (from_right focus))) λ n t₁ (e, f₁).
        goes_on next up (node x p (blackened dp) (node l a d r)) g (reddened dg)
          (node ul c (blackened du) ur)
          (items (whole up (node (node x p dp (node l a d r)) g dg (node ul c du ur))))
          (items-whole up _ _ refl)
          (record {
            red = refl;
            level = ground (arith, eu, hot, busy, ex);
            levels = ((ex ∙ sym (Ready-blacks a ready), vx, Ready-Level a ready), (eur, vul, vur));
            calms = ((refl, cx, Ready-Calm a ready), (refl, cul, cur));
            calm_l = refl;
            calm_r = refl;
            fits =
                refit up (weight dg + (weight dp + blacks l)) (1 + blacks x)
                  (ground (arith, hot, bd, ex)) fits;
          })
          short n e f₁

  -- Whatever the uncle is.
  pub left_left :
      (u : Shape)
      → Focus s bottom t (in_left (in_left up g dg u) p dp x) (node l a d r)
      → Ready (in_left (in_left up g dg u) p dp x) l d r
      → climbs up + 1 < f
      → Returns
          (λ (v, t').
            Balanced s bottom t' (items (whole up (node (node (node l a d r) p dp x) g dg u))))
          ((do n ← fix_left a p g; rebalance f n) t)
  left_left leaf focus ready short = left_left-black leaf refl focus ready short
  left_left (node ul c du ur) focus ready short = elim (Bool-cases (red_label du)) [
    | inl busy ↦ left_left-red busy focus ready (ground (arith, short))
    | inr calm ↦ left_left-black (node ul c du ur) calm focus ready short
  ]

  pub left_right :
      (u : Shape)
      → Focus s bottom t (in_right (in_left up g dg u) x p dp) (node l a d r)
      → Ready (in_right (in_left up g dg u) x p dp) l d r
      → climbs up + 1 < f
      → Returns
          (λ (v, t').
            Balanced s bottom t' (items (whole up (node (node x p dp (node l a d r)) g dg u))))
          ((do n ← fix_left a p g; rebalance f n) t)
  left_right leaf focus ready short = left_right-black leaf refl focus ready short
  left_right (node ul c du ur) focus ready short = elim (Bool-cases (red_label du)) [
    | inl busy ↦ left_right-red busy focus ready (ground (arith, short))
    | inr calm ↦ left_right-black (node ul c du ur) calm focus ready short
  ]

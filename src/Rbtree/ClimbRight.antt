-- ===== src/Rbtree/ClimbRight.antt =====
-- A round of the loop of `ngx_rbtree_insert` below a red parent that is a right child.
use middleware_development_d.Prelude.{
  ℕ, ◌+◌, ◌<◌, ◌≡◌, refl, sym, ◌∙◌, inl, inr, Bool-cases, true, false, append_assoc, arith, Returns,
}
use middleware_development_d.Rbtree.Store.{Node, Ptr, Tree, ◌>>=◌}
use middleware_development_d.Rbtree.Shape.{Label, Shape, leaf, node}
use middleware_development_d.Rbtree.Insert.{fix_right, rebalance}
use middleware_development_d.Rbtree.Trail.{Trail, in_left, in_right}
use middleware_development_d.Rbtree.Steps.{follow}
use middleware_development_d.Rbtree.Focus.{Focus, from_left, from_right, red_label, red_top}
use middleware_development_d.Rbtree.Balance.{weight, blacks, whole, items, items-whole}
use middleware_development_d.Rbtree.Fix.{
  blackened, reddened, fix_right-outer, fix_right-inner, fix_right-red,
}
use middleware_development_d.Rbtree.Rebalance.{
  Ready, Ready-Level, Ready-Calm, Ready-blacks, refit, Balanced, climbs, Rebalances, goes_on,
}

module _ {s : Ptr} {bottom : Node} {f : ℕ} (next : Rebalances s bottom f) {t : Tree} {up : Trail}
    {l r x : Shape} {a p g : Ptr} {d dp dg : Label} (hot : red_label dp ≡ true) where
  -- The node hangs on the right, and its uncle is black.
  right_right-black :
      (u : Shape)
      → red_top u ≡ false
      → Focus s bottom t (in_right (in_right up u g dg) x p dp) (node l a d r)
      → Ready (in_right (in_right up u g dg) x p dp) l d r
      → climbs up + 1 < f
      → Returns
          (λ (v, t').
            Balanced s bottom t' (items (whole up (node u g dg (node x p dp (node l a d r))))))
          ((do n ← fix_right a p g; rebalance f n) t)
  right_right-black u calm focus ready short =
      let (ex, vx, cx, bx, bd, (eu, vu, cu, bu, bg, fits)) = ready.fits in
      follow _ (fix_right-outer calm focus) λ n t₁ (e, f₁).
        goes_on next (in_right up (node u g (reddened dg) x) p (blackened dp)) l a d r
          (items (whole up (node u g dg (node x p dp (node l a d r)))))
          (items-whole up _ _ (simp (append_assoc)))
          (record {
            red = ready.red;
            level = ready.level;
            levels = ready.levels;
            calms = ready.calms;
            calm_l = ready.calm_l;
            calm_r = ready.calm_r;
            fits = (
              ground (arith, eu, hot),
              (ground (arith, ex, eu, hot), vu, vx),
              (ground (arith, hot, bx, calm), cu, cx),
              refl,
              refl,
              refit up (weight dg + (weight dp + blacks l)) (1 + blacks l) (ground (arith, hot, bd))
                  fits,
            );
          })
          (ground (arith, short)) n e f₁

  -- It hangs on the left.
  right_left-black :
      (u : Shape)
      → red_top u ≡ false
      → Focus s bottom t (in_left (in_right up u g dg) p dp x) (node l a d r)
      → Ready (in_left (in_right up u g dg) p dp x) l d r
      → climbs up + 1 < f
      → Returns
          (λ (v, t').
            Balanced s bottom t' (items (whole up (node u g dg (node (node l a d r) p dp x)))))
          ((do n ← fix_right a p g; rebalance f n) t)
  right_left-black u calm focus ready short =
      let (ex, vx, cx, bx, bd, (eu, vu, cu, bu, bg, fits)) = ready.fits in
      follow _ (fix_right-inner calm focus) λ n t₁ (e, f₁).
        goes_on next (in_right up (node u g (reddened dg) l) a (blackened d)) r p dp x
          (items (whole up (node u g dg (node (node l a d r) p dp x))))
          (items-whole up _ _ (simp (append_assoc)))
          (record {
            red = hot;
            level = sym ready.level ∙ sym ex;
            levels = (ready.levels.1, vx);
            calms = (ready.calms.1, cx);
            calm_l = ready.calm_r;
            calm_r = ground (arith, hot, bx);
            fits = (
              ground (arith, eu, hot, ready.level),
              (ground (arith, ready.level, eu, hot), vu, ready.levels.0),
              (ground (arith, ready.calm_l, calm), cu, ready.calms.0),
              refl,
              refl,
              refit up (weight dg + (weight dp + blacks l)) (1 + blacks r)
                  (ground (arith, hot, bd, ready.level)) fits,
            );
          })
          (ground (arith, short)) n e f₁

  -- The uncle is red.
  right_right-red :
      {c : Ptr} {du : Label} {ul ur : Shape}
      → red_label du ≡ true
      → Focus s bottom t (in_right (in_right up (node ul c du ur) g dg) x p dp) (node l a d r)
      → Ready (in_right (in_right up (node ul c du ur) g dg) x p dp) l d r
      → climbs up < f
      → Returns
          (λ (v, t').
            Balanced s bottom t'
              (items (whole up (node (node ul c du ur) g dg (node x p dp (node l a d r))))))
          ((do n ← fix_right a p g; rebalance f n) t)
  right_right-red {c} {du} {ul} {ur} busy focus ready short =
      let (ex, vx, cx, bx, bd, (eu, (eur, vul, vur), (bur, cul, cur), bu, bg, fits)) = ready.fits in
      follow _ (fix_right-red a busy (from_right (from_right focus))) λ n t₁ (e, f₁).
        goes_on next up (node ul c (blackened du) ur) g (reddened dg)
          (node x p (blackened dp) (node l a d r))
          (items (whole up (node (node ul c du ur) g dg (node x p dp (node l a d r)))))
          (items-whole up _ _ refl)
          (record {
            red = refl;
            level = ground (arith, eu, hot, busy, ex);
            levels = ((eur, vul, vur), (ex ∙ sym (Ready-blacks a ready), vx, Ready-Level a ready));
            calms = ((refl, cul, cur), (refl, cx, Ready-Calm a ready));
            calm_l = refl;
            calm_r = refl;
            fits =
                refit up (weight dg + (weight dp + blacks l)) (1 + blacks ul)
                  (ground (arith, hot, bd, eu, busy)) fits;
          })
          short n e f₁

  right_left-red :
      {c : Ptr} {du : Label} {ul ur : Shape}
      → red_label du ≡ true
      → Focus s bottom t (in_left (in_right up (node ul c du ur) g dg) p dp x) (node l a d r)
      → Ready (in_left (in_right up (node ul c du ur) g dg) p dp x) l d r
      → climbs up < f
      → Returns
          (λ (v, t').
            Balanced s bottom t'
              (items (whole up (node (node ul c du ur) g dg (node (node l a d r) p dp x)))))
          ((do n ← fix_right a p g; rebalance f n) t)
  right_left-red {c} {du} {ul} {ur} busy focus ready short =
      let (ex, vx, cx, bx, bd, (eu, (eur, vul, vur), (bur, cul, cur), bu, bg, fits)) = ready.fits in
      follow _ (fix_right-red a busy (from_right (from_left focus))) λ n t₁ (e, f₁).
        goes_on next up (node ul c (blackened du) ur) g (reddened dg)
          (node (node l a d r) p (blackened dp) x)
          (items (whole up (node (node ul c du ur) g dg (node (node l a d r) p dp x))))
          (items-whole up _ _ refl)
          (record {
            red = refl;
            level = ground (arith, eu, hot, busy, Ready-blacks a ready);
            levels = ((eur, vul, vur), (Ready-blacks a ready ∙ sym ex, Ready-Level a ready, vx));
            calms = ((refl, cul, cur), (refl, Ready-Calm a ready, cx));
            calm_l = refl;
            calm_r = refl;
            fits =
                refit up (weight dg + (weight dp + blacks l)) (1 + blacks ul)
                  (ground (arith, hot, bd, eu, busy)) fits;
          })
          short n e f₁

  -- Whatever the uncle is.
  pub right_right :
      (u : Shape)
      → Focus s bottom t (in_right (in_right up u g dg) x p dp) (node l a d r)
      → Ready (in_right (in_right up u g dg) x p dp) l d r
      → climbs up + 1 < f
      → Returns
          (λ (v, t').
            Balanced s bottom t' (items (whole up (node u g dg (node x p dp (node l a d r))))))
          ((do n ← fix_right a p g; rebalance f n) t)
  right_right leaf focus ready short = right_right-black leaf refl focus ready short
  right_right (node ul c du ur) focus ready short = elim (Bool-cases (red_label du)) [
    | inl busy ↦ right_right-red busy focus ready (ground (arith, short))
    | inr calm ↦ right_right-black (node ul c du ur) calm focus ready short
  ]

  pub right_left :
      (u : Shape)
      → Focus s bottom t (in_left (in_right up u g dg) p dp x) (node l a d r)
      → Ready (in_left (in_right up u g dg) p dp x) l d r
      → climbs up + 1 < f
      → Returns
          (λ (v, t').
            Balanced s bottom t' (items (whole up (node u g dg (node (node l a d r) p dp x)))))
          ((do n ← fix_right a p g; rebalance f n) t)
  right_left leaf focus ready short = right_left-black leaf refl focus ready short
  right_left (node ul c du ur) focus ready short = elim (Bool-cases (red_label du)) [
    | inl busy ↦ right_left-red busy focus ready (ground (arith, short))
    | inr calm ↦ right_left-black (node ul c du ur) calm focus ready short
  ]

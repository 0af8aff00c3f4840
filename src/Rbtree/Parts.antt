-- ===== src/Rbtree/Parts.antt =====
-- A rotation step by step: two nodes, the three trees below them and the trail above, with links that
-- may be out of step with each other in between.
use middleware_development_d.Prelude.{
  ℕ, ◌+◌, ◌≤◌, ◌≡◌, ◌≢◌, ◌∙◌, some, arith, ◌==◌, if◌then◌else◌, Returns, Returns-weaken,
}
use middleware_development_d.Rbtree.Store.{Ptr, Node, Tree, pure, modify, set_parent}
use middleware_development_d.Rbtree.Shape.{Shape, top, Holds}
use middleware_development_d.Rbtree.Trail.{
  Trail, times, times_on, above, root_at, OnTrail, Holds-agree, OnTrail-agree,
}
use middleware_development_d.Rbtree.Steps.{just, modify-Leaves, reparent}
use middleware_development_d.Rbtree.Relink.{Hung, Hangs}
use middleware_development_d.Rbtree.Focus.{not_in, not_on}

-- Two nodes, the three trees below them and the trail above, which a rotation links anew.
module _ (s : Ptr) (bottom : Node) (a b : Ptr) (x m y : Shape) (up : Trail) where
  abbrev pub others : Ptr → ℕ
  others z = times z x + (times z m + (times z y + times_on z up))

  -- In the middle of a rotation: what the two nodes hold, below which parents the trees hang, and
  -- where the trail leads.
  pub record Parts (t : Tree) (na nb : Node) (px pm py hole : Ptr) : Type 0 where
    pub a_real : a ≢ s
    pub b_real : b ≢ s
    pub once : (z : Ptr) → just a z + (just b z + others z) ≤ 1
    pub sentinel : t.sentinel ≡ s
    pub at_a : t.cells a ≡ some na
    pub at_b : t.cells b ≡ some nb
    pub holds_x : Holds t.cells s px x
    pub holds_m : Holds t.cells s pm m
    pub holds_y : Holds t.cells s py y
    pub trail : OnTrail t.cells s hole up
    pub root : t.root ≡ root_at hole up
    pub at_end : t.cells s ≡ some bottom
    pub end_black : bottom.color ≡ 0

  module _ {t : Tree} {na nb : Node} {px pm py hole : Ptr} (p : Parts t na nb px pm py hole) where
    pub modify_a :
        (g : Node → Node) → Returns (λ (u, t'). Parts t' (g na) nb px pm py hole) (modify a g t)
    modify_a g = Returns-weaken (modify-Leaves t a na g p.at_a) λ (u, t') (leaves, root, now).
        record {
          a_real = p.a_real;
          b_real = p.b_real;
          once = p.once;
          sentinel = leaves.sentinel ∙ p.sentinel;
          at_a = now;
          at_b = leaves.cells b (ground (arith, p.once a)) ∙ p.at_b;
          holds_x =
              Holds-agree t.cells t'.cells s px x (λ z o. leaves.cells z (ground (arith, p.once z)))
                p.holds_x;
          holds_m =
              Holds-agree t.cells t'.cells s pm m (λ z o. leaves.cells z (ground (arith, p.once z)))
                p.holds_m;
          holds_y =
              Holds-agree t.cells t'.cells s py y (λ z o. leaves.cells z (ground (arith, p.once z)))
                p.holds_y;
          trail =
              OnTrail-agree t.cells t'.cells s hole up
                (λ z o. leaves.cells z (ground (arith, p.once z))) p.trail;
          root = root ∙ p.root;
          at_end = leaves.cells s (ground (arith, p.a_real)) ∙ p.at_end;
          end_black = p.end_black;
        }

    pub modify_b :
        (g : Node → Node) → Returns (λ (u, t'). Parts t' na (g nb) px pm py hole) (modify b g t)
    modify_b g = Returns-weaken (modify-Leaves t b nb g p.at_b) λ (u, t') (leaves, root, now).
        record {
          a_real = p.a_real;
          b_real = p.b_real;
          once = p.once;
          sentinel = leaves.sentinel ∙ p.sentinel;
          at_a = leaves.cells a (ground (arith, p.once b)) ∙ p.at_a;
          at_b = now;
          holds_x =
              Holds-agree t.cells t'.cells s px x (λ z o. leaves.cells z (ground (arith, p.once z)))
                p.holds_x;
          holds_m =
              Holds-agree t.cells t'.cells s pm m (λ z o. leaves.cells z (ground (arith, p.once z)))
                p.holds_m;
          holds_y =
              Holds-agree t.cells t'.cells s py y (λ z o. leaves.cells z (ground (arith, p.once z)))
                p.holds_y;
          trail =
              OnTrail-agree t.cells t'.cells s hole up
                (λ z o. leaves.cells z (ground (arith, p.once z))) p.trail;
          root = root ∙ p.root;
          at_end = leaves.cells s (ground (arith, p.b_real)) ∙ p.at_end;
          end_black = p.end_black;
        }

    pub move_m :
        (q : Ptr)
        → Returns
            (λ (u, t'). Parts t' na nb px q py hole)
            ((if top s m == s then pure tt else set_parent (top s m) q) t)
    move_m q =
        Returns-weaken (reparent t s pm q m p.holds_m (λ z. ground (arith, p.once z)))
          λ (u, t') (leaves, root, now). record {
            a_real = p.a_real;
            b_real = p.b_real;
            once = p.once;
            sentinel = leaves.sentinel ∙ p.sentinel;
            at_a = leaves.cells a (ground (arith, p.once a)) ∙ p.at_a;
            at_b = leaves.cells b (ground (arith, p.once b)) ∙ p.at_b;
            holds_x =
                Holds-agree t.cells t'.cells s px x
                  (λ z o. leaves.cells z (ground (arith, p.once z))) p.holds_x;
            holds_m = now;
            holds_y =
                Holds-agree t.cells t'.cells s py y
                  (λ z o. leaves.cells z (ground (arith, p.once z))) p.holds_y;
            trail =
                OnTrail-agree t.cells t'.cells s hole up
                  (λ z o. leaves.cells z (ground (arith, p.once z))) p.trail;
            root = root ∙ p.root;
            at_end = leaves.cells s (not_in t s pm m p.holds_m) ∙ p.at_end;
            end_black = p.end_black;
          }

    -- The node `a` hangs on the trail still; `q` takes its place there.
    pub Hangs-a : na.parent ≡ above up → hole ≡ a → Hangs s a up t
    Hangs-a knows here = record {
      here = na;
      at_old = p.at_a;
      knows = knows;
      real = p.a_real;
      trail = rw here at p.trail;
      root = rw here at p.root;
      once = λ z. ground (arith, p.once z);
    }

    pub after_Hung : (q : Ptr) (t' : Tree) → Hung s q up t t' → Parts t' na nb px pm py q
    after_Hung q t' h = record {
      a_real = p.a_real;
      b_real = p.b_real;
      once = p.once;
      sentinel = h.leaves.sentinel ∙ p.sentinel;
      at_a = h.leaves.cells a (ground (arith, p.once a)) ∙ p.at_a;
      at_b = h.leaves.cells b (ground (arith, p.once b)) ∙ p.at_b;
      holds_x =
          Holds-agree t.cells t'.cells s px x (λ z o. h.leaves.cells z (ground (arith, p.once z)))
            p.holds_x;
      holds_m =
          Holds-agree t.cells t'.cells s pm m (λ z o. h.leaves.cells z (ground (arith, p.once z)))
            p.holds_m;
      holds_y =
          Holds-agree t.cells t'.cells s py y (λ z o. h.leaves.cells z (ground (arith, p.once z)))
            p.holds_y;
      trail = h.trail;
      root = h.root;
      at_end = h.leaves.cells s (not_on t s hole up p.trail) ∙ p.at_end;
      end_black = p.end_black;
    }

-- ===== src/Rbtree/Unhang.antt =====
-- A node with one child at most leaves its place to that child: the link from above, and the child's link
-- back, which is written to the sentinel when there is no child.
use middleware_development_d.Prelude.{
  ℕ, ◌+◌, ◌≤◌, ◌≡◌, ◌≢◌, refl, ◌∙◌, true, false, some, arith, ◌==◌, if◌then◌else◌, Returns,
  Returns-weaken,
}
use middleware_development_d.Rbtree.Store.{Ptr, Node, Tree, set_left, set_right, set_parent}
use middleware_development_d.Rbtree.Shape.{Label, Shape, leaf, node, top, Holds}
use middleware_development_d.Rbtree.Trail.{
  Trail, times, times_on, above, root_at, linked, OnTrail, Holds-agree, OnTrail-agree,
}
use middleware_development_d.Rbtree.Steps.{just, modify-Leaves, reparent}
use middleware_development_d.Rbtree.Relink.{Hangs, below, over_side, relinks-Hung}
use middleware_development_d.Rbtree.Focus.{Focus, not_in, not_on}
use middleware_development_d.Rbtree.Settle.{Knows}

-- The node `b`, which holds `nb`, on its way out: its child `y` names the parent `q`, and the trail leads
-- to `hole`.
pub record Freed (s : Ptr) (bottom : Node) (b : Ptr) (nb : Node) (q hole : Ptr) (up : Trail)
    (y : Shape) (t : Tree) : Type 0 where
  pub sentinel : t.sentinel ≡ s
  pub trail : OnTrail t.cells s hole up
  pub tree : Holds t.cells s q y
  pub root : t.root ≡ root_at hole up
  pub once : (z : Ptr) → just b z + (times z y + times_on z up) ≤ 1
  pub at_b : t.cells b ≡ some nb
  pub real : b ≢ s
  pub at_end : t.cells s ≡ some bottom
  pub end_black : bottom.color ≡ 0

module _ {s : Ptr} {bottom : Node} {t : Tree} {up : Trail} {b : Ptr} {e : Label} {y : Shape} where
  pub frees_right :
      Focus s bottom t up (node leaf b e y)
      → Freed s bottom b (linked (above up) e s (top s y)) b b up y t
  frees_right f = record {
    sentinel = f.sentinel;
    trail = f.trail;
    tree = f.tree.3;
    root = f.root;
    once = λ z. ground (arith, f.once z);
    at_b = f.tree.1;
    real = f.tree.0;
    at_end = f.at_end;
    end_black = f.end_black;
  }

  pub frees_left :
      Focus s bottom t up (node y b e leaf)
      → Freed s bottom b (linked (above up) e (top s y) s) b b up y t
  frees_left f = record {
    sentinel = f.sentinel;
    trail = f.trail;
    tree = f.tree.2;
    root = f.root;
    once = λ z. ground (arith, f.once z);
    at_b = f.tree.1;
    real = f.tree.0;
    at_end = f.at_end;
    end_black = f.end_black;
  }

module _ {s : Ptr} {bottom : Node} {t : Tree} {up : Trail} {b : Ptr} {nb : Node} {y : Shape}
    {q hole : Ptr} where
  pub Freed-Focus :
      q ≡ above up → hole ≡ top s y → Freed s bottom b nb q hole up y t → Focus s bottom t up y
  Freed-Focus knows here f = record {
    sentinel = f.sentinel;
    trail = rw here at f.trail;
    tree = rw knows at f.tree;
    root = rw here at f.root;
    once = λ z. ground (arith, f.once z);
    at_end = f.at_end;
    end_black = f.end_black;
  }

  pub gone : Freed s bottom b nb q hole up y t → times b y + times_on b up ≡ 0
  gone f = ground (arith, f.once b)

  pub Freed-Hangs :
      nb.parent ≡ above up → hole ≡ b → Freed s bottom b nb q hole up y t → Hangs s b up t
  Freed-Hangs knows here f = record {
    here = nb;
    at_old = f.at_b;
    knows = knows;
    real = f.real;
    trail = rw here at f.trail;
    root = rw here at f.root;
    once = λ z. ground (arith, f.once z);
  }

  -- The link from above goes to the child.
  pub unhang :
      {new : Ptr}
      → below up ≡ true
      → nb.parent ≡ above up
      → hole ≡ b
      → Freed s bottom b nb q hole up y t
      → Returns
          (λ (u, t'). Freed s bottom b nb q new up y t')
          ((if b == over_side s b up then set_left (above up) new else set_right (above up) new) t)
  unhang {new} under knows here f =
      Returns-weaken (relinks-Hung s b new t up under (Freed-Hangs knows here f)) λ (u, t') h.
        record {
          sentinel = h.leaves.sentinel ∙ f.sentinel;
          trail = h.trail;
          tree =
              Holds-agree t.cells t'.cells s q y
                (λ z o. h.leaves.cells z (ground (arith, f.once z, o))) f.tree;
          root = h.root;
          once = f.once;
          at_b = h.leaves.cells b (ground (arith, f.once b)) ∙ f.at_b;
          real = f.real;
          at_end = h.leaves.cells s (not_on t s hole up f.trail) ∙ f.at_end;
          end_black = f.end_black;
        }

-- An address on the trail is not the sentinel.
apart : (s z : Ptr) (f : Ptr → ℕ) → f s ≡ 0 → 1 ≤ f z → just s z ≡ 0
apart s z f out here = ground (arith, out, here)

-- The child names the parent `p`.
pub rehang :
    {s : Ptr} {bottom : Node} {t : Tree} {up : Trail} {b : Ptr} {nb : Node} {q hole : Ptr}
    (y : Shape) (p : Ptr)
    → Freed s bottom b nb q hole up y t
    → Returns
        (λ (u, t'). (bottom' : Node) × Freed s bottom' b nb p hole up y t' × Knows bottom' p y)
        (set_parent (top s y) p t)
unfolding set_parent
rehang {s} {bottom} {t} {up} {b} {nb} {q} {hole} leaf p f =
    Returns-weaken (modify-Leaves t s bottom (λ n. record n { parent = p }) f.at_end)
      λ (u, t') (leaves, root, now). (
        record bottom { parent = p },
        record {
          sentinel = leaves.sentinel ∙ f.sentinel;
          trail =
              OnTrail-agree t.cells t'.cells s hole up
                (λ z o.
                  leaves.cells z (apart s z (λ x. times_on x up) (not_on t s hole up f.trail) o))
                f.trail;
          tree = tt;
          root = root ∙ f.root;
          once = f.once;
          at_b = leaves.cells b (ground (arith, f.real)) ∙ f.at_b;
          real = f.real;
          at_end = now;
          end_black = f.end_black;
        },
        refl,
      )
rehang {s} {bottom} {t} {up} {b} {nb} {q} {hole} (node l a d r) p f =
    let other : (a == s) ≡ false = ground (arith, f.tree.0) in
    Returns-weaken
      (rw other at (reparent t s q p (node l a d r) f.tree (λ z. ground (arith, f.once z))))
      λ (u, t') (leaves, root, tree). (
        bottom,
        record {
          sentinel = leaves.sentinel ∙ f.sentinel;
          trail =
              OnTrail-agree t.cells t'.cells s hole up
                (λ z o. leaves.cells z (ground (arith, f.once z, o))) f.trail;
          tree = tree;
          root = root ∙ f.root;
          once = f.once;
          at_b = leaves.cells b (ground (arith, f.once b)) ∙ f.at_b;
          real = f.real;
          at_end = leaves.cells s (not_in t s q (node l a d r) f.tree) ∙ f.at_end;
          end_black = f.end_black;
        },
        tt,
      )

-- ===== src/Rbtree/Focus.antt =====
-- A tree held in the store, looked at from one of its places.
use middleware_development_d.Prelude.{
  Bool, not, ◌+◌, ◌≤◌, ◌≡◌, refl, ap, ◌∙◌, false, some, arith, ◌==◌, ok, Returns, Returns-weaken,
}
use middleware_development_d.Rbtree.Store.{
  load, is_red, black, red, Ptr, Node, Tree, modify, left, right, parent,
}
use middleware_development_d.Rbtree.Fields.{left_lem, right_lem, parent_lem}
use middleware_development_d.Rbtree.Shape.{Label, Shape, leaf, node, top, Holds}
use middleware_development_d.Rbtree.Trail.{
  Trail, start, in_left, in_right, times, times_on, above, root_at, linked, OnTrail, Holds-agree,
  OnTrail-agree,
}
use middleware_development_d.Rbtree.Steps.{modify-Leaves}

-- The tree `sh` hangs at the end of the trail `up`, in a tree with the sentinel `s`, whose cell is
-- `bottom`.
pub record Focus (s : Ptr) (bottom : Node) (t : Tree) (up : Trail) (sh : Shape) : Type 0 where
  pub sentinel : t.sentinel ≡ s
  pub trail : OnTrail t.cells s (top s sh) up
  pub tree : Holds t.cells s (above up) sh
  pub root : t.root ≡ root_at (top s sh) up
  pub once : (z : Ptr) → times z sh + times_on z up ≤ 1
  pub at_end : t.cells s ≡ some bottom
  pub end_black : bottom.color ≡ 0

-- The sentinel stands nowhere in a tree that is held, nor on a trail.
pub not_in : (t : Tree) (s up : Ptr) (sh : Shape) → Holds t.cells s up sh → times s sh ≡ 0
not_in t s up leaf h = refl
not_in t s up (node l a d r) (ne, at, hl, hr) = ground (arith, not_in t s a l hl, not_in t s a r hr)

pub not_on : (t : Tree) (s p : Ptr) (up : Trail) → OnTrail t.cells s p up → times_on s up ≡ 0
not_on t s p (start o) h = refl
not_on t s p (in_left up a d r) (ne, at, hr, hu) =
    ground (arith, not_in t s a r hr, not_on t s a up hu)
not_on t s p (in_right up l a d) (ne, at, hl, hu) =
    ground (arith, not_in t s a l hl, not_on t s a up hu)

-- Looking from another place changes nothing.
module _ {s : Ptr} {bottom : Node} {t : Tree} {up : Trail} {l r : Shape} {a : Ptr} {d : Label} where
  pub from_left : Focus s bottom t (in_left up a d r) l → Focus s bottom t up (node l a d r)
  from_left f = record {
    sentinel = f.sentinel;
    trail = f.trail.3;
    tree = (f.trail.0, f.trail.1, f.tree, f.trail.2);
    root = f.root;
    once = λ z. ground (arith, f.once z);
    at_end = f.at_end;
    end_black = f.end_black;
  }

  pub from_right : Focus s bottom t (in_right up l a d) r → Focus s bottom t up (node l a d r)
  from_right f = record {
    sentinel = f.sentinel;
    trail = f.trail.3;
    tree = (f.trail.0, f.trail.1, f.trail.2, f.tree);
    root = f.root;
    once = λ z. ground (arith, f.once z);
    at_end = f.at_end;
    end_black = f.end_black;
  }

  pub to_left : Focus s bottom t up (node l a d r) → Focus s bottom t (in_left up a d r) l
  to_left f = record {
    sentinel = f.sentinel;
    trail = (f.tree.0, f.tree.1, f.tree.3, f.trail);
    tree = f.tree.2;
    root = f.root;
    once = λ z. ground (arith, f.once z);
    at_end = f.at_end;
    end_black = f.end_black;
  }

  pub to_right : Focus s bottom t up (node l a d r) → Focus s bottom t (in_right up l a d) r
  to_right f = record {
    sentinel = f.sentinel;
    trail = (f.tree.0, f.tree.1, f.tree.2, f.trail);
    tree = f.tree.3;
    root = f.root;
    once = λ z. ground (arith, f.once z);
    at_end = f.at_end;
    end_black = f.end_black;
  }

  -- A new label for the node in view.
  pub relabel :
      (d' : Label) (g : Node → Node)
      → ((p x y : Ptr) → g (linked p d x y) ≡ linked p d' x y)
      → Focus s bottom t up (node l a d r)
      → Returns (λ (u, t'). Focus s bottom t' up (node l a d' r)) (modify a g t)
  relabel d' g same f =
      Returns-weaken (modify-Leaves t a (linked (above up) d (top s l) (top s r)) g f.tree.1)
        λ (u, t') (leaves, root, now). record {
          sentinel = leaves.sentinel ∙ f.sentinel;
          trail =
              OnTrail-agree t.cells t'.cells s a up
                (λ z o. leaves.cells z (ground (arith, f.once z))) f.trail;
          tree = (
            f.tree.0,
            now ∙ ap (λ n. some n) (same (above up) (top s l) (top s r)),
            Holds-agree t.cells t'.cells s a l (λ z o. leaves.cells z (ground (arith, f.once z)))
                f.tree.2,
            Holds-agree t.cells t'.cells s a r (λ z o. leaves.cells z (ground (arith, f.once z)))
                f.tree.3,
          );
          root = root ∙ f.root;
          once = λ z. ground (arith, f.once z);
          at_end = leaves.cells s (ground (arith, f.tree.0)) ∙ f.at_end;
          end_black = f.end_black;
        }

  pub black-Focus :
      Focus s bottom t up (node l a d r)
      → Returns (λ (u, t'). Focus s bottom t' up (node l a (record d { color = 0 }) r)) (black a t)
  unfolding black
  black-Focus f = relabel (record d { color = 0 }) (λ n. record n { color = 0 }) (λ p x y. refl) f

  pub red-Focus :
      Focus s bottom t up (node l a d r)
      → Returns (λ (u, t'). Focus s bottom t' up (node l a (record d { color = 1 }) r)) (red a t)
  unfolding red
  red-Focus f = relabel (record d { color = 1 }) (λ n. record n { color = 1 }) (λ p x y. refl) f

  pub reads_left : Focus s bottom t up (node l a d r) → left a t ≡ ok (top s l, t)
  reads_left f = left_lem t a (linked (above up) d (top s l) (top s r)) f.tree.1

  pub reads_right : Focus s bottom t up (node l a d r) → right a t ≡ ok (top s r, t)
  reads_right f = right_lem t a (linked (above up) d (top s l) (top s r)) f.tree.1

  pub reads_parent : Focus s bottom t up (node l a d r) → parent a t ≡ ok (above up, t)
  reads_parent f = parent_lem t a (linked (above up) d (top s l) (top s r)) f.tree.1

abbrev pub red_label : Label → Bool
red_label d = not (d.color == 0)

-- Whether the node on top of a tree is red; the sentinel is not.
abbrev pub red_top : Shape → Bool
red_top leaf = false
red_top (node l a d r) = red_label d

pub reads_red :
    {s : Ptr} {bottom : Node} {t : Tree} {up : Trail} (sh : Shape)
    → Focus s bottom t up sh
    → is_red (top s sh) t ≡ ok (red_top sh, t)
unfolding is_red
reads_red {s} {bottom} {t} leaf f =
    follow_load bottom f.at_end ∙ ap (λ c. ok (not (c == 0), t)) f.end_black
  where
    follow_load :
        {p : Ptr} (n : Node) → t.cells p ≡ some n → is_red p t ≡ ok (not (n.color == 0), t)
    follow_load n at = rw (at, load)
reads_red {s} {bottom} {t} (node l a d r) f = rw (f.tree.1, load)

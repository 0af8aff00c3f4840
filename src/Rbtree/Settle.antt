-- ===== src/Rbtree/Settle.antt =====
-- What a round of the loop of `ngx_rbtree_delete` reads, also at the sentinel, and a copied colour.
use middleware_development_d.Prelude.{
  ◌≡◌, refl, ap, ◌∙◌, Bool, true, false, ◌&&◌, not, ◌==◌, some, ok, Returns,
}
use middleware_development_d.Rbtree.Store.{Ptr, Node, Tree, parent, is_black, copy_color, load}
use middleware_development_d.Rbtree.Fields.{parent_lem, load_lem}
use middleware_development_d.Rbtree.Shape.{Label, Shape, leaf, node, top}
use middleware_development_d.Rbtree.Trail.{Trail, above}
use middleware_development_d.Rbtree.Steps.{follow_ok}
use middleware_development_d.Rbtree.Focus.{Focus, reads_parent, red_top, relabel}

-- The cell at the place knows its parent: a node does, and the sentinel when this was written to it.
abbrev pub Knows : Node → Ptr → Shape → Type 0
Knows bottom p leaf = bottom.parent ≡ p
Knows bottom p (node l a d r) = Unit {0}

pub reads_top_parent :
    {s : Ptr} {bottom : Node} {t : Tree} {up : Trail} (sh : Shape)
    → Focus s bottom t up sh
    → Knows bottom (above up) sh
    → parent (top s sh) t ≡ ok (above up, t)
reads_top_parent {s} {bottom} {t} leaf f knows =
    parent_lem t s bottom f.at_end ∙ ap (λ p. ok (p, t)) knows
reads_top_parent (node l a d r) f knows = reads_parent f

pub reads_black :
    {s : Ptr} {bottom : Node} {t : Tree} {up : Trail} (sh : Shape)
    → Focus s bottom t up sh
    → is_black (top s sh) t ≡ ok (not (red_top sh), t)
unfolding is_black
reads_black {s} {bottom} {t} leaf f = rw (f.at_end, load, f.end_black) refl
reads_black {s} {bottom} {t} (node l a d r) f =
    rw (f.tree.1, load) (ap (λ b. ok (b, t)) (twice (d.color == 0)))
  where
    twice : (b : Bool) → b ≡ not (not b)
    twice true = refl
    twice false = refl

abbrev pub colored : Label → Label → Label
colored e d = record e { color = d.color }

pub copy_color-Focus :
    {s : Ptr} {bottom : Node} {t : Tree} {up : Trail} {l r : Shape} {a : Ptr} {d : Label} (q : Ptr)
    (n : Node)
    → t.cells q ≡ some n
    → Focus s bottom t up (node l a d r)
    → Returns
        (λ (u, t'). Focus s bottom t' up (node l a (record d { color = n.color }) r))
        (copy_color a q t)
unfolding copy_color
copy_color-Focus {t} {d} q n at f =
    follow_ok _ (load_lem t q n at)
      (relabel (record d { color = n.color }) (λ m. record m { color = n.color }) (λ a x y. refl) f)

pub and_false : (x : Bool) → (x && false) ≡ false
and_false true = refl
and_false false = refl

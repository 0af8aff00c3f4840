-- ===== src/Rbtree/Trail.antt =====
-- A tree taken apart at one of its places: the part below it, a `Shape`, and the way up from it.
use middleware_development_d.Prelude.{
  ℕ, ◌+◌, ◌≤◌, ◌≡◌, ◌≢◌, false, ◌∙◌, Option, some, arith, ◌==◌, if◌then◌else◌,
}
use middleware_development_d.Rbtree.Store.{Ptr, Node}
use middleware_development_d.Rbtree.Shape.{Label, Shape, leaf, node, top, Holds}

-- At the root, with the parent that the root's cell names: NULL, or what the deletion of a root left
-- there. From a left child: the way up from its parent, and the parent with what is on its right. From
-- a right child likewise.
pub data Trail : Type 0 where
  start : Ptr → Trail
  in_left : Trail → Ptr → Label → Shape → Trail
  in_right : Trail → Shape → Ptr → Label → Trail

-- How often an address stands in a tree, and on a trail.
abbrev pub times : Ptr → Shape → ℕ
times q leaf = 0
times q (node l a d r) = (if q == a then 1 else 0) + (times q l + times q r)

abbrev pub times_on : Ptr → Trail → ℕ
times_on q (start o) = 0
times_on q (in_left up a d r) = (if q == a then 1 else 0) + (times q r + times_on q up)
times_on q (in_right up l a d) = (if q == a then 1 else 0) + (times q l + times_on q up)

-- The parent of the place, and the root when `p` stands at the place.
abbrev pub above : Trail → Ptr
above (start o) = o
above (in_left up a d r) = a
above (in_right up l a d) = a

abbrev pub root_at : Ptr → Trail → Ptr
root_at p (start o) = p
root_at p (in_left up a d r) = root_at a up
root_at p (in_right up l a d) = root_at a up

abbrev pub linked : Ptr → Label → Ptr → Ptr → Node
linked up d l r = record {
  key = d.key;
  left = l;
  right = r;
  parent = up;
  color = d.color;
  payload = d.payload;
}

-- The cells hold the trail, with `p` at its place.
abbrev pub OnTrail : (Ptr → Option Node) → Ptr → Ptr → Trail → Type 0
OnTrail cells s p (start o) = Unit {0}
OnTrail cells s p (in_left up a d r) =
    (a ≢ s)
    × (cells a ≡ some (linked (above up) d p (top s r)))
    × Holds cells s a r
    × OnTrail cells s a up
OnTrail cells s p (in_right up l a d) =
    (a ≢ s)
    × (cells a ≡ some (linked (above up) d (top s l) p))
    × Holds cells s a l
    × OnTrail cells s a up

-- Cells that agree on the addresses of a tree hold it alike, and so for a trail.
pub Holds-agree :
    (cells cells' : Ptr → Option Node) (s up : Ptr) (sh : Shape)
    → ((z : Ptr) → 1 ≤ times z sh → cells' z ≡ cells z)
    → Holds cells s up sh
    → Holds cells' s up sh
Holds-agree cells cells' s up leaf same h = tt
Holds-agree cells cells' s up (node l a d r) same (ne, at, hl, hr) = (
  ne,
  same a (ground arith) ∙ at,
  Holds-agree cells cells' s a l (λ z h. same z (ground arith)) hl,
  Holds-agree cells cells' s a r (λ z h. same z (ground arith)) hr,
)

pub OnTrail-agree :
    (cells cells' : Ptr → Option Node) (s p : Ptr) (up : Trail)
    → ((z : Ptr) → 1 ≤ times_on z up → cells' z ≡ cells z)
    → OnTrail cells s p up
    → OnTrail cells' s p up
OnTrail-agree cells cells' s p (start o) same h = tt
OnTrail-agree cells cells' s p (in_left up a d r) same (ne, at, hr, hu) = (
  ne,
  same a (ground arith) ∙ at,
  Holds-agree cells cells' s a r (λ z h. same z (ground arith)) hr,
  OnTrail-agree cells cells' s a up (λ z h. same z (ground arith)) hu,
)
OnTrail-agree cells cells' s p (in_right up l a d) same (ne, at, hl, hu) = (
  ne,
  same a (ground arith) ∙ at,
  Holds-agree cells cells' s a l (λ z h. same z (ground arith)) hl,
  OnTrail-agree cells cells' s a up (λ z h. same z (ground arith)) hu,
)

-- The root is the place itself or stands on the trail.
pub root_at-times :
    (p : Ptr) (up : Trail) → 1 ≤ (if root_at p up == p then 1 else 0) + times_on (root_at p up) up
root_at-times p (start o) = ground arith
root_at-times p (in_left up a d r) = ground (arith, root_at-times a up)
root_at-times p (in_right up l a d) = ground (arith, root_at-times a up)

-- An address that is not in a tree is not its top.
pub top_other : (s p : Ptr) (x : Shape) → p ≢ s → times p x ≡ 0 → (p == top s x) ≡ false
top_other s p leaf real out = ground arith
top_other s p (node l a d r) real out = ground (arith, out)

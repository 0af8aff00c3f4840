-- ===== src/Rbtree/Shape.antt =====
-- The tree that the nodes at their addresses form.
use middleware_development_d.Prelude.{
  ℕ, suc, ◌+◌, ◌≡◌, ◌≢◌, ◌∙◌, Bool, true, false, ◌||◌, some, Option, List, [], ◌∷◌, ◌++◌, arith,
  ◌==◌,
}
use middleware_development_d.Rbtree.Store.{Ptr, Node}

-- What a node holds besides its links.
pub record Label : Type 0 where
  pub key : ℕ
  pub color : ℕ
  pub payload : ℕ

pub data Shape : Type 0 where
  leaf : Shape
  node : Shape → Ptr → Label → Shape → Shape

abbrev pub size : Shape → ℕ
size leaf = 0
size (node l a d r) = suc (size l + size r)

-- Where a link to the tree leads; a link to nothing leads to the sentinel `s`.
abbrev pub top : Ptr → Shape → Ptr
top s leaf = s
top s (node l a d r) = a

abbrev pub has : Ptr → Shape → Bool
has q leaf = false
has q (node l a d r) = q == a || (has q l || has q r)

-- Addresses and keys in order, from left to right.
abbrev pub addresses : Shape → List Ptr
addresses leaf = []
addresses (node l a d r) = addresses l ++ a ∷ addresses r

abbrev pub keys : Shape → List ℕ
keys leaf = []
keys (node l a d r) = keys l ++ d.key ∷ keys r

abbrev pub cell : Ptr → Ptr → Shape → Label → Shape → Node
cell s up l d r = record {
  key = d.key;
  left = top s l;
  right = top s r;
  parent = up;
  color = d.color;
  payload = d.payload;
}

-- The cells hold the tree, below `up`.
abbrev pub Holds : (Ptr → Option Node) → Ptr → Ptr → Shape → Type 0
Holds cells s up leaf = Unit {0}
Holds cells s up (node l a d r) =
    (a ≢ s) × (cells a ≡ some (cell s up l d r)) × Holds cells s a l × Holds cells s a r

-- No address stands in the tree twice.
abbrev pub Distinct : Shape → Type 0
Distinct leaf = Unit {0}
Distinct (node l a d r) =
    (has a l ≡ false)
    × (has a r ≡ false)
    × ((q : Ptr) → has q l ≡ true → has q r ≡ false)
    × Distinct l
    × Distinct r

-- A tree is still held when none of its cells changed.
pub Holds-frame :
    (cells cells' : Ptr → Option Node) (s up : Ptr) (t : Shape)
    → Holds cells s up t
    → ((q : Ptr) → has q t ≡ true → cells' q ≡ cells q)
    → Holds cells' s up t
Holds-frame cells cells' s up leaf h same = tt
Holds-frame cells cells' s up (node l a d r) (ne, at, hl, hr) same = (
  ne,
  same a (ground arith) ∙ at,
  Holds-frame cells cells' s a l hl (λ q i. same q (ground arith)),
  Holds-frame cells cells' s a r hr (λ q i. same q (ground arith)),
)

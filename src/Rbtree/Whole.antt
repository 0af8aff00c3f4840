-- ===== src/Rbtree/Whole.antt =====
-- A whole red-black tree, and `ngx_rbtree_init`.
use middleware_development_d.Prelude.{
  ℕ, suc, ◌+◌, ◌≡◌, ◌≢◌, ◌≤◌, refl, ap, ◌∙◌, inl, inr, Bool, Bool-cases, false, List, [], ◌∷◌, ◌++◌,
  length, length-append, Option, some, arith, ◌==◌, if◌then◌else◌, Returns, returns,
}
use middleware_development_d.Rbtree.Store.{Ptr, null, Node, Tree, write, init, set_root, black}
use middleware_development_d.Rbtree.Shape.{Shape, leaf, node, size}
use middleware_development_d.Rbtree.Trail.{start, times, Holds-agree}
use middleware_development_d.Rbtree.Steps.{follow, modify-Leaves, write_other}
use middleware_development_d.Rbtree.Focus.{Focus, not_in, red_top}
use middleware_development_d.Rbtree.Balance.{Level, Calm, items}
use middleware_development_d.Rbtree.Order.{insert_item}

-- A red-black tree in the store, with the sentinel `s`, whose nodes carry these items in order.
pub record IsRbTree (s : Ptr) (t : Tree) (listed : List (Ptr × ℕ × ℕ)) : Type 0 where
  pub over : Ptr
  pub bottom : Node
  pub shape : Shape
  pub focus : Focus s bottom t (start over) shape
  pub level : Level shape
  pub calm : Calm shape
  pub black_root : red_top shape ≡ false
  pub same_items : items shape ≡ listed

-- How many of the items stand at an address.
abbrev pub count : Ptr → List (Ptr × ℕ × ℕ) → ℕ
count q [] = 0
count q (y ∷ ys) = (if q == y.0 then 1 else 0) + count q ys

pub count-append : (q : Ptr) (l r : List (Ptr × ℕ × ℕ)) → count q (l ++ r) ≡ count q l + count q r
count-append q [] r = omega arith
count-append q (y ∷ l) r = omega (arith, count-append q l r)

pub times-count : (q : Ptr) (sh : Shape) → times q sh ≡ count q (items sh)
times-count q leaf = refl
times-count q (node l a d r) = omega (
  arith,
  count-append q (items l) ((a, d.key, d.payload) ∷ items r),
  times-count q l,
  times-count q r,
)

pub size-items : (sh : Shape) → size sh ≡ length (items sh)
size-items leaf = refl
size-items (node l a d r) =
    omega
      (arith, length-append (items l) ((a, d.key, d.payload) ∷ items r), size-items l, size-items r)

pub length-insert_item :
    (less : ℕ → ℕ → Bool) (x : Ptr × ℕ × ℕ) (l : List (Ptr × ℕ × ℕ))
    → length (insert_item less x l) ≡ suc (length l)
length-insert_item less x [] = refl
length-insert_item less x (y ∷ l) = elim (Bool-cases (less x.1 y.1)) [
  | inl lower ↦ rw lower refl
  | inr higher ↦ rw higher (ap suc (length-insert_item less x l))
]

-- Over a memory that holds the sentinel, `ngx_rbtree_init` makes an empty red-black tree.
pub init-IsRbTree :
    (t : Tree) (s : Ptr) (n : Node)
    → t.cells s ≡ some n
    → Returns (λ (u, t'). IsRbTree s t' []) (init s t)
unfolding init black set_root
init-IsRbTree t s n at = follow _ (modify-Leaves t s n _ at) λ _ t₁ (l₁, r₁, c₁). returns (record {
  over = null;
  bottom = record n { color = 0 };
  shape = leaf;
  focus = record {
    sentinel = refl;
    trail = tt;
    tree = tt;
    root = refl;
    once = λ z. omega arith;
    at_end = c₁;
    end_black = refl;
  };
  level = tt;
  calm = tt;
  black_root = refl;
  same_items = refl;
})

-- A cell outside of the tree may change.
pub write-IsRbTree :
    (s : Ptr) (t : Tree) (listed : List (Ptr × ℕ × ℕ)) (z : Ptr) (c : Option Node)
    → IsRbTree s t listed
    → z ≢ s
    → count z listed ≡ 0
    → IsRbTree s (record t { cells = write t.cells z c }) listed
write-IsRbTree s t listed z c is real out =
    let absent : times z is.shape ≡ 0 = times-count z is.shape ∙ ap (count z) is.same_items ∙ out in
    record {
      over = is.over;
      bottom = is.bottom;
      shape = is.shape;
      focus = record {
        sentinel = is.focus.sentinel;
        trail = tt;
        tree =
            Holds-agree t.cells (write t.cells z c) s is.over is.shape
              (λ y o. write_other t.cells z y c (ground (arith, absent, o))) is.focus.tree;
        root = is.focus.root;
        once = is.focus.once;
        at_end = write_other t.cells z s c (ground (arith, real)) ∙ is.focus.at_end;
        end_black = is.focus.end_black;
      };
      level = is.level;
      calm = is.calm;
      black_root = is.black_root;
      same_items = is.same_items;
    }

out_real : (z s : Ptr) (f : Ptr → ℕ) → 1 ≤ f z → f s ≡ 0 → z ≢ s
out_real z s f inside out = ground (arith, inside, out)

-- A node's address is not the sentinel, and stands in the tree once.
module _ {s : Ptr} {t : Tree} {listed : List (Ptr × ℕ × ℕ)} (z : Ptr)
    (is : IsRbTree s t listed) where
  counted : times z is.shape ≡ count z listed
  counted = times-count z is.shape ∙ ap (count z) is.same_items

  pub count-once : count z listed ≤ 1
  count-once = omega (arith, counted, is.focus.once z)

  pub is_real : 1 ≤ count z listed → z ≢ s
  is_real inside =
      out_real z s (λ q. times q is.shape) (omega (arith, counted, inside))
        (not_in t s is.over is.shape is.focus.tree)

-- ===== src/PageCount/Insertion.antt =====
-- `ngx_http_pagecount_rbtree_insert_value` for an address that no node has: it does what
-- `ngx_rbtree_insert_value` does, and so it keeps a red-black tree.
use mathlib.Core.Path.{subst}
use middleware_development_d.Prelude.{
  ℕ, zero, suc, ◌<◌, ◌≡◌, ◌≢◌, ◌⊎◌, refl, sym, ap, ◌∙◌, inl, inr, true, false, Bool-cases, some,
  List, [], ◌∷◌, ◌++◌, length, arith, ltb, ◌==◌, Returns,
}
use middleware_development_d.Rbtree.Store.{
  Ptr, Node, Tree, ◌>>=◌, ◌>>◌, and_then, black, get_root, get_sentinel,
}
use middleware_development_d.Rbtree.Fields.{load_lem, key_lem, left_lem, right_lem}
use middleware_development_d.Rbtree.Shape.{Label, Shape, leaf, node, top, cell, Holds}
use middleware_development_d.Rbtree.Insert.{attach, descend, rebalance, insert, key_less}
use middleware_development_d.Rbtree.Balance.{items}
use middleware_development_d.Rbtree.Order.{insert_item, key_less-Order, Sorted}
use middleware_development_d.Rbtree.Inserts.{insert-IsRbTree}
use middleware_development_d.Rbtree.Whole.{IsRbTree, count}
use middleware_development_d.PageCount.{insert_value}

-- No client has this address.
abbrev pub Lacks : ℕ → List (Ptr × ℕ × ℕ) → Type 0
Lacks address [] = Unit {0}
Lacks address (y ∷ ys) = (y.1 ≢ address) × Lacks address ys

pub Lacks-parts :
    (address : ℕ) (l r : List (Ptr × ℕ × ℕ))
    → Lacks address (l ++ r)
    → Lacks address l × Lacks address r
Lacks-parts address [] r all = (tt, all)
Lacks-parts address (y ∷ l) r (other, all) =
    let (left, right) = Lacks-parts address l r all in ((other, left), right)

module _ (t : Tree) (z : Ptr) (n : Node) (at : t.cells z ≡ some n) (s : Ptr) where
  -- From a place on, the loops of both insertion functions do the same.
  abbrev Agrees : ℕ → Ptr → Type 0
  Agrees f a = insert_value f a z s t ≡ descend key_less f a z s t

  -- The loops end below a node, or go on and do the same.
  abbrev Ends : ℕ → Ptr → Type 0
  Ends f a = ((a == s) ≡ true) ⊎ (((a == s) ≡ false) × Agrees f a)

  Ends-top :
      (f : ℕ) (up : Ptr) (sh : Shape)
      → ((l : Shape) (a : Ptr) (d : Label) (r : Shape)
          → Holds t.cells s up (node l a d r)
          → Lacks n.key (items (node l a d r))
          → Agrees f a)
      → Holds t.cells s up sh
      → Lacks n.key (items sh)
      → Ends f (top s sh)
  Ends-top f up leaf next h new = inl (ground arith)
  Ends-top f up (node l a d r) next h new = inr (ground (arith, h.0), next l a d r h new)

  insert_value-descend :
      (f : ℕ) (up : Ptr) (l : Shape) (a : Ptr) (d : Label) (r : Shape)
      → Holds t.cells s up (node l a d r)
      → Lacks n.key (items (node l a d r))
      → Agrees f a
  unfolding insert_value descend attach
  insert_value-descend zero up l a d r h new = refl
  insert_value-descend (suc f) up l a d r (ne, here, hl, hr) new =
      let (low, (other, high)) =
        Lacks-parts n.key (items l) ((a, d.key, d.payload) ∷ items r) new in
      let c : Node = cell s up l d r in
      elim (Bool-cases (ltb n.key d.key)) [
        | inl less ↦ elim (Ends-top f a l (insert_value-descend f a) hl low) [
          | inl ends ↦ rw (
            key_lem t z n at,
            key_lem t a c here,
            load_lem t z n at,
            load_lem t a c here,
            less,
            left_lem t a c here,
            ends,
          )
          | inr (on, same) ↦
              rw
                (
                  key_lem t z n at,
                  key_lem t a c here,
                  load_lem t z n at,
                  load_lem t a c here,
                  less,
                  left_lem t a c here,
                  on,
                )
                same
        ]
        | inr no_less ↦
            let more : ltb d.key n.key ≡ true = ground (arith, no_less, other) in
            elim (Ends-top f a r (insert_value-descend f a) hr high) [
              | inl ends ↦ rw (
                key_lem t z n at,
                key_lem t a c here,
                load_lem t z n at,
                load_lem t a c here,
                no_less,
                more,
                right_lem t a c here,
                ends,
              )
              | inr (on, same) ↦
                  rw
                    (
                      key_lem t z n at,
                      key_lem t a c here,
                      load_lem t z n at,
                      load_lem t a c here,
                      no_less,
                      more,
                      right_lem t a c here,
                      on,
                    )
                    same
            ]
      ]

-- So does `ngx_rbtree_insert` with the one and with the other.
insert-insert_value :
    (fuel : ℕ) (t : Tree) (z : Ptr) (n : Node) (up : Ptr) (sh : Shape)
    → t.cells z ≡ some n
    → t.root ≡ top t.sentinel sh
    → Holds t.cells t.sentinel up sh
    → Lacks n.key (items sh)
    → insert fuel (insert_value fuel) z t ≡ insert fuel (descend key_less fuel) z t
unfolding insert get_root get_sentinel
insert-insert_value fuel t z n up sh at root h new =
    let below : Ends t z n at t.sentinel fuel (top t.sentinel sh) =
      Ends-top t z n at t.sentinel fuel up sh (insert_value-descend t z n at t.sentinel fuel up) h
        new in
    let here : Ends t z n at t.sentinel fuel t.root =
      subst (λ a. Ends t z n at t.sentinel fuel a) (sym root) below in
    elim here [
      | inl empty ↦ rw empty refl
      | inr (full, same) ↦
          rw full
            (ap (λ m. and_then m λ _. rebalance fuel z >> (get_root >>= λ root'. black root')) same)
    ]

-- In a red-black tree in the order of its addresses, of which the new one is none.
pub insert_value-IsRbTree :
    (fuel : ℕ) (s : Ptr) (t : Tree) (listed : List (Ptr × ℕ × ℕ)) (z : Ptr) (n : Node)
    → IsRbTree s t listed
    → Sorted key_less (λ k. Unit {0}) listed
    → Lacks n.key listed
    → t.cells z ≡ some n
    → z ≢ s
    → count z listed ≡ 0
    → length listed < fuel
    → Returns
        (λ (u, t').
          IsRbTree s t' (insert_item key_less (z, n.key, n.payload) listed)
          × Sorted key_less (λ k. Unit {0}) (insert_item key_less (z, n.key, n.payload) listed))
        (insert fuel (insert_value fuel) z t)
insert_value-IsRbTree fuel s t listed z n is sorted new at real out enough =
    let root : t.root ≡ top t.sentinel is.shape =
      is.focus.root ∙ ap (λ x. top x is.shape) (sym is.focus.sentinel) in
    rw
      (insert-insert_value fuel t z n is.over is.shape at root (rw is.focus.sentinel is.focus.tree)
        (rw is.same_items new))
      (insert-IsRbTree key_less key_less-Order fuel s t listed z n is sorted at real out tt enough)

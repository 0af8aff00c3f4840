-- ===== src/PageCount/Visits.antt =====
-- `ngx_http_pagecount_lookup`: which node is found, and what is counted.
use middleware_development_d.Prelude.{
  ℕ, zero, suc, ◌+◌, ◌%◌, ◌<◌, ◌≡◌, sym, ap, ◌∙◌, inl, inr, true, false, Bool-cases, Option, none,
  some, arith, ltb, ◌==◌, if◌then◌else◌, ok,
}
use middleware_development_d.Rbtree.Store.{Ptr, null, Node, Tree, M, write, get_root, get_sentinel}
use middleware_development_d.Rbtree.Fields.{key_lem, left_lem, right_lem, modify_lem}
use middleware_development_d.Rbtree.Shape.{Shape, leaf, node, size, top, cell, Holds}
use middleware_development_d.PageCount.{find, lookup, count_visit}

-- The node with this key on the way down a search tree.
abbrev pub seek : ℕ → Shape → Option Ptr
seek address leaf = none
seek address (node l a d r) =
    let below = seek address l in
    let above = seek address r in
    if ltb address d.key then below else if ltb d.key address then above else some a

pub find-seek :
    (f : ℕ) (address : ℕ) (t : Tree) (up : Ptr) (sh : Shape)
    → Holds t.cells t.sentinel up sh
    → size sh < f
    → find f address (top t.sentinel sh) t.sentinel t ≡ ok (seek address sh, t)
unfolding find
find-seek zero address t up sh h fuel = absurd (omega arith)
find-seek (suc f) address t up leaf h fuel =
    let e : (t.sentinel == t.sentinel) ≡ true = ground arith in rw e
find-seek (suc f) address t up (node l a d r) (ne, at, hl, hr) fuel =
    let other : (a == t.sentinel) ≡ false = ground arith in
    let n = cell t.sentinel up l d r in
    elim (Bool-cases (ltb address d.key)) [
      | inl less ↦
          rw (other, key_lem t a n at, less, left_lem t a n at)
            (find-seek f address t a l hl (omega arith))
      | inr no_less ↦ elim (Bool-cases (ltb d.key address)) [
        | inl more ↦
            rw (other, key_lem t a n at, no_less, more, right_lem t a n at)
              (find-seek f address t a r hr (omega arith))
        | inr same ↦ rw (other, key_lem t a n at, no_less, same)
      ]
    ]

-- What is found holds the key.
pub seek-cell :
    (address : ℕ) (cells : Ptr → Option Node) (s up : Ptr) (sh : Shape) (p : Ptr)
    → Holds cells s up sh
    → seek address sh ≡ some p
    → (n : Node) × (cells p ≡ some n) × (n.key ≡ address)
seek-cell address cells s up leaf p h e = absurd (not_some e)
  where
    not_some : none ≡ some p → ⊥
    not_some q = cc
seek-cell address cells s up (node l a d r) p (ne, at, hl, hr) e =
    elim (Bool-cases (ltb address d.key)) [
      | inl less ↦ seek-cell address cells s a l p hl (rw less at e)
      | inr no_less ↦ elim (Bool-cases (ltb d.key address)) [
        | inl more ↦ seek-cell address cells s a r p hr (rw (no_less, more) at e)
        | inr same ↦
            let here : some a ≡ some p = rw (no_less, same) at e in
            let equal : a ≡ p = cc in
            (cell s up l d r, ap cells (sym equal) ∙ at, omega (arith, no_less_lem no_less same))
      ]
    ]
  where
    no_less_lem : {x y : ℕ} → ltb x y ≡ false → ltb y x ≡ false → y ≡ x
    no_less_lem a b = ground arith

module _ (rbtree_insert : (Ptr → Ptr → Ptr → M (Unit {0})) → Ptr → M (Unit {0})) where
  -- When the client's address is found on the way down the tree, with rounds enough for the tree's
  -- size, `ngx_http_pagecount_lookup` raises the count of a node with that key by one, modulo 256,
  -- changes nothing else, and succeeds.
  pub lookup-known :
      (fuel : ℕ) (block : Option Ptr) (address : ℕ) (t : Tree) (sh : Shape) (p : Ptr)
      → t.root ≡ top t.sentinel sh
      → Holds t.cells t.sentinel null sh
      → size sh < fuel
      → seek address sh ≡ some p
      → (n : Node) × (t.cells p ≡ some n)
        × (n.key ≡ address)
        × (lookup rbtree_insert fuel block address t
            ≡ ok (
              true,
              record t {
                cells = write t.cells p (some (record n { payload = (n.payload + 1) % 256 }));
              },
            ))
  unfolding lookup get_root get_sentinel count_visit
  lookup-known fuel block address t sh p root h enough e =
      let (n, at, same) = seek-cell address t.cells t.sentinel null sh p h e in
      (n, at, same, runs n at)
    where
      runs :
          (n : Node)
          → t.cells p ≡ some n
          → lookup rbtree_insert fuel block address t
            ≡ ok (
              true,
              record t {
                cells = write t.cells p (some (record n { payload = (n.payload + 1) % 256 }));
              },
            )
      runs n at =
          let found : find fuel address t.root t.sentinel t ≡ ok (some p, t) =
            ap (λ x. find fuel address x t.sentinel t) root
            ∙ find-seek fuel address t null sh h enough
            ∙ ap (λ o. ok (o, t)) e in
          rw (found, modify_lem t p n at (λ m. record m { payload = (m.payload + 1) % 256 }))

-- ===== src/PageCount/Fresh.antt =====
-- `ngx_http_pagecount_lookup` for an address that was not seen before.
use middleware_development_d.Prelude.{
  ℕ, ◌<◌, ◌≡◌, ◌≢◌, refl, sym, ap, ◌∙◌, inl, inr, true, false, Bool-cases, none, some, List, ◌∷◌,
  length, arith, ltb, ok, Returns, returns,
}
use middleware_development_d.Rbtree.Store.{Ptr, Node, Tree, write, get_root, get_sentinel, set_key}
use middleware_development_d.Rbtree.Fields.{modify_lem}
use middleware_development_d.Rbtree.Shape.{Shape, leaf, node, top}
use middleware_development_d.Rbtree.Steps.{follow, follow_ok, write_same}
use middleware_development_d.Rbtree.Insert.{key_less, insert}
use middleware_development_d.Rbtree.Balance.{items}
use middleware_development_d.Rbtree.Order.{insert_item, Sorted}
use middleware_development_d.Rbtree.Whole.{IsRbTree, count, size-items, write-IsRbTree}
use middleware_development_d.PageCount.{find, lookup}
use middleware_development_d.PageCount.Visits.{seek, find-seek}
use middleware_development_d.PageCount.Insertion.{Lacks, Lacks-parts, insert_value-IsRbTree}

seek-none : (address : ℕ) (sh : Shape) → Lacks address (items sh) → seek address sh ≡ none
seek-none address leaf all = refl
seek-none address (node l a d r) all =
    let (left, (other, right)) =
      Lacks-parts address (items l) ((a, d.key, d.payload) ∷ items r) all in
    elim (Bool-cases (ltb address d.key)) [
      | inl less ↦ rw less (seek-none address l left)
      | inr no_less ↦ elim (Bool-cases (ltb d.key address)) [
        | inl more ↦ rw (no_less, more) (seek-none address r right)
        | inr same ↦ absurd (other (equal d.key address no_less same))
      ]
    ]
  where
    equal : (k a : ℕ) → ltb a k ≡ false → ltb k a ≡ false → k ≡ a
    equal k a p q = ground (arith, p, q)

module _ (fuel : ℕ) (s : Ptr) where
  module _ (address : ℕ) (t : Tree) (listed : List (Ptr × ℕ × ℕ)) (is : IsRbTree s t listed)
      (new : Lacks address listed) (enough : length listed < fuel) where
    finds_none : find fuel address t.root t.sentinel t ≡ ok (none, t)
    finds_none =
        let root : t.root ≡ top t.sentinel is.shape =
          is.focus.root ∙ ap (λ x. top x is.shape) (sym is.focus.sentinel) in
        ap (λ x. find fuel address x t.sentinel t) root
        ∙ find-seek fuel address t is.over is.shape (rw is.focus.sentinel is.focus.tree)
            (omega (arith, size-items is.shape, ap length is.same_items, enough))
        ∙ ap (λ o. ok (o, t)) (seek-none address is.shape (rw is.same_items new))

    -- In a red-black tree ordered by the addresses, for one that no client there has, with fuel for the
    -- tree's size, where nginx' `ngx_rbtree_insert` is as in `evnet/rbtree.c`: if the slab has no block,
    -- `ngx_http_pagecount_lookup` fails and changes nothing; with a block in memory that is neither in the
    -- tree nor its sentinel, it calls the insertion with the module's own
    -- `ngx_http_pagecount_rbtree_insert_value`, succeeds, and leaves a red-black tree in order with one more
    -- client, of this address and a count of 1.
    pub lookup-new :
        (z : Ptr) (n : Node)
        → Sorted key_less (λ k. Unit {0}) listed
        → t.cells z ≡ some n
        → z ≢ s
        → count z listed ≡ 0
        → (lookup (insert fuel) fuel none address t ≡ ok (false, t))
          × Returns
              (λ (done, t').
                (done ≡ true)
                × IsRbTree s t' (insert_item key_less (z, address, 1) listed)
                × Sorted key_less (λ k. Unit {0}) (insert_item key_less (z, address, 1) listed))
              (lookup (insert fuel) fuel (some z) address t)
    unfolding lookup get_root get_sentinel set_key
    lookup-new z n sorted at real out =
        let n₁ : Node = record n { key = address } in
        let n₂ : Node = record n₁ { payload = 1 } in
        let t₁ : Tree = record t { cells = write t.cells z (some n₁) } in
        let t₂ : Tree = record t₁ { cells = write t₁.cells z (some n₂) } in
        let is₂ : IsRbTree s t₂ listed =
          write-IsRbTree s t₁ listed z (some n₂) (write-IsRbTree s t listed z (some n₁) is real out)
            real out in
        (
          rw finds_none refl,
          follow_ok _ finds_none (
              follow_ok _ (modify_lem t z n at _) (
                follow_ok _ (modify_lem t₁ z n₁ (write_same t.cells z (some n₁)) _) (
                  follow _
                    (insert_value-IsRbTree fuel s t₂ listed z n₂ is₂ sorted new
                      (write_same t₁.cells z (some n₂)) real out enough)
                    λ _ t₃ (done, ordered). returns (refl, done, ordered)))),
        )

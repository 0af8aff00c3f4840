-- ===== src/Rbtree/Removes.antt =====
-- `ngx_rbtree_delete` as a whole.
use middleware_development_d.Prelude.{
  ℕ, suc, ◌+◌, ◌≤◌, ◌<◌, ◌≡◌, refl, sym, ap, Bool, true, List, [], ◌++◌, append-nil, length, arith,
  ◌==◌, ok, Returns, Returns-weaken,
}
use middleware_development_d.Rbtree.Store.{Ptr, Node, Tree, get_root}
use middleware_development_d.Rbtree.Shape.{Label, Shape, leaf, node, top, size}
use middleware_development_d.Rbtree.Delete.{choose, delete}
use middleware_development_d.Rbtree.Trail.{Trail, start, in_left, in_right, above}
use middleware_development_d.Rbtree.Steps.{follow_ok}
use middleware_development_d.Rbtree.Focus.{Focus, to_right}
use middleware_development_d.Rbtree.Rotations.{get_sentinel_lem}
use middleware_development_d.Rbtree.Balance.{whole, items, Focus-whole}
use middleware_development_d.Rbtree.Rebalance.{climbs}
use middleware_development_d.Rbtree.Settle.{colored}
use middleware_development_d.Rbtree.Order.{Sorted}
use middleware_development_d.Rbtree.Whole.{IsRbTree, count, times-count, size-items}
use middleware_development_d.Rbtree.Drop.{remove_item, items-without, remove_item-Sorted}
use middleware_development_d.Rbtree.Short.{Fitting}
use middleware_development_d.Rbtree.Unhang.{Freed, frees_left, frees_right}
use middleware_development_d.Rbtree.Spot.{Spot, find-Spot, climbs-whole}
use middleware_development_d.Rbtree.Spine.{
  Spine, hang, plug, Focus-plug, items-plug, node-Least, length-plug,
}
use middleware_development_d.Rbtree.Heir.{Heir, Heir-left, Heir-right}
use middleware_development_d.Rbtree.Removal.{removes_below, removes_root}
use middleware_development_d.Rbtree.Replaced.{below-hang, below_root, removes_inner}
use middleware_development_d.Rbtree.Choose.{choose_right, choose_left, choose_both}

module _ {s : Ptr} {bottom : Node} {t : Tree} (fuel : ℕ) where
  -- A node that leaves its own place.
  delete_one :
      (up : Trail) (z : Ptr) (d : Label) (y : Shape) (n : Node)
      → choose fuel z s t ≡ ok ((z, top s y), t)
      → n.parent ≡ above up
      → n.color ≡ d.color
      → Freed s bottom z n z z up y t
      → Heir up d y
      → climbs up < fuel
      → Returns (λ (u, t'). IsRbTree s t' (items (whole up y))) (delete fuel z t)
  unfolding delete get_root
  delete_one (start o) z d y n chosen knows color f heir enough =
      let root : (z == t.root) ≡ true = ground (arith, f.root) in
      follow_ok _ (get_sentinel_lem s t f.sentinel)
        (follow_ok _ chosen (rw root (removes_root z d y n f heir)))
  delete_one (in_left up p g x) z d y n chosen knows color f heir enough =
      follow_ok _ (get_sentinel_lem s t f.sentinel) (
        follow_ok _ chosen (
          rw (below_root (in_left up p g x) refl f)
            (removes_below fuel (in_left up p g x) z d y n _ refl knows color f heir enough)))
  delete_one (in_right up x p g) z d y n chosen knows color f heir enough =
      follow_ok _ (get_sentinel_lem s t f.sentinel) (
        follow_ok _ chosen (
          rw (below_root (in_right up x p g) refl f)
            (removes_below fuel (in_right up x p g) z d y n _ refl knows color f heir enough)))

  -- A node with two children.
  delete_both :
      (up : Trail) (z : Ptr) (d : Label) (ll : Shape) (a : Ptr) (g : Label) (lr : Shape)
      (ps : Spine) (b : Ptr) (e : Label) (y : Shape)
      → Focus s bottom t up (node (node ll a g lr) z d (plug ps (node leaf b e y)))
      → Fitting up (node (node ll a g lr) z d (plug ps (node leaf b e y)))
      → suc (climbs up) + length ps < fuel
      → Returns
          (λ (u, t').
            IsRbTree s t' (items (whole up (node (node ll a g lr) b (colored e d) (plug ps y)))))
          (delete fuel z t)
  unfolding delete get_root
  delete_both up z d ll a g lr ps b e y f fit enough =
      let w = in_right up (node ll a g lr) z d in
      let freed = frees_right (Focus-plug w ps (node leaf b e y) (to_right f)) in
      follow_ok _ (get_sentinel_lem s t f.sentinel) (
        follow_ok _ (choose_both fuel up ll a g lr ps b e y f (omega (arith, enough))) (
          rw (below_root (hang w ps) (below-hang w ps refl) freed)
            (removes_inner s b z e d (node ll a g lr) y up fuel ps f fit enough)))

counted_once :
    {s : Ptr} {bottom : Node} {t : Tree} (z : Ptr) (up : Trail) (sh : Shape)
    → Focus s bottom t up sh
    → count z (items (whole up sh)) ≤ 1
counted_once z up sh f = omega (arith, times-count z (whole up sh), (Focus-whole up sh f).once z)

-- The items of the tree without those of the node.
module _ {s : Ptr} {bottom : Node} {t : Tree} (fuel : ℕ) (up : Trail) (z : Ptr) (d : Label) where
  delete_plugged :
      (ll : Shape) (a : Ptr) (g : Label) (lr : Shape) (ps : Spine) (b : Ptr) (e : Label) (y : Shape)
      → Focus s bottom t up (node (node ll a g lr) z d (plug ps (node leaf b e y)))
      → Fitting up (node (node ll a g lr) z d (plug ps (node leaf b e y)))
      → climbs up + size (node (node ll a g lr) z d (plug ps (node leaf b e y))) ≤ fuel
      → Returns
          (λ (u, t'). IsRbTree s t' (
            remove_item z
              (items (whole up (node (node ll a g lr) z d (plug ps (node leaf b e y)))))))
          (delete fuel z t)
  delete_plugged ll a g lr ps b e y f fit enough =
      let l : Shape = node ll a g lr in
      let rest = ap (λ i. items l ++ i) (sym (items-plug ps b e y)) in
      rw
        (sym (
          items-without z d.key d.payload up (node l z d (plug ps (node leaf b e y)))
            (node l b (colored e d) (plug ps y)) (items l) (items (plug ps (node leaf b e y))) refl
            rest (counted_once z up _ f)))
        (delete_both fuel up z d ll a g lr ps b e y f fit
          (omega (arith, enough, length-plug ps (node leaf b e y))))

  delete_place :
      (l r : Shape)
      → Focus s bottom t up (node l z d r)
      → Fitting up (node l z d r)
      → climbs up + size (node l z d r) ≤ fuel
      → Returns
          (λ (u, t'). IsRbTree s t' (remove_item z (items (whole up (node l z d r)))))
          (delete fuel z t)
  delete_place leaf r f fit enough =
      rw
        (sym (
          items-without z d.key d.payload up (node leaf z d r) r [] (items r) refl refl
            (counted_once z up _ f)))
        (delete_one fuel up z d r _ (choose_right fuel up r f) refl refl (frees_right f)
          (Heir-right up z d r fit) (omega (arith, enough)))
  delete_place (node ll a g lr) leaf f fit enough =
      let l : Shape = node ll a g lr in
      rw
        (sym (
          items-without z d.key d.payload up (node l z d leaf) l (items l) [] refl
            (sym (append-nil (items l))) (counted_once z up _ f)))
        (delete_one fuel up z d l _ (choose_left fuel up ll a g lr f) refl refl (frees_left f)
          (Heir-left up z d l fit) (omega (arith, enough)))
  delete_place (node ll a g lr) (node rl c h rr) f fit enough =
      let low = node-Least rl c h rr in
      rw low.parts (
        delete_plugged ll a g lr low.ps low.b low.e low.y (rw low.parts at f) (rw low.parts at fit)
          (omega (arith, enough, ap size low.parts)))

delete-Spot :
    {s : Ptr} {bottom : Node} {t : Tree} (fuel : ℕ) (z : Ptr) (listed : List (Ptr × ℕ × ℕ))
    → Spot s bottom t z listed
    → length listed ≤ fuel
    → Returns (λ (u, t'). IsRbTree s t' (remove_item z listed)) (delete fuel z t)
delete-Spot fuel z listed spot enough =
    let sh : Shape = node spot.l z spot.d spot.r in
    rw (sym spot.same_items) (
      delete_place fuel spot.up z spot.d spot.l spot.r spot.focus spot.fit (
        omega (
          arith,
          climbs-whole spot.up sh,
          size-items (whole spot.up sh),
          ap length spot.same_items,
          enough,
        )))

-- In a red-black tree with its items in the order of a comparison, for the address of one of its nodes and
-- with fuel for the tree's size: `ngx_rbtree_delete` returns, and leaves a red-black tree with the other
-- items as they were, in their order.
pub delete-IsRbTree :
    (less : ℕ → ℕ → Bool) (In : ℕ → Type 0) (fuel : ℕ) (s : Ptr) (t : Tree)
    (listed : List (Ptr × ℕ × ℕ)) (z : Ptr)
    → IsRbTree s t listed
    → Sorted less In listed
    → 1 ≤ count z listed
    → length listed ≤ fuel
    → Returns
        (λ (u, t'). IsRbTree s t' (remove_item z listed) × Sorted less In (remove_item z listed))
        (delete fuel z t)
delete-IsRbTree less In fuel s t listed z is sorted inside enough =
    let fit : Fitting (start is.over) is.shape = record {
      level = is.level;
      calm = is.calm;
      fits = tt;
      calm_top = rw is.black_root refl;
    } in
    let found : Spot s is.bottom t z (items is.shape) =
      find-Spot z (start is.over) is.shape
        (omega (arith, times-count z is.shape, ap (count z) is.same_items, inside)) is.focus fit in
    Returns-weaken (delete-Spot fuel z listed (rw is.same_items at found) enough)
      λ (u, t') done. (done, remove_item-Sorted less In z listed sorted)

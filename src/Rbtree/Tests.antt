-- ===== src/Rbtree/Tests.antt =====
-- Runs of the tree operations.
use middleware_development_d.Prelude.{
  ℕ, zero, suc, ◌≡◌, ◌≢◌, refl, ap, arith, List, [], ◌∷◌, none, some, if◌then◌else◌, ◌==◌, Run, ok,
  fault, out_of_fuel, Returns,
}
use middleware_development_d.Rbtree.Store.{
  Ptr, Node, Tree, M, pure, ◌>>=◌, ◌>>◌, load, modify, init, get_root, set_root, get_sentinel, key,
  left, right, parent, is_red, is_black, set_left, set_right, set_parent, set_key, red, black,
  copy_color,
}
use middleware_development_d.Rbtree.Trail.{start}
use middleware_development_d.Rbtree.Focus.{Focus}
use middleware_development_d.Rbtree.Rotations.{left_rotate-Focus, right_rotate-Focus}
use middleware_development_d.Rbtree.Order.{key_less-Order, Sorted}
use middleware_development_d.Rbtree.Inserts.{insert-IsRbTree}
use middleware_development_d.Rbtree.Whole.{IsRbTree, init-IsRbTree}
use middleware_development_d.Rbtree.Removes.{delete-IsRbTree}
use middleware_development_d.Rbtree.Visits.{Visits, next_node-Visits}
use middleware_development_d.Rbtree.Rotate.{left_rotate, right_rotate}
use middleware_development_d.Rbtree.Walk.{min_node, next_node}
use middleware_development_d.Rbtree.Insert.{insert, key_less, insert_value, insert_timer_value}
use middleware_development_d.Rbtree.Delete.{delete}
use middleware_development_d.Rbtree.Shape.{Label, Shape, leaf, node, size}
use middleware_development_d.Rbtree.Leftmost.{First, min_node-First}

abbrev blank : ℕ → Node
blank k = record { key = k; left = 0; right = 0; parent = 0; color = 0; payload = 0 }

abbrev memory : Tree
memory = record { root = 0; sentinel = 9; cells = λ p. if p == 0 then none else some (blank p) }

steps : ℕ
unfolding load modify get_root set_root get_sentinel key left right parent is_red is_black set_left
    set_right set_parent set_key red black copy_color
steps = 20

insert_all : List Ptr → M (Unit {0})
unfolding insert insert_timer_value left_rotate right_rotate
insert_all [] = pure tt
insert_all (p ∷ ps) = do insert 20 (insert_timer_value 20) p; insert_all ps

walk : ℕ → Ptr → M (List Ptr)
unfolding next_node
walk zero p = pure []
walk (suc f) p = if p == 0 then pure [] else do q ← next_node 20 p; rest ← walk f q; pure (p ∷ rest)

listing : M (List Ptr)
unfolding walk get_root get_sentinel min_node
listing = do r ← get_root; s ← get_sentinel; m ← min_node 20 r s; walk 20 m

abbrev result : {A : Type 0} → Run (A × Tree) → Run A
result (ok (a, _)) = ok a
result fault = fault
result out_of_fuel = out_of_fuel

-- Eight nodes come out in the order of their keys, and so do the five left after three are deleted.
listing_all :
    result ((do init 9; insert_all (4 ∷ 1 ∷ 3 ∷ 2 ∷ 8 ∷ 7 ∷ 6 ∷ 5 ∷ []); listing) memory)
    ≡ ok (1 ∷ 2 ∷ 3 ∷ 4 ∷ 5 ∷ 6 ∷ 7 ∷ 8 ∷ [])
unfolding steps init insert_all listing
listing_all = refl

listing_rest :
    result (
      (do
        init 9
        insert_all (4 ∷ 1 ∷ 3 ∷ 2 ∷ 8 ∷ 7 ∷ 6 ∷ 5 ∷ [])
        delete 20 4
        delete 20 1
        delete 20 7
        listing)
        memory)
    ≡ ok (2 ∷ 3 ∷ 5 ∷ 6 ∷ 8 ∷ [])
unfolding steps init insert_all listing delete
listing_rest = refl

-- A node below the left of another.
abbrev two_cells : Tree
two_cells = record {
  root = 1;
  sentinel = 9;
  cells = λ p.
      if p == 1
      then some (record (blank 20) { left = 2; right = 9 })
      else (if p == 2 then some (record (blank 10) { left = 9; right = 9; parent = 1 }) else none);
}

abbrev two_shape : Shape
two_shape =
    node (node leaf 2 (record { key = 10; color = 0; payload = 0 }) leaf) 1
      (record { key = 20; color = 0; payload = 0 }) leaf

two_shape-ne : two_shape ≢ leaf
two_shape-ne e = absurd (omega (arith, ap size e))

lowest_found :
    (p : Ptr) × (k : ℕ) × (min_node 2 1 9 two_cells ≡ ok (p, two_cells))
    × First two_cells two_shape p k
lowest_found =
    min_node-First 2 two_cells 0 two_shape (omega arith, refl, (omega arith, refl, tt, tt), tt)
      two_shape-ne (omega arith)

-- A red node below the left of a black one, the sentinel, and a node to insert.
abbrev red_below : Tree
red_below = record {
  root = 1;
  sentinel = 9;
  cells = λ p.
      if p == 1
      then some (record (blank 20) { left = 2; right = 9 })
      else (if p == 2
          then some (record (blank 10) { left = 9; right = 9; parent = 1; color = 1 })
          else (if p == 3
              then some (record (blank 15) { color = 1 })
              else (if p == 9 then some (blank 0) else none)));
}

abbrev label : ℕ → ℕ → Label
label k c = record { key = k; color = c; payload = 0 }

red_below-Focus :
    Focus 9 (blank 0) red_below (start 0) (node (node leaf 2 (label 10 1) leaf) 1 (label 20 0) leaf)
red_below-Focus = record {
  sentinel = refl;
  trail = tt;
  tree = (omega arith, refl, (omega arith, refl, tt, tt), tt);
  root = refl;
  once = λ z. ground arith;
  at_end = refl;
  end_black = refl;
}

red_below-IsRbTree : IsRbTree 9 red_below ((2, 10, 0) ∷ (1, 20, 0) ∷ [])
red_below-IsRbTree = record {
  bottom = blank 0;
  over = 0;
  shape = node (node leaf 2 (label 10 1) leaf) 1 (label 20 0) leaf;
  focus = red_below-Focus;
  level = (refl, (refl, tt, tt), tt);
  calm = (refl, (refl, tt, tt), tt);
  black_root = refl;
  same_items = refl;
}

-- When the root is deleted and has one child, the new root's parent is still the deleted node.
parent_left : result ((do delete 2 1; r ← get_root; parent r) red_below) ≡ ok 1
unfolding steps delete
parent_left = refl

next_node-Visits_example : Visits 3 red_below (2 ∷ 1 ∷ [])
next_node-Visits_example =
    next_node-Visits 3 9 red_below ((2, 10, 0) ∷ (1, 20, 0) ∷ []) red_below-IsRbTree (omega arith)

empty-IsRbTree : Returns (λ (u, t'). IsRbTree 9 t' []) (init 9 memory)
empty-IsRbTree = init-IsRbTree memory 9 (blank 9) refl

insert-IsRbTree_example :
    Returns
      (λ (u, t').
        IsRbTree 9 t' ((2, 10, 0) ∷ (3, 15, 0) ∷ (1, 20, 0) ∷ [])
        × Sorted key_less (λ k. Unit {0}) ((2, 10, 0) ∷ (3, 15, 0) ∷ (1, 20, 0) ∷ []))
      (insert 3 (insert_value 3) 3 red_below)
unfolding insert_value
insert-IsRbTree_example =
    insert-IsRbTree key_less key_less-Order 3 9 red_below ((2, 10, 0) ∷ (1, 20, 0) ∷ []) 3
      (record (blank 15) { color = 1 }) red_below-IsRbTree (tt, (refl, tt), (tt, tt, tt)) refl
      (omega arith) refl tt (omega arith)

right_rotated :
    Returns
      (λ (u, t').
        Focus 9 (blank 0) t' (start 0) (node leaf 2 (label 10 1) (node leaf 1 (label 20 0) leaf)))
      (right_rotate 1 red_below)
right_rotated =
    right_rotate-Focus 9 (blank 0) 1 2 (label 20 0) (label 10 1) leaf leaf leaf (start 0) red_below
      red_below-Focus

-- A red node below the right of a black one.
abbrev leaning : Tree
leaning = record {
  root = 1;
  sentinel = 9;
  cells = λ p.
      if p == 1
      then some (record (blank 10) { left = 9; right = 2 })
      else (if p == 2
          then some (record (blank 20) { left = 9; right = 9; parent = 1; color = 1 })
          else (if p == 9 then some (blank 0) else none));
}

leaning-Focus :
    Focus 9 (blank 0) leaning (start 0) (node leaf 1 (label 10 0) (node leaf 2 (label 20 1) leaf))
leaning-Focus = record {
  sentinel = refl;
  trail = tt;
  tree = (omega arith, refl, tt, (omega arith, refl, tt, tt));
  root = refl;
  once = λ z. ground arith;
  at_end = refl;
  end_black = refl;
}

left_rotate-Focus_example :
    Returns
      (λ (u, t').
        Focus 9 (blank 0) t' (start 0) (node (node leaf 1 (label 10 0) leaf) 2 (label 20 1) leaf))
      (left_rotate 1 leaning)
left_rotate-Focus_example =
    left_rotate-Focus 9 (blank 0) 1 2 (label 10 0) (label 20 1) leaf leaf leaf (start 0) leaning
      leaning-Focus

-- Three black nodes; once the root is deleted, its right child stands in its place, and the loop runs.
abbrev three_shape : Shape
three_shape = node (node leaf 1 (label 10 0) leaf) 2 (label 20 0) (node leaf 3 (label 30 0) leaf)

abbrev three_black : Tree
three_black = record {
  root = 2;
  sentinel = 9;
  cells = λ p.
      if p == 1
      then some (record (blank 10) { left = 9; right = 9; parent = 2 })
      else (if p == 2
          then some (record (blank 20) { left = 1; right = 3 })
          else (if p == 3
              then some (record (blank 30) { left = 9; right = 9; parent = 2 })
              else (if p == 9 then some (blank 0) else none)));
}

three_black-IsRbTree : IsRbTree 9 three_black ((1, 10, 0) ∷ (2, 20, 0) ∷ (3, 30, 0) ∷ [])
three_black-IsRbTree = record {
  bottom = blank 0;
  over = 0;
  shape = three_shape;
  focus = record {
    sentinel = refl;
    trail = tt;
    tree = (omega arith, refl, (omega arith, refl, tt, tt), (omega arith, refl, tt, tt));
    root = refl;
    once = λ z. ground arith;
    at_end = refl;
    end_black = refl;
  };
  level = (refl, (refl, tt, tt), (refl, tt, tt));
  calm = (refl, (refl, tt, tt), (refl, tt, tt));
  black_root = refl;
  same_items = refl;
}

delete-IsRbTree_example :
    Returns
      (λ (u, t').
        IsRbTree 9 t' ((1, 10, 0) ∷ (3, 30, 0) ∷ [])
        × Sorted key_less (λ k. Unit {0}) ((1, 10, 0) ∷ (3, 30, 0) ∷ []))
      (delete 3 2 three_black)
delete-IsRbTree_example =
    delete-IsRbTree key_less (λ k. Unit {0}) 3 9 three_black
      ((1, 10, 0) ∷ (2, 20, 0) ∷ (3, 30, 0) ∷ []) 2 three_black-IsRbTree
      (tt, (refl, (refl, tt)), (tt, (refl, tt), (tt, tt, tt))) (omega arith) (omega arith)

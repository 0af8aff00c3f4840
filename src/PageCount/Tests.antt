-- ===== src/PageCount/Tests.antt =====
-- A visit to a concrete tree.
use middleware_development_d.Prelude.{
  ◌+◌, ◌%◌, [], ◌∷◌, ◌≡◌, refl, true, false, Returns, none, some, arith, ◌==◌, if◌then◌else◌, ok,
}
use middleware_development_d.Rbtree.Store.{
  Node, Tree, pure, write, get_root, get_sentinel, left, right, parent, load,
}
use middleware_development_d.Rbtree.Shape.{Shape, leaf, node}
use middleware_development_d.Rbtree.Walk.{min_node, next_node}
use middleware_development_d.PageCount.{lookup, encode_page}
use middleware_development_d.Rbtree.Insert.{insert, key_less}
use middleware_development_d.Rbtree.Order.{Sorted}
use middleware_development_d.Rbtree.Whole.{IsRbTree}
use middleware_development_d.PageCount.Fresh.{lookup-new}
use middleware_development_d.PageCount.Page.{encode_page-lines}
use middleware_development_d.PageCount.Visits.{lookup-known}

-- One client, with 255 visits.
abbrev visited : Tree
visited = record {
  root = 1;
  sentinel = 9;
  cells = λ p.
      if p == 1
      then some (record { key = 77; left = 9; right = 9; parent = 0; color = 0; payload = 255 })
      else none;
}

abbrev visited_shape : Shape
visited_shape = node leaf 1 (record { key = 77; color = 0; payload = 255 }) leaf

lookup-known_example :
    (n : Node) × (visited.cells 1 ≡ some n)
    × (n.key ≡ 77)
    × (lookup (λ _ _. pure tt) 2 none 77 visited
        ≡ ok (
          true,
          record visited {
            cells = write visited.cells 1 (some (record n { payload = (n.payload + 1) % 256 }));
          },
        ))
lookup-known_example =
    lookup-known (λ _ _. pure tt) 2 none 77 visited visited_shape 1 refl (omega arith, refl, tt, tt)
      (omega arith) refl

-- Two clients.
abbrev low : Node
low = record { key = 70; left = 9; right = 9; parent = 1; color = 1; payload = 3 }

abbrev high : Node
high = record { key = 77; left = 2; right = 9; parent = 0; color = 0; payload = 5 }

abbrev clients : Tree
clients = record {
  root = 1;
  sentinel = 9;
  cells = λ p. if p == 1 then some high else (if p == 2 then some low else none);
}

first_client : min_node 2 1 9 clients ≡ ok (2, clients)
unfolding min_node left load
first_client = refl

second_client : next_node 2 2 clients ≡ ok (1, clients)
unfolding next_node get_root get_sentinel left right parent load
second_client = refl

last_client : next_node 2 1 clients ≡ ok (0, clients)
unfolding next_node get_root get_sentinel left right parent load
last_client = refl

encode_page-lines_example :
    encode_page
      (next_node 2)
      (min_node 2)
      (λ address count. address ∷ count ∷ [])
      (1 ∷ [])
      (2 ∷ [])
      2
      clients
    ≡ ok (1 ∷ 70 ∷ 3 ∷ 77 ∷ 5 ∷ 2 ∷ [], clients)
encode_page-lines_example =
    encode_page-lines (next_node 2) clients (min_node 2) (λ address count. address ∷ count ∷ [])
      (1 ∷ []) (2 ∷ []) 2 2 low ((1, high) ∷ [])
      (refl, second_client, omega arith, (refl, last_client)) first_client (omega arith)

-- One client, the sentinel, and a block for another; nginx' insertion is that of `evnet/rbtree.c`.
abbrev spare : Tree
spare = record {
  root = 1;
  sentinel = 9;
  cells = λ p.
      if p == 1
      then some (record { key = 77; left = 9; right = 9; parent = 0; color = 0; payload = 5 })
      else (if p == 9
          then some (record { key = 0; left = 0; right = 0; parent = 0; color = 0; payload = 0 })
          else (if p == 3
              then some
                  (record { key = 0; left = 0; right = 0; parent = 0; color = 0; payload = 0 })
              else none));
}

spare-IsRbTree : IsRbTree 9 spare ((1, 77, 5) ∷ [])
spare-IsRbTree = record {
  bottom = record { key = 0; left = 0; right = 0; parent = 0; color = 0; payload = 0 };
  over = 0;
  shape = node leaf 1 (record { key = 77; color = 0; payload = 5 }) leaf;
  focus = record {
    sentinel = refl;
    trail = tt;
    tree = (omega arith, refl, tt, tt);
    root = refl;
    once = λ z. ground arith;
    at_end = refl;
    end_black = refl;
  };
  level = (refl, tt, tt);
  calm = (refl, tt, tt);
  black_root = refl;
  same_items = refl;
}

lookup-new_example :
    (lookup (insert 2) 2 none 70 spare ≡ ok (false, spare))
    × Returns
        (λ (done, t').
          (done ≡ true)
          × IsRbTree 9 t' ((3, 70, 1) ∷ (1, 77, 5) ∷ [])
          × Sorted key_less (λ k. Unit {0}) ((3, 70, 1) ∷ (1, 77, 5) ∷ []))
        (lookup (insert 2) 2 (some 3) 70 spare)
lookup-new_example =
    lookup-new 2 9 70 spare ((1, 77, 5) ∷ []) spare-IsRbTree (omega arith, tt) (omega arith) 3
      (record { key = 0; left = 0; right = 0; parent = 0; color = 0; payload = 0 }) (tt, tt, tt)
      refl (omega arith) refl

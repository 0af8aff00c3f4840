-- ===== src/Rbtree/Fields.antt =====
-- The commands on fields at an address that holds a node.
use middleware_development_d.Prelude.{◌≡◌, ◌==◌, not, some, ok}
use middleware_development_d.Rbtree.Store.{
  Ptr, Node, Tree, write, load, modify, key, left, right, parent, is_red,
}

module _ (t : Tree) (p : Ptr) (n : Node) (at : t.cells p ≡ some n) where
  pub load_lem : load p t ≡ ok (n, t)
  unfolding load
  load_lem = rw (at, load)

  pub key_lem : key p t ≡ ok (n.key, t)
  unfolding key
  key_lem = rw (at, load)

  pub left_lem : left p t ≡ ok (n.left, t)
  unfolding left
  left_lem = rw (at, load)

  pub right_lem : right p t ≡ ok (n.right, t)
  unfolding right
  right_lem = rw (at, load)

  pub parent_lem : parent p t ≡ ok (n.parent, t)
  unfolding parent
  parent_lem = rw (at, load)

  pub is_red_lem : is_red p t ≡ ok (not (n.color == 0), t)
  unfolding is_red
  is_red_lem = rw (at, load)

  pub modify_lem :
      (f : Node → Node) → modify p f t ≡ ok (tt, record t { cells = write t.cells p (some (f n)) })
  unfolding modify
  modify_lem f = rw (at, modify)

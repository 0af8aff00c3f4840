-- ===== src/Rbtree/Rotate.antt =====
-- `ngx_rbtree_left_rotate` and `ngx_rbtree_right_rotate`.
use middleware_development_d.Prelude.{◌==◌, if◌then◌else◌}
use middleware_development_d.Rbtree.Store.{
  Ptr, M, pure, ◌>>=◌, ◌>>◌, get_root, set_root, get_sentinel, left, right, parent, set_left,
  set_right, set_parent,
}

-- Puts `new` where `old` hangs: at the root, on the left or on the right of its parent. The two
-- rotations ask for the sides in opposite orders.
unfoldable pub relink_left_first : Ptr → Ptr → M (Unit {0})
relink_left_first old new = do
  root ← get_root
  if old == root then set_root new else do
    up ← parent old
    side ← left up
    if old == side then set_left up new else set_right up new

unfoldable pub relink_right_first : Ptr → Ptr → M (Unit {0})
relink_right_first old new = do
  root ← get_root
  if old == root then set_root new else do
    up ← parent old
    side ← right up
    if old == side then set_right up new else set_left up new

unfoldable pub left_rotate : Ptr → M (Unit {0})
unfolding relink_left_first
left_rotate node = do
  sentinel ← get_sentinel
  temp ← right node
  inner ← left temp
  set_right node inner
  (if inner == sentinel then pure tt else set_parent inner node)
  up ← parent node
  set_parent temp up
  relink_left_first node temp
  set_left temp node
  set_parent node temp

unfoldable pub right_rotate : Ptr → M (Unit {0})
unfolding relink_right_first
right_rotate node = do
  sentinel ← get_sentinel
  temp ← left node
  inner ← right temp
  set_left node inner
  (if inner == sentinel then pure tt else set_parent inner node)
  up ← parent node
  set_parent temp up
  relink_right_first node temp
  set_right temp node
  set_parent node temp

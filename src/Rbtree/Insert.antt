-- ===== src/Rbtree/Insert.antt =====
-- `ngx_rbtree_insert` with the two functions that it may call to place a node.
use middleware_development_d.Prelude.{
  ℕ, zero, suc, Bool, ltb, leb, ◌==◌, if◌then◌else◌, sub32, out_of_fuel,
}
use middleware_development_d.Rbtree.Store.{
  Ptr, null, M, pure, ◌>>=◌, ◌>>◌, load, get_root, set_root, get_sentinel, left, right, parent,
  is_red, set_left, set_right, set_parent, red, black,
}
use middleware_development_d.Rbtree.Rotate.{left_rotate, right_rotate}

-- `node->key < temp->key`
abbrev pub key_less : ℕ → ℕ → Bool
key_less = ltb

-- `(ngx_rbtree_key_int_t) (node->key - temp->key) < 0`, for a difference that wraps at 2^32.
abbrev pub timer_less : ℕ → ℕ → Bool
timer_less a b = leb 2147483648 (sub32 a b)

-- Hangs `node` below `temp`, with the sentinel on both sides, and makes it red.
unfoldable pub attach : Bool → Ptr → Ptr → Ptr → M (Unit {0})
attach on_left temp node sentinel = do
  (if on_left then set_left temp node else set_right temp node)
  set_parent node temp
  set_left node sentinel
  set_right node sentinel
  red node

module _ (less : ℕ → ℕ → Bool) where
  -- The loop of `ngx_rbtree_insert_value` and of `ngx_rbtree_insert_timer_value`, and what follows.
  unfoldable pub descend : ℕ → Ptr → Ptr → Ptr → M (Unit {0})
  unfolding attach
  descend zero temp node sentinel = λ _. out_of_fuel
  descend (suc f) temp node sentinel = do
    new ← load node
    old ← load temp
    let on_left = less new.key old.key
    let down = if on_left then old.left else old.right
    if down == sentinel then attach on_left temp node sentinel else descend f down node sentinel

unfoldable pub insert_value : ℕ → Ptr → Ptr → Ptr → M (Unit {0})
unfolding descend
insert_value = descend key_less

unfoldable pub insert_timer_value : ℕ → Ptr → Ptr → Ptr → M (Unit {0})
unfolding descend
insert_timer_value = descend timer_less

-- One round of the loop that restores the colours, where the parent of `node` is a left child. The
-- result is the node for the next round.
unfoldable pub fix_left : Ptr → Ptr → Ptr → M Ptr
unfolding left_rotate right_rotate
fix_left node up top = do
  uncle ← right top
  uncle_red ← is_red uncle
  if uncle_red then (do black up; black uncle; red top; pure top) else (do
    inner ← right up
    node' ← (if node == inner then (do left_rotate up; pure up) else pure node)
    up' ← parent node'
    black up'
    top' ← parent up'
    red top'
    right_rotate top'
    pure node')

-- The mirror image, where it is a right child.
unfoldable pub fix_right : Ptr → Ptr → Ptr → M Ptr
unfolding left_rotate right_rotate
fix_right node up top = do
  uncle ← left top
  uncle_red ← is_red uncle
  if uncle_red then (do black up; black uncle; red top; pure top) else (do
    inner ← left up
    node' ← (if node == inner then (do right_rotate up; pure up) else pure node)
    up' ← parent node'
    black up'
    top' ← parent up'
    red top'
    left_rotate top'
    pure node')

-- `while (node != *root && ngx_rbt_is_red(node->parent))`
unfoldable pub rebalance : ℕ → Ptr → M (Unit {0})
unfolding fix_left fix_right
rebalance zero node = λ _. out_of_fuel
rebalance (suc f) node = do
  root ← get_root
  if node == root then pure tt else do
    up ← parent node
    up_red ← is_red up
    if up_red
        then (do
          top ← parent up
          side ← left top
          node' ← (if up == side then fix_left node up top else fix_right node up top)
          rebalance f node')
        else pure tt

-- `insert` is `tree->insert`; `fuel` bounds the rounds of the loop.
unfoldable pub insert : ℕ → (Ptr → Ptr → Ptr → M (Unit {0})) → Ptr → M (Unit {0})
unfolding rebalance
insert fuel insert_fn node = do
  root ← get_root
  sentinel ← get_sentinel
  if root == sentinel
      then (do
        set_parent node null
        set_left node sentinel
        set_right node sentinel
        black node
        set_root node)
      else (do insert_fn root node sentinel; rebalance fuel node; root' ← get_root; black root')

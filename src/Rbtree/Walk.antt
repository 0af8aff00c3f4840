-- ===== src/Rbtree/Walk.antt =====
-- `ngx_rbtree_min` and `ngx_rbtree_next`. The loops take the rounds that they may run.
use middleware_development_d.Prelude.{ℕ, zero, suc, ◌==◌, if◌then◌else◌, out_of_fuel}
use middleware_development_d.Rbtree.Store.{
  Ptr, null, M, pure, ◌>>=◌, get_root, get_sentinel, left, right, parent,
}

unfoldable pub min_node : ℕ → Ptr → Ptr → M Ptr
min_node zero node sentinel = λ _. out_of_fuel
min_node (suc f) node sentinel = do
  down ← left node
  if down == sentinel then pure node else min_node f down sentinel

-- The upward loop of `ngx_rbtree_next`.
unfoldable pub climb : ℕ → Ptr → Ptr → M Ptr
climb zero root node = λ _. out_of_fuel
climb (suc f) root node = do
  up ← parent node
  if node == root
      then pure null
      else do side ← left up; if node == side then pure up else climb f root up

-- NULL if there is no next node.
unfoldable pub next_node : ℕ → Ptr → M Ptr
unfolding min_node climb
next_node f node = do
  sentinel ← get_sentinel
  down ← right node
  if down == sentinel then (do root ← get_root; climb f root node) else min_node f down sentinel

-- ===== src/Rbtree/Store.antt =====
-- The nodes at their addresses, and commands that read and write their fields.
use middleware_development_d.Prelude.{
  ℕ, Bool, not, Option, none, some, ◌==◌, if◌then◌else◌, Run, ok, fault, out_of_fuel,
}

abbrev pub Ptr : Type 0
Ptr = ℕ

abbrev pub null : Ptr
null = 0

-- `ngx_rbtree_node_t`. `key` is an `unsigned int`, `color` and `payload` (the field `data`) are
-- `u_char`.
pub record Node : Type 0 where
  pub key : ℕ
  pub left : Ptr
  pub right : Ptr
  pub parent : Ptr
  pub color : ℕ
  pub payload : ℕ

-- `ngx_rbtree_t` with the memory that its pointers lead to. The function `insert` is an argument of
-- `ngx_rbtree_insert` in the model.
pub record Tree : Type 0 where
  pub root : Ptr
  pub sentinel : Ptr
  pub cells : Ptr → Option Node

abbrev pub write : (Ptr → Option Node) → Ptr → Option Node → Ptr → Option Node
write cells p c q = if q == p then c else cells q

abbrev pub M : Type 0 → Type 0
M A = Tree → Run (A × Tree)

abbrev pub pure : {A : Type 0} → A → M A
pure a t = ok (a, t)

module _ {A B : Type 0} where
  abbrev pub and_then : Run (A × Tree) → (A → M B) → Run (B × Tree)
  and_then (ok (a, t)) k = k a t
  and_then fault k = fault
  and_then out_of_fuel k = out_of_fuel

  infixl 5 ◌>>=◌ ◌>>◌
  abbrev pub ◌>>=◌ : M A → (A → M B) → M B
  m >>= k = λ t. and_then (m t) k

  abbrev pub ◌>>◌ : M A → M B → M B
  m >> n = m >>= λ _. n

-- `*p`: a fault at an address that holds no node, NULL among them.
unfoldable pub load : Ptr → M Node
load p t = elim (t.cells p) [ none ↦ fault | some n ↦ ok (n, t) ]

unfoldable pub modify : Ptr → (Node → Node) → M (Unit {0})
modify p f t = elim (t.cells p) [
  | none ↦ fault
  | some n ↦ ok (tt, record t { cells = write t.cells p (some (f n)) })
]

unfoldable pub get_root : M Ptr
get_root t = ok (t.root, t)

unfoldable pub set_root : Ptr → M (Unit {0})
set_root p t = ok (tt, record t { root = p })

unfoldable pub get_sentinel : M Ptr
get_sentinel t = ok (t.sentinel, t)

unfoldable pub key : Ptr → M ℕ
unfolding load
key p = do n ← load p; pure n.key

unfoldable pub left : Ptr → M Ptr
unfolding load
left p = do n ← load p; pure n.left

unfoldable pub right : Ptr → M Ptr
unfolding load
right p = do n ← load p; pure n.right

unfoldable pub parent : Ptr → M Ptr
unfolding load
parent p = do n ← load p; pure n.parent

-- `ngx_rbt_is_red`
unfoldable pub is_red : Ptr → M Bool
unfolding load
is_red p = do n ← load p; pure (not (n.color == 0))

-- `ngx_rbt_is_black`
unfoldable pub is_black : Ptr → M Bool
unfolding load
is_black p = do n ← load p; pure (n.color == 0)

unfoldable pub set_left : Ptr → Ptr → M (Unit {0})
unfolding modify
set_left p q = modify p λ n. record n { left = q }

unfoldable pub set_right : Ptr → Ptr → M (Unit {0})
unfolding modify
set_right p q = modify p λ n. record n { right = q }

unfoldable pub set_parent : Ptr → Ptr → M (Unit {0})
unfolding modify
set_parent p q = modify p λ n. record n { parent = q }

unfoldable pub set_key : Ptr → ℕ → M (Unit {0})
unfolding modify
set_key p k = modify p λ n. record n { key = k }

-- `ngx_rbt_red`
unfoldable pub red : Ptr → M (Unit {0})
unfolding modify
red p = modify p λ n. record n { color = 1 }

-- `ngx_rbt_black`, and `ngx_rbtree_sentinel_init`
unfoldable pub black : Ptr → M (Unit {0})
unfolding modify
black p = modify p λ n. record n { color = 0 }

-- `ngx_rbt_copy_color(n1, n2)`
unfoldable pub copy_color : Ptr → Ptr → M (Unit {0})
unfolding load modify
copy_color p q = do n ← load q; modify p λ m. record m { color = n.color }

-- `ngx_rbtree_init` over a memory that holds the sentinel
unfoldable pub init : Ptr → M (Unit {0})
unfolding black set_root
init s = do black s; set_root s; λ t. ok (tt, record t { sentinel = s })

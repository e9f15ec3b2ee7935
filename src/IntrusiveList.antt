-- ===== src/IntrusiveList.antt =====
-- kernel/lib/kintrusive_list.c: circular doubly linked lists whose nodes lie inside other
-- structures. A list head is a node whose `previous` is NULL.
pub mod Chain
pub mod Ring
pub mod Store
use bsprakt_os.Base.{
  ℕ, zero, suc, Bool, true, not, ◌==◌, if◌then◌else◌, update, Outcome, ok, out_of_fuel, ◌>>=◌, ◌>>◌,
  verify, false,
}

abbrev pub Ptr : Type 0
Ptr = ℕ

abbrev pub null : Ptr
null = 0

-- `k_node`: the two fields of every node, by the node's address.
pub record Heap : Type 0 where
  pub previous : Ptr → Ptr
  pub next : Ptr → Ptr

abbrev pub set_next : Heap → Ptr → Ptr → Heap
set_next h p v = record h { next = update h.next p v }

abbrev pub set_previous : Heap → Ptr → Ptr → Heap
set_previous h p v = record h { previous = update h.previous p v }

unfoldable pub k_is_list_head : Heap → Ptr → Outcome Bool
k_is_list_head h n = do verify (not (n == null)); ok (h.previous n == null)

unfoldable pub k_is_list_node : Heap → Ptr → Outcome Bool
k_is_list_node h n = do
  verify (not (n == null))
  ok (if h.previous n == null then false else not (h.next n == null))

unfoldable pub k_is_list_empty : Heap → Ptr → Outcome Bool
k_is_list_empty h list = do head ← k_is_list_head h list; verify head; ok (h.next list == null)

unfoldable pub k_get_first_node : Heap → Ptr → Outcome Ptr
k_get_first_node h list = do
  head ← k_is_list_head h list
  verify head
  empty ← k_is_list_empty h list
  verify (not empty)
  node ← k_is_list_node h (h.next list)
  verify node
  ok (h.next list)

unfoldable pub k_get_last_node : Heap → Ptr → Outcome Ptr
k_get_last_node h list = do
  head ← k_is_list_head h list
  verify head
  empty ← k_is_list_empty h list
  verify (not empty)
  node ← k_is_list_node h (h.previous (h.next list))
  verify node
  ok (h.previous (h.next list))

unfoldable pub k_is_first_node : Heap → Ptr → Ptr → Outcome Bool
k_is_first_node h list n = do
  empty ← k_is_list_empty h list
  if empty then ok false else do first ← k_get_first_node h list; ok (first == n)

unfoldable pub k_is_last_node : Heap → Ptr → Ptr → Outcome Bool
k_is_last_node h list n = do
  empty ← k_is_list_empty h list
  if empty then ok false else do last ← k_get_last_node h list; ok (last == n)

-- The two writes of `k_connect_nodes`.
abbrev pub connect : Heap → Ptr → Ptr → Heap
connect h from to = set_previous (set_next h from to) to from

unfoldable pub k_connect_nodes : Heap → Ptr → Ptr → Outcome Heap
k_connect_nodes h from to = do
  from_node ← k_is_list_node h from
  verify from_node
  to_node ← k_is_list_node h to
  verify to_node
  ok (connect h from to)

-- The head of a list that loses its first node: NULL if that is the only one.
abbrev pub behead : Heap → Ptr → Ptr → Heap
behead h list n =
    if n == h.previous n
    then if n == h.next n then set_next h list null else set_next h list (h.next n)
    else set_next h list (h.next n)

unfoldable pub k_remove_node_from_list : Heap → Ptr → Ptr → Outcome Heap
k_remove_node_from_list h list n = do
  head ← k_is_list_head h list
  verify head
  node ← k_is_list_node h n
  verify node
  let h' = if h.next list == n then behead h list n else h
  h'' ← k_connect_nodes h' (h'.previous n) (h'.next n)
  k_connect_nodes h'' n n

-- Both `k_connect_nodes` calls at the end of `k_append_node_to_list`.
unfoldable pub link_after : Heap → Ptr → Ptr → Outcome Heap
link_after h list n = do h' ← k_connect_nodes h n (h.next list); k_connect_nodes h' list n

-- The head case of `k_append_node_to_list`: `n` becomes the first node.
unfoldable pub append_to_head : Heap → Ptr → Ptr → Outcome Heap
append_to_head h list n =
    if h.next list == null
    then ok (set_next h list n)
    else do last ← k_get_last_node h list; link_after (set_next h list n) last n

-- `list` is a head, or a node of a list behind which `n` is put.
unfoldable pub k_append_node_to_list : Heap → Ptr → Ptr → Outcome Heap
k_append_node_to_list h list n = do
  list_node ← k_is_list_node h list
  list_head ← k_is_list_head h list
  verify (if list_node then true else list_head)
  node ← k_is_list_node h n
  verify node
  verify (not (list == n))
  if list_head then append_to_head h list n else link_after h list n

-- The loop of `k_insert_sorted`, from the node `current`: the node before which `n` goes.
unfoldable pub insert_position : ℕ → Heap → Ptr → Ptr → (Ptr → Ptr → Bool) → Ptr → Outcome Ptr
insert_position zero h list n cmp current = out_of_fuel
insert_position (suc fuel) h list n cmp current =
    let rest = insert_position fuel h list n cmp (h.next current) in
    if not (cmp current n) then ok current else do
      first ← k_get_first_node h list
      if h.next current == first then ok (h.next current) else rest

unfoldable pub k_insert_sorted : ℕ → Heap → Ptr → Ptr → (Ptr → Ptr → Bool) → Outcome Heap
k_insert_sorted fuel h list n cmp = do
  head ← k_is_list_head h list
  verify head
  node ← k_is_list_node h n
  verify node
  if h.next list == null then ok (set_next h list n) else do
    current ← insert_position fuel h list n cmp (h.next list)
    link_after h (h.previous current) n

unfoldable pub k_transfer_list_node : Heap → Ptr → Ptr → Ptr → Outcome Heap
k_transfer_list_node h from to n = do
  h' ← k_remove_node_from_list h from n
  k_append_node_to_list h' to n

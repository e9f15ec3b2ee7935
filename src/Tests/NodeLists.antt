-- ===== src/Tests/NodeLists.antt =====
-- Runs of kernel/lib/kintrusive_list.c.
use bsprakt_os.Base.{◌≡◌, refl, [], ◌∷◌, arith, ok, leb}
use bsprakt_os.IntrusiveList.{Heap, k_remove_node_from_list, k_append_node_to_list, k_insert_sorted}
use bsprakt_os.IntrusiveList.Ring.{IsRing}
use bsprakt_os.IntrusiveList.Ring.Remove.{Removed, k_remove_node_from_list-erase}
use bsprakt_os.IntrusiveList.Ring.Append.{Added, k_append_node_to_list-cons}
use bsprakt_os.IntrusiveList.Ring.Insert.{k_insert_sorted-inserted}
use bsprakt_os.IntrusiveList.Ring.Order.{IsOrder}
use bsprakt_os.Tests.Scene.{singles, busy, busy-IsStore}

ready : IsRing (singles busy) 1 (18 ∷ [])
ready = busy-IsStore.rings 1 (omega arith, omega arith)

remove_example :
    (g : Heap) × (k_remove_node_from_list (singles busy) 1 18 ≡ ok g)
    × Removed (singles busy) 1 18 (18 ∷ []) g
remove_example = k_remove_node_from_list-erase 18 ready refl

append_first_example :
    (g : Heap) × (k_append_node_to_list (singles busy) 1 30 ≡ ok g)
    × Added (singles busy) 1 30 (18 ∷ []) (30 ∷ 18 ∷ []) g
append_first_example =
    k_append_node_to_list-cons 30 (refl, refl) (ground arith) (18 ∷ []) ready refl

insert_sorted_example :
    (g : Heap) × (k_insert_sorted 2 (singles busy) 1 30 leb ≡ ok g)
    × Added (singles busy) 1 30 (18 ∷ []) (18 ∷ 30 ∷ []) g
insert_sorted_example =
    k_insert_sorted-inserted leb 30 2 (18 ∷ []) ready refl (ground arith) (refl, refl) (omega arith)

leb-IsOrder : IsOrder leb
leb-IsOrder = record { total = λ a b e. ground arith; trans = λ a b c e f. ground arith }

-- ===== src/Tests/Dlist.antt =====
-- Lists of two and three nodes on a small heap.
use trollbot.Prelude.{ℕ, refl, true, [], ◌∷◌, none, some, arith, ◌==◌, if◌then◌else◌}
use trollbot.Store.{Ptr, null, node, Store, Cmd, pure}
use trollbot.Store.Returns.{Returns}
use trollbot.Store.Chain.{Cells, Points, nil, cons, IsList}
use trollbot.Dlist.{list_add, list_del}
use trollbot.Dlist.Add.{Added, list_add-Added}
use trollbot.Dlist.Del.{Deleted, list_del-Deleted}
use trollbot.Timer.{Timer}

-- The nodes 1, 2 and 3 in a list, and the node 7 on its own.
abbrev heap : {A : Type 0} → A → Store A
heap v a =
    if a == 1
    then some (node v 0 2)
    else if a == 2
    then some (node v 1 3)
    else if a == 3
    then some (node v 2 0)
    else if a == 7
    then some (node v 0 0)
    else none

abbrev three : {A : Type 0} → A → Cells A
three v = (1, v) ∷ (2, v) ∷ (3, v) ∷ []

pub heap-IsList : {A : Type 0} (v : A) → IsList (heap v) 1 (three v)
heap-IsList v =
    cons (record { ne_null = λ e. omega arith; holds = refl }) refl
      (cons (record { ne_null = λ e. omega arith; holds = refl }) refl
        (cons (record { ne_null = λ e. omega arith; holds = refl }) refl (nil refl)))

abbrev five : ℕ
five = 5

abbrev five_heap : Store ℕ
five_heap = heap five

fresh : Points five_heap 7 five null null
fresh = record { ne_null = λ e. omega arith; holds = refl }

list_add-Added_example : Returns (Added five_heap 7 five (three five)) (list_add 4 1 7 five_heap)
list_add-Added_example = list_add-Added 4 (heap-IsList five) fresh refl (omega arith)

list_del-Deleted_example :
    Returns (Deleted five_heap 3 five ((1, five) ∷ (2, five) ∷ []) []) (list_del 3 1 3 five_heap)
list_del-Deleted_example =
    list_del-Deleted 3 3 five ((1, five) ∷ (2, five) ∷ []) [] (heap-IsList five) (omega arith)

abbrev at_ten : Timer
at_ten = record { timer_id = 0; time_set = 4; time_trig = 10; has_handler = true }

abbrev no_op : Ptr → Cmd Timer (Unit {0})
no_op p = pure tt

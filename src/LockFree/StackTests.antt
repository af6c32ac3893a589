-- ===== src/LockFree/StackTests.antt =====
-- A push, and a pop that has counted down.
use mmoserver.Shared.{refl, none, some, [], ◌∷◌, arith}
use mmoserver.Families.{sum}
use mmoserver.LockFree.Top.{
  out, push_ptr, push_id, push_link, push_swap, pushed, pop_ptr, pop_id, read_push_ptr,
  read_push_id, link, push_win, read_pop_ptr,
}
use mmoserver.LockFree.Stack.{
  LockFreeStack, loop, push, push_count, pop_reserve, empty_stack, StackReach, start, later, go_on,
  new_node,
}
use mmoserver.LockFree.Data.{DataStack, DataReach, DataStep-AtomicStep, view, step}
use mmoserver.LockFree.Data as Data
use mmoserver.Calls.{AtomicStep, cons}
use mmoserver.Shared.{ℕ}
use mmoserver.Families.{assign}
use mmoserver.LockFree.Count.{IsBalanced}
use mmoserver.LockFree.Balance.{Reach-IsBalanced}

abbrev with_node : LockFreeStack
with_node = go_on (new_node empty_stack 3) 0 (push_ptr 3)

abbrev with_link : LockFreeStack
with_link =
    go_on (new_node (go_on (go_on with_node 0 (push_id 3 none)) 0 (push_link 3 none 0)) 3) 0
      (push_swap 3 none 0)

abbrev with_top : LockFreeStack
with_top =
    go_on
      (record with_link {
        top_check = record (with_link.top_check) { top_ptr = some 3; check_id = 1; nodes = 3 ∷ [] };
      })
      0 (pushed 3)

abbrev with_count : LockFreeStack
with_count = go_on (record with_top { added = 1 }) 0 out

abbrev in_pop : LockFreeStack
in_pop = go_on (go_on (record with_count { removed = 1 }) 1 pop_ptr) 1 (pop_id (some 3))

to_top : StackReach 2 with_top
unfolding sum
to_top =
    later
      (later
        (later
          (later (later start (push 0 3 (omega arith) refl refl))
            (loop 0 (omega arith) refl read_push_ptr))
          (loop 0 (omega arith) refl read_push_id))
        (loop 0 (omega arith) refl link))
      (loop 0 (omega arith) refl (push_win refl refl))

to_pop : StackReach 2 in_pop
to_pop =
    later
      (later (later to_top (push_count 0 3 (omega arith) refl))
        (pop_reserve 1 (omega arith) refl (omega arith)))
      (loop 1 (omega arith) refl read_pop_ptr)

Reach-IsBalanced_example : IsBalanced 2 in_pop
Reach-IsBalanced_example = Reach-IsBalanced to_pop

abbrev holding_five : LockFreeStack → DataStack ℕ
holding_five s = record { stack = s; m_data = assign (λ a. 0) 3 5 }

to_link : DataReach 2 (holding_five with_link)
unfolding sum
to_link =
    Data.later
      (Data.later
        (Data.later (Data.later (Data.start (λ a. 0)) (step 5 (push 0 3 (omega arith) refl refl)))
          (step 5 (loop 0 (omega arith) refl read_push_ptr)))
        (step 5 (loop 0 (omega arith) refl read_push_id)))
      (step 5 (loop 0 (omega arith) refl link))

DataStep-AtomicStep_example :
    AtomicStep cons 2 (view (holding_five with_link)) (view (holding_five with_top))
DataStep-AtomicStep_example =
    DataStep-AtomicStep to_link (step 5 (loop 0 (omega arith) refl (push_win refl refl)))

-- ===== src/LockFree/Destroy.antt =====
-- The destructors of FreeList and LockFreeStack, which have one loop (ServerCore/Memory/FreeList.h and
-- LockFreeStack.h).
use mmoserver.Shared.{
  ℕ, zero, suc, ◌<◌, ◌≡◌, Option, none, some, List, [], ◌∷◌, arith, length, ap, ◌∙◌,
}
use mmoserver.LockFree.Safety.{IsLinked}
use mmoserver.LockFree.Stack.{LockFreeStack, StackReach}
use mmoserver.LockFree.FreeList.{FreeList, Reach}
use mmoserver.LockFree.Balance.{Reach-IsBalanced}
use mmoserver.LockFree.Ownership.{Reach-IsOwned}

abbrev pub freed_first : ℕ → Option (List ℕ) → Option (List ℕ)
freed_first del_node none = none
freed_first del_node (some freed) = some (del_node ∷ freed)

-- The nodes that the loop gives back, in order; `none` when the fuel runs out.
unfoldable pub destroy : ℕ → (ℕ → Option ℕ) → Option ℕ → Option (List ℕ)
destroy zero next cur_node = none
destroy (suc fuel) next none = some []
destroy (suc fuel) next (some del_node) = freed_first del_node (destroy fuel next (next del_node))

destroy-IsLinked :
    (fuel : ℕ) (next : ℕ → Option ℕ) (t : Option ℕ) (l : List ℕ)
    → IsLinked next t l
    → length l < fuel
    → destroy fuel next t ≡ some l
unfolding destroy
destroy-IsLinked zero next t l h enough = absurd (omega arith)
destroy-IsLinked (suc fuel) next t [] h enough = ap (destroy (suc fuel) next) h
destroy-IsLinked (suc fuel) next t (a ∷ l) h enough =
    ap (destroy (suc fuel) next) h.0
    ∙ ap (freed_first a) (destroy-IsLinked fuel next (next a) l h.1 (omega arith))

-- In every reachable state the destructor of a LockFreeStack, with fuel above the number of nodes, gives
-- back each node of the stack once, from the top on.
pub destroy_stack_lem :
    {n : ℕ} {s : LockFreeStack} (fuel : ℕ)
    → StackReach n s
    → length s.top_check.nodes < fuel
    → destroy fuel s.top_check.next s.top_check.top_ptr ≡ some s.top_check.nodes
destroy_stack_lem {n} {s} fuel r enough =
    destroy-IsLinked fuel s.top_check.next s.top_check.top_ptr s.top_check.nodes
      (Reach-IsBalanced r).safe.linked enough

-- In every reachable state the destructor of a FreeList, with fuel above the number of blocks in it,
-- frees each block of the list once, from the top on.
pub destroy_list_lem :
    {n : ℕ} {s : FreeList} (fuel : ℕ)
    → Reach n s
    → length s.top.nodes < fuel
    → destroy fuel s.top.next s.top.top_ptr ≡ some s.top.nodes
destroy_list_lem {n} {s} fuel r enough =
    destroy-IsLinked fuel s.top.next s.top.top_ptr s.top.nodes (Reach-IsOwned r).safe.linked enough

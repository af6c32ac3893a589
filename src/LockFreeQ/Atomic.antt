-- ===== src/LockFreeQ/Atomic.antt =====
-- LockFreeQ as a queue whose EnQ and DeQ act at once (ServerCore/Memory/LockFreeQ.h).
use mmoserver.Shared.{
  refl, ℕ, ◌<◌, ◌≡◌, List, [], ◌∷◌, ◌++◌, arith, sym, ap, ◌∙◌, subst, fun_ext, append-nil,
}
use mmoserver.Calls.{
  Call, outside, putting, put, taking, took, refused, crashed, Act, begin_put, put_in, end_put,
  begin_take, take_front, end_take, refuse, end_refuse, full, crash_put, crash_take, wait, snoc,
  Atomic, AtomicStep, act, gained,
}
use mmoserver.Families.{assign, assign-elim}
use mmoserver.LockFreeQ.Defs.{
  Memory, Phase, idle, enq_fill, enq_tag, enq_stamp, enq_ptr, enq_id, enq_cas1, enq_help,
  enq_help_id, enq_help_cas, enq_linked, enq_cas2, enq_count, enq_crashed, deq_fail, deq_ptr,
  deq_id, deq_next, deq_data, deq_cas, deq_free, deq_crashed, without_first,
}
use mmoserver.LockFreeQ.System.{
  System, Move, step, Step, enq_full, help_null, next_null, alloc, fill, cas1_win, help_win,
  cas2_win, count, reserve, fall_short, restore, deq_win, deq_return, Reach, uses, Step, enq_full,
  alloc, fill, cas1_win, help_win, cas2_win,
}
use mmoserver.LockFreeQ.Shape.{contents, contents-assign, contents-some, contents-append}
use mmoserver.LockFreeQ.Local.{Inv, IsCurrent}
use mmoserver.LockFreeQ.Nodes.{carried}
use mmoserver.LockFreeQ.Moves.{cas1_found, help_found, deq_found}
use mmoserver.LockFreeQ.Fifo.{Reach-Inv}

-- The call that a thread in EnQ or DeQ is in.
abbrev pub call : {A : Type 0} → Phase A → Call A
call idle = outside
call (enq_fill d x) = putting d
call (enq_tag d x) = putting d
call (enq_stamp d x k) = putting d
call (enq_ptr d x k) = putting d
call (enq_id d x k p) = putting d
call (enq_cas1 d x k p c) = putting d
call (enq_help d x k p c) = putting d
call (enq_help_id d x k p c q) = putting d
call (enq_help_cas d x k p c q c') = putting d
call (enq_linked x p c) = put
call (enq_cas2 x p c c') = put
call enq_count = put
call enq_crashed = crashed
call deq_fail = refused
call deq_ptr = taking
call (deq_id p) = taking
call (deq_next p i) = taking
call (deq_data p i q) = taking
call (deq_cas p i q v) = taking
call (deq_free p v) = took v
call deq_crashed = crashed

-- The items in the nodes behind the front.
abbrev pub items : {A : Type 0} → Memory A → List A
items m = contents m.content m.nodes m.extra

abbrev pub view : {A : Type 0} → System A → Atomic A
view s = record { held = items s.memory; calls = λ i. call (s.phase i) }

module _ {A : Type 0} {blank : A} {max_count n : ℕ} {m : Memory A} {phase : ℕ → Phase A}
    (inv : Inv n m phase) (i : ℕ) (lt : i < n) where
  -- A step of a thread is one of its call.
  pub Move-Act :
      {p p' : Phase A} {m' : Memory A}
      → Move blank max_count (λ x. uses x n m phase ≡ 0) m p m' p'
      → phase i ≡ p
      → IsCurrent m p
      → Act snoc (items m) (call p) (items m') (call p')
  Move-Act (enq_full h) e c = full
  Move-Act (alloc {d} x room unused) e c =
      subst (λ l. Act snoc (items m) outside l (putting d))
        (sym (contents-assign m.content x blank m.nodes m.extra (ground arith))) begin_put
  Move-Act (fill {d} {x}) e c =
      subst (λ l. Act snoc (items m) (putting d) l (putting d))
        (sym (
          contents-assign m.content x d m.nodes m.extra
            (omega (arith, carried inv i lt x (ground arith)))))
        wait
  Move-Act (cas1_win {d} {x} f) e c =
      subst (λ l. Act snoc (items m) (putting d) l put)
        (ap (λ o. contents m.content m.nodes o ++ d ∷ []) (cas1_found inv f c).1
          ∙ sym (contents-some m.content x d m.nodes c.0.0))
        put_in
  Move-Act (help_win {d} {q = q} f g) e c =
      subst (λ l. Act snoc (items m) (putting d) l (putting d))
        (ap (contents m.content m.nodes) (help_found inv f g c).0
          ∙ sym (contents-append m.content q m.nodes))
        wait
  Move-Act (cas2_win {x} f g) e c =
      subst (λ l. Act snoc (items m) put l put)
        (ap (contents m.content m.nodes) (c.1 g).1 ∙ sym (contents-append m.content x m.nodes)) wait
  Move-Act (help_null f) e c = crash_put
  Move-Act count e c = end_put
  Move-Act (reserve h) e c = begin_take
  Move-Act (fall_short h) e c = refuse
  Move-Act restore e c = end_refuse
  Move-Act (next_null f) e c = crash_take
  Move-Act (deq_win {q = q} {v} f g) e c =
      let ((l, is), holds) = deq_found inv i lt f g e c in
      subst (λ k. Act snoc (items m) taking (contents m.content (without_first k) m.extra) (took v))
        (sym is)
        (take_front (
          ap (λ k. contents m.content k m.extra) is
          ∙ ap (λ w. w ∷ contents m.content l m.extra) holds))
  Move-Act deq_return e c = end_take
  Move-Act mv e c = wait

pub Move-gained :
    {A : Type 0} {blank : A} {max_count : ℕ} {unused : ℕ → Type 0} {m m' : Memory A}
    {p p' : Phase A}
    → Move blank max_count unused m p m' p'
    → m'.enqueued ≡ m.enqueued ++ gained (call p) (call p')
Move-gained (cas1_win f) = refl
Move-gained {m = m} mv = sym (append-nil m.enqueued)

-- In every reachable state of a LockFreeQ a step of a thread is a step of the atomic queue, for the
-- same thread and the items in the nodes behind the front: EnQ puts its item at the back in one step
-- between its first and its last one, DeQ in one step takes the item at the front, which it returns,
-- and all other steps leave the items alone.
pub Step-AtomicStep :
    {A : Type 0} {blank : A} {max_count n : ℕ} {s t : System A}
    → Reach blank max_count n s
    → Step blank max_count n s t
    → AtomicStep snoc n (view s) (view t)
Step-AtomicStep {n = n} {s} r (step {p} {p'} {m} i lt e mv) =
    let inv = Reach-Inv _ _ _ r in
    subst (λ calls. AtomicStep snoc n (view s) (record { held = items m; calls = calls }))
      (fun_ext (λ j.
        assign-elim (λ q. assign (λ k. call (s.phase k)) i (call p') j ≡ call q) s.phase i j p'
          (λ k. ground arith) (λ k. ground arith)))
      (act i lt (
        subst (λ q. Act snoc (items s.memory) (call q) (items m) (call p')) (sym e)
          (Move-Act inv i lt mv e (subst (IsCurrent s.memory) e (inv.current i lt)))))

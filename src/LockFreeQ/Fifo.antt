-- ===== src/LockFreeQ/Fifo.antt =====
-- LockFreeQ as it is to its users (ServerCore/Memory/LockFreeQ.h).
use mmoserver.Shared.{ℕ, ◌≤◌, ◌<◌, ◌≡◌, ◌∷◌, ◌++◌, arith, refl, List, subst, sym, ◌∙◌, ap}
use mmoserver.Families.{sum-eq-zero}
use mmoserver.LockFreeQ.Defs.{node, idle, deq_cas}
use mmoserver.LockFreeQ.System.{carries, uses, System, step, init, Reach, start, later}
use mmoserver.LockFreeQ.Shape.{contents, IsPath}
use mmoserver.LockFreeQ.Local.{IsCurrent, stamping, Inv, reserved, failing, linking, IsSized}
use mmoserver.LockFreeQ.Order.{Move-Inv}
use mmoserver.LockFreeQ.Nodes.{some_node}
use mmoserver.LockFreeQ.Defs.{deq_cas}

module _ {A : Type 0} (blank : A) (max_count n : ℕ) where
  init-Inv : Inv n (init blank max_count n).memory (init blank max_count n).phase
  init-Inv = record {
    shape = record {
      path = refl;
      tail = refl;
      rear_seen = omega arith;
      tails = λ p k e seen. ground arith;
      unique = λ p q k e f. ground arith;
      bounded = λ p k e. ground arith;
      seen_bounded = λ k seen. ground arith;
      fifo = refl;
    };
    single = λ a. ground (arith, sum-eq-zero (carries {A = A} a) n (λ i. idle) (λ i. refl));
    stamped = λ t. ground (arith, sum-eq-zero (stamping {A = A} t) n (λ i. idle) (λ i. refl));
    current = λ i lt. tt;
    sizes = omega (
      arith,
      sum-eq-zero (reserved {A = A}) n (λ i. idle) (λ i. refl),
      sum-eq-zero (failing {A = A}) n (λ i. idle) (λ i. refl),
      sum-eq-zero (linking {A = A}) n (λ i. idle) (λ i. refl),
    );
    linker = λ more. absurd (more refl);
  }

  pub Reach-Inv : {s : System A} → Reach blank max_count n s → Inv n s.memory s.phase
  Reach-Inv start = init-Inv
  Reach-Inv (later r (step i lt e mv)) = Move-Inv (Reach-Inv r) i lt mv e

-- The queue as it is to its users.
pub record IsFifo {A : Type 0} (n : ℕ) (s : System A) : Type 0 where
  pub linked : IsPath s.memory.next s.memory.rear_ptr s.memory.front_ptr s.memory.nodes
  pub order :
      s.memory.enqueued
      ≡ s.memory.dequeued ++ contents s.memory.content s.memory.nodes s.memory.extra
  pub single : (a : ℕ) → uses a n s.memory s.phase ≤ 1
  pub sizes : IsSized n s.memory s.phase

module _ {A : Type 0} {blank : A} {max_count n : ℕ} {s : System A}
    (r : Reach blank max_count n s) where
  -- In every reachable state of threads in EnQ and DeQ of a LockFreeQ the nodes are linked from the
  -- front to the rear; the items that successful exchanges of EnQ put in are those that successful
  -- exchanges of DeQ took out and behind them those in the nodes behind the front, in order; each node
  -- is in one place, the queue or one thread's hands; and the number of the nodes behind the front is
  -- the count, plus one for each thread that has counted an item down and not taken it out, found the
  -- count too low and not restored it, or linked a node and not counted it.
  pub Reach-IsFifo : IsFifo n s
  Reach-IsFifo =
      let inv = Reach-Inv blank max_count n r in
      record {
        linked = inv.shape.path;
        order = inv.shape.fifo;
        single = inv.single;
        sizes = inv.sizes;
      }

  -- In every reachable state a thread in DeQ that has counted an item down finds one: the nodes behind
  -- the front up to the rear are not none, and the front node leads to the first of them; and when its
  -- exchange is about to succeed, the data that it read is the oldest item of the queue.
  pub dequeue_ready :
      (i : ℕ)
      → i < n
      → reserved (s.phase i) ≡ 1
      → (q : ℕ) × (l : List ℕ) × (s.memory.nodes ≡ q ∷ l)
        × (s.memory.next s.memory.front_ptr ≡ node q)
        × ((t : ℕ) (v : A)
            → s.phase i ≡ deq_cas s.memory.front_ptr s.memory.front_id t v
            → (t ≡ q) × (v ≡ s.memory.content q))
  dequeue_ready i lt one =
      let inv = Reach-Inv blank max_count n r in
      let (q, l, is, at) = some_node inv i lt one in
      (
        q,
        l,
        is,
        at,
        λ t v e.
            let now = subst (IsCurrent s.memory) e (inv.current i lt) in
            let (leads, holds) = now.1 refl refl in
            let same : t ≡ q = cc in (same, sym holds ∙ ap s.memory.content same),
      )

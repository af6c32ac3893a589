-- ===== src/LockFreeQ/Writes.antt =====
-- The shared writes of EnQ and DeQ, at the nodes of a LockFreeQ (ServerCore/Memory/LockFreeQ.h).
use mmoserver.Shared.{
  ℕ, ◌+◌, ◌≤◌, ◌≡◌, ◌≢◌, none, some, List, [], ◌∷◌, ◌++◌, ◌==◌, if◌then◌else◌, arith, Option-cases,
  subst, sym, inl, ◌∙◌, inr, ap, ◌⊎◌, append_assoc, ◌<◌,
}
use mmoserver.Families.{assign, occurrences}
use mmoserver.LockFreeQ.Defs.{Link, null, tag, node, Memory, without_first}
use mmoserver.LockFreeQ.System.{set_rear, stands_behind}
use mmoserver.LockFreeQ.Shape.{
  List-cases, IsPath, contents, IsSeen, IsFreshTag, IsTail, in_queue, Shape, last_in, IsPath-assign,
  IsPath-append, contents-some, contents-append, IsTail-assign,
}

module _ {A : Type 0} {m : Memory A} (shape : Shape m) where
  pub in_memory : ℕ → ℕ
  in_memory y = in_queue y m.front_ptr m.nodes m.extra

  -- The first exchange succeeds only at the rear node, while none is behind it.
  pub cas1_at :
      (p : ℕ) (c : Link)
      → m.next p ≡ c
      → IsSeen m.seen c
      → (m.rear_ptr ≡ p) × (m.extra ≡ none) × (m.rear_check ≡ c)
  cas1_at p null e seen = elim seen [ ]
  cas1_at p (node _) e seen = elim seen [ ]
  cas1_at p (tag k) e seen =
      let (same, alone) = shape.tails p k e seen in
      (
        same,
        alone,
        sym (subst (IsTail m.next m.seen m.rear_ptr m.rear_check) alone shape.tail)
            ∙ ap m.next same
            ∙ e,
      )

  pub behind_rear : (q : ℕ) → m.next m.rear_ptr ≡ node q → m.extra ≡ some q
  behind_rear q e = elim (Option-cases m.extra) [
    | inl alone ↦
        let seen : IsSeen m.seen (node q) =
          subst (IsSeen m.seen)
            (sym (subst (IsTail m.next m.seen m.rear_ptr m.rear_check) alone shape.tail) ∙ e)
            shape.rear_seen in
        absurd seen
    | inr (x, is) ↦
        let at : m.next m.rear_ptr ≡ node x =
          (subst (IsTail m.next m.seen m.rear_ptr m.rear_check) is shape.tail).0 in
        is ∙ ap some (cc)
  ]

  pub at_extra :
      (q : ℕ) (c : Link)
      → m.extra ≡ some q
      → m.next q ≡ c
      → (m.next m.rear_ptr ≡ node q)
        × ((k : ℕ) × (c ≡ tag k) × (m.next q ≡ tag k) × (occurrences k m.seen ≡ 0))
  at_extra q c e f =
      let t = subst (IsTail m.next m.seen m.rear_ptr m.rear_check) e shape.tail in
      (t.0, (t.1.0, sym f ∙ t.1.1, t.1.1, t.1.2))

  module _ (x : ℕ) (aside : in_queue x m.front_ptr m.nodes m.extra ≡ 0) where
    pub rear_aside : x ≢ m.rear_ptr
    rear_aside e = ground (arith, aside, last_in m.next m.rear_ptr m.front_ptr x m.nodes shape.path)

    -- A node that is not in the queue is written.
    pub write_Shape :
        (w : Link) (content : ℕ → A)
        → (w ≡ null)
          ⊎ ((k : ℕ) × (w ≡ tag k)
              × (occurrences k m.seen ≡ 0)
              × (k ≤ m.rear_id)
              × ((p : ℕ) → m.next p ≢ tag k))
        → contents content m.nodes m.extra ≡ contents m.content m.nodes m.extra
        → Shape (record m { next = assign m.next x w; content = content })
    write_Shape w content plain same = record {
      path =
          IsPath-assign m.next m.rear_ptr m.front_ptr x w m.nodes shape.path (omega (arith, aside));
      tail =
          IsTail-assign m.next m.seen m.rear_ptr m.rear_check x w m.extra shape.tail rear_aside
            (omega (arith, aside));
      rear_seen = shape.rear_seen;
      tails = λ p k e seen. elim plain [
        | inl is ↦ ground (arith, shape.tails p k)
        | inr (l, is, fresh, below, alone) ↦ ground (arith, shape.tails p k)
      ];
      unique = λ p q k e f. elim plain [
        | inl is ↦ ground (arith, shape.unique p q k)
        | inr (l, is, fresh, below, alone) ↦ ground (arith, shape.unique p q k, alone p, alone q)
      ];
      bounded = λ p k e. elim plain [
        | inl is ↦ ground (arith, shape.bounded p k)
        | inr (l, is, fresh, below, alone) ↦ ground (arith, shape.bounded p k)
      ];
      seen_bounded = shape.seen_bounded;
      fifo = shape.fifo ∙ ap (λ t. m.dequeued ++ t) (sym same);
    }

  -- A node is linked behind the rear node.
  pub link_Shape :
      (x : ℕ) (d : A)
      → in_queue x m.front_ptr m.nodes m.extra ≡ 0
      → (if m.front_ptr == m.rear_ptr then 1 else 0) + occurrences m.rear_ptr m.nodes ≤ 1
      → m.extra ≡ none
      → IsFreshTag m.next m.seen x
      → m.content x ≡ d
      → Shape (record m {
        next = assign m.next m.rear_ptr (node x);
        extra = some x;
        enqueued = m.enqueued ++ d ∷ [];
      })
  link_Shape x d aside once alone (k, tagged, fresh) holds = record {
    path =
        IsPath-assign m.next m.rear_ptr m.front_ptr m.rear_ptr (node x) m.nodes shape.path
          (ground arith);
    tail = (ground arith, (k, ground (arith, rear_aside x aside), fresh));
    rear_seen = shape.rear_seen;
    tails = λ p k e seen. ground (arith, shape.tails p k);
    unique = λ p q k e f. ground (arith, shape.unique p q k);
    bounded = λ p k e. ground (arith, shape.bounded p k);
    seen_bounded = shape.seen_bounded;
    fifo =
        ap (λ t. t ++ d ∷ []) shape.fifo
        ∙ append_assoc m.dequeued (contents m.content m.nodes m.extra) (d ∷ [])
        ∙ ap (λ t. m.dequeued ++ t)
            (ap (λ e. contents m.content m.nodes e ++ d ∷ []) alone
              ∙ sym (contents-some m.content x d m.nodes holds));
  }

  -- The rear goes on to the node behind it.
  pub rear_Shape : (q : ℕ) (c : Link) → m.extra ≡ some q → m.next q ≡ c → Shape (set_rear m q c)
  rear_Shape q c e f =
      let (at, (k, is, tagged, fresh)) = at_extra q c e f in
      rw is (record {
        path = IsPath-append m.next m.rear_ptr m.front_ptr q m.nodes shape.path at;
        tail = tagged;
        rear_seen = ground arith;
        tails = λ p l g seen. ground (arith, shape.tails p l, shape.unique p q l);
        unique = shape.unique;
        bounded = shape.bounded;
        seen_bounded = λ l seen. ground (arith, shape.seen_bounded l, shape.bounded q l);
        fifo =
            shape.fifo
            ∙ ap (λ t. m.dequeued ++ t)
                (ap (contents m.content m.nodes) e ∙ sym (contents-append m.content q m.nodes));
      })

  -- The front goes on to the next node.
  pub front_Shape :
      (i q : ℕ) (v : A)
      → (l : List ℕ) → m.nodes ≡ q ∷ l
      → m.content q ≡ v
      → Shape (record m {
        front_ptr = q;
        front_id = i;
        nodes = without_first m.nodes;
        dequeued = m.dequeued ++ v ∷ [];
      })
  front_Shape i q v l is holds = record {
    path =
        subst (IsPath m.next m.rear_ptr q) (sym (ap without_first is))
          (subst (IsPath m.next m.rear_ptr m.front_ptr) is shape.path).1;
    tail = shape.tail;
    rear_seen = shape.rear_seen;
    tails = shape.tails;
    unique = shape.unique;
    bounded = shape.bounded;
    seen_bounded = shape.seen_bounded;
    fifo =
        shape.fifo
        ∙ ap (λ t. m.dequeued ++ contents m.content t m.extra) is
        ∙ ap (λ u. m.dequeued ++ u ∷ contents m.content l m.extra) holds
        ∙ sym (append_assoc m.dequeued (v ∷ []) (contents m.content l m.extra))
        ∙ ap (λ t. (m.dequeued ++ v ∷ []) ++ contents m.content t m.extra)
            (sym (ap without_first is));
  }

  pub fill_Shape :
      (content : ℕ → A)
      → contents content m.nodes m.extra ≡ contents m.content m.nodes m.extra
      → Shape (record m { content = content })
  fill_Shape content same = record {
    path = shape.path;
    tail = shape.tail;
    rear_seen = shape.rear_seen;
    tails = shape.tails;
    unique = shape.unique;
    bounded = shape.bounded;
    seen_bounded = shape.seen_bounded;
    fifo = shape.fifo ∙ ap (λ t. m.dequeued ++ t) (sym same);
  }

  pub count_Shape :
      (rear_id added removed : ℕ)
      → m.rear_id ≤ rear_id
      → Shape (record m { rear_id = rear_id; added = added; removed = removed })
  count_Shape rear_id added removed le = record {
    path = shape.path;
    tail = shape.tail;
    rear_seen = shape.rear_seen;
    tails = shape.tails;
    unique = shape.unique;
    bounded = λ p k e. omega (arith, shape.bounded p k e);
    seen_bounded = λ k seen. omega (arith, shape.seen_bounded k seen);
    fifo = shape.fifo;
  }

  pub tag_fresh :
      (x k : ℕ)
      → in_queue x m.front_ptr m.nodes m.extra ≡ 0
      → m.next x ≡ tag k
      → occurrences k m.seen ≡ 0
  tag_fresh x k aside e = ground (arith, shape.tails x k e, rear_aside x aside)

  -- The node behind the front is in the queue.
  pub next_in :
      (q : ℕ) → m.next m.front_ptr ≡ node q → 0 < occurrences q m.nodes + stands_behind q m.extra
  next_in q e = elim (List-cases m.nodes) [
    | inr (a, l, is) ↦
        let at : m.next m.front_ptr ≡ node a =
          (subst (IsPath m.next m.rear_ptr m.front_ptr) is shape.path).0 in
        ground arith
    | inl empty ↦
        let one : m.front_ptr ≡ m.rear_ptr =
          subst (IsPath m.next m.rear_ptr m.front_ptr) empty shape.path in
        ground (arith, behind_rear q (ap m.next (sym one) ∙ e))
  ]

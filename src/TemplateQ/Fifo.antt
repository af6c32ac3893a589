-- ===== src/TemplateQ/Fifo.antt =====
-- The list of the items that a TemplateQ holds (ServerCore/Network/TemplateQ.h).
use mmoserver.Shared.{
  ℕ, zero, suc, ◌+◌, ◌%◌, ◌<◌, ◌≡◌, List, [], ◌∷◌, ◌++◌, arith, length, refl, some, none, ◌⊎◌,
  ℕ_discrete, inl, ◌-◌, sym, ap, inr, ◌∙◌,
}
use mmoserver.Families.{assign}
use mmoserver.TemplateQ.{
  TemplateQ, buffer_size, get_used_size, get_free_size, get_used_size_between, dequeue, enqueue,
  get_free_size_between, clear_buffer,
}

module _ {ℓ} {A : Type ℓ} where
  -- The `n` items behind position `front`.
  abbrev pub items : (ℕ → A) → ℕ → ℕ → List A
  items values front zero = []
  items values front (suc n) =
      values ((front + 1) % buffer_size) ∷ items values ((front + 1) % buffer_size) n

  abbrev pub contents : TemplateQ A → List A
  contents q = items q.data_array q.front (get_used_size q)

  pub record IsValid (q : TemplateQ A) : Type ℓ where
    pub front_in : q.front < buffer_size
    pub rear_in : q.rear < buffer_size

  length-items : (values : ℕ → A) (front n : ℕ) → length (items values front n) ≡ n
  length-items values front zero = refl
  length-items values front (suc n) =
      ground (arith, length-items values ((front + 1) % buffer_size) n)

  -- One more item behind fewer than 499.
  items-assign :
      (values : ℕ → A) (x : A) (front n : ℕ)
      → front < buffer_size
      → n + 1 < buffer_size
      → items (assign values ((front + n + 1) % buffer_size) x) front (n + 1)
        ≡ items values front n ++ x ∷ []
  items-assign values x front zero h lt = ground arith
  items-assign values x front (suc n) h lt =
      ground (arith, items-assign values x ((front + 1) % buffer_size) n)

  used-free : (q : TemplateQ A) → IsValid q → get_used_size q + get_free_size q + 1 ≡ buffer_size
  unfolding get_used_size get_free_size
  used-free q v = ground arith

  used_lem :
      (q : TemplateQ A)
      → IsValid q
      → (get_used_size q < buffer_size) × ((q.front + get_used_size q) % buffer_size ≡ q.rear)
  unfolding get_used_size
  used_lem q v = ground arith

  length-contents : (q : TemplateQ A) → length (contents q) ≡ get_used_size q
  length-contents q = length-items q.data_array q.front (get_used_size q)

  used_of :
      (q : TemplateQ A) (n : ℕ)
      → q.front < buffer_size
      → n < buffer_size
      → q.rear ≡ (q.front + n) % buffer_size
      → get_used_size q ≡ n
  unfolding get_used_size
  used_of q n h lt e = ground arith

  -- What a queue with less than 499 items does on `Enqueue`.
  pub record Enqueued (q : TemplateQ A) (x : A) : Type ℓ where
    pub after : TemplateQ A
    pub returns : enqueue q x ≡ some after
    pub valid : IsValid after
    pub appended : contents after ≡ contents q ++ x ∷ []

  -- `Enqueue` puts the item behind the others when there are fewer than 499 of them, and else
  -- refuses it.
  pub enqueue_lem :
      (q : TemplateQ A) (x : A)
      → IsValid q
      → ((length (contents q) ≡ buffer_size - 1) × (enqueue q x ≡ none))
        ⊎ ((length (contents q) < buffer_size - 1) × Enqueued q x)
  unfolding enqueue
  enqueue_lem q x v = elim (ℕ_discrete ((q.rear + 1) % buffer_size) q.front) [
    | yes full ↦ inl (ground (arith, length-contents q, used_lem q v), ground arith)
    | no room ↦
        let few : get_used_size q + 1 < buffer_size = ground (arith, used_lem q v) in
        let rear : (q.rear + 1) % buffer_size ≡ (q.front + get_used_size q + 1) % buffer_size =
          omega (arith, used_lem q v) in
        let after : TemplateQ A = record q {
          rear = (q.rear + 1) % buffer_size;
          data_array = assign q.data_array ((q.rear + 1) % buffer_size) x;
        } in
        let more : get_used_size after ≡ get_used_size q + 1 =
          used_of after (get_used_size q + 1) v.front_in few (omega (arith, used_lem q v)) in
        inr (
          omega (arith, length-contents q, few),
          record {
            after = after;
            returns = ground arith;
            valid = record { front_in = v.front_in; rear_in = omega arith };
            appended =
                rw (more, rear)
                  (items-assign q.data_array x q.front (get_used_size q) v.front_in few);
          },
        )
  ]

  -- What a queue with an item does on `Dequeue`.
  pub record Dequeued (q : TemplateQ A) : Type ℓ where
    pub item : A
    pub after : TemplateQ A
    pub returns : dequeue q ≡ some (item, after)
    pub valid : IsValid after
    pub first : contents q ≡ item ∷ contents after

  -- `Dequeue` takes the first item off, and fails on the empty queue.
  pub dequeue_lem :
      (q : TemplateQ A) → IsValid q → ((contents q ≡ []) × (dequeue q ≡ none)) ⊎ Dequeued q
  unfolding dequeue
  dequeue_lem q v = elim (ℕ_discrete q.rear q.front) [
    | yes same ↦
        let nothing : get_used_size q ≡ 0 = used_of q 0 v.front_in (omega arith) (omega arith) in
        inl (ap (items q.data_array q.front) nothing, ground arith)
    | no some_items ↦
        let after : TemplateQ A = record q { front = (q.front + 1) % buffer_size } in
        let n = get_used_size q - 1 in
        let held : get_used_size q ≡ suc n = omega (arith, used_lem q v) in
        let fewer : get_used_size after ≡ n =
          used_of after n (omega arith) (omega (arith, used_lem q v))
            (omega (arith, used_lem q v)) in
        inr (record {
          item = q.data_array ((q.front + 1) % buffer_size);
          after = after;
          returns = ground arith;
          valid = record { front_in = omega arith; rear_in = v.rear_in };
          first =
              ap (items q.data_array q.front) held
              ∙ ap (λ k. items q.data_array q.front (suc k)) (sym fewer);
        })
  ]

  -- The sizes that `GetUsedSize` and `GetFreeSize` give are the number of items and what is left of
  -- 499, with the positions as arguments as well, and `ClearBuffer` leaves no item.
  pub sizes_lem :
      (q : TemplateQ A)
      → IsValid q
      → (get_used_size q ≡ length (contents q))
        × (get_free_size q + length (contents q) ≡ buffer_size - 1)
        × (get_used_size_between q.front q.rear ≡ get_used_size q)
        × (get_free_size_between q.front q.rear ≡ get_free_size q)
        × (contents (clear_buffer q) ≡ [])
  unfolding get_used_size_between get_free_size_between clear_buffer get_used_size get_free_size
  sizes_lem q v = (
    sym (length-contents q),
    omega (arith, length-contents q, used-free q v),
    ground arith,
    ground arith,
    refl,
  )

  -- On a valid TemplateQ Enqueue puts the item behind the others and leaves a valid queue when fewer
  -- than 499 are held, and else refuses it; Dequeue takes the first item off and leaves a valid queue,
  -- and fails when none is held; and GetUsedSize and GetFreeSize are the number of items and what is
  -- left of 499.
  pub template_q_lem :
      (q : TemplateQ A) (x : A)
      → IsValid q
      → (((length (contents q) ≡ buffer_size - 1) × (enqueue q x ≡ none))
          ⊎ ((length (contents q) < buffer_size - 1) × Enqueued q x))
        × (((contents q ≡ []) × (dequeue q ≡ none)) ⊎ Dequeued q)
        × (get_used_size q ≡ length (contents q))
        × (get_free_size q + length (contents q) ≡ buffer_size - 1)
  template_q_lem q x v = (enqueue_lem q x v, dequeue_lem q v, (sizes_lem q v).0, (sizes_lem q v).1)

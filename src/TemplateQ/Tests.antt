-- ===== src/TemplateQ/Tests.antt =====
-- Runs of the queue, and the theorems at a concrete queue.
use mmoserver.Shared.{
  ℕ, ◌-◌, ◌<◌, ◌≡◌, ◌⊎◌, refl, none, [], ◌∷◌, arith, length, if◌then◌else◌, ◌==◌, ◌+◌,
}
use mmoserver.TemplateQ.{TemplateQ, buffer_size, get_used_size, get_free_size, enqueue, dequeue}
use mmoserver.TemplateQ.Fifo.{contents, IsValid, Enqueued, Dequeued, template_q_lem}

-- Two items, 1 and 2, round the end of the array.
abbrev two : TemplateQ ℕ
two = record { front = 498; rear = 0; data_array = λ i. if i == 0 then 2 else 1 }

two-IsValid : IsValid two
two-IsValid = omega arith

contents-two : contents two ≡ 1 ∷ 2 ∷ []
unfolding get_used_size
contents-two = refl

template_q_lem_example :
    (((length (contents two) ≡ buffer_size - 1) × (enqueue two 3 ≡ none))
      ⊎ ((length (contents two) < buffer_size - 1) × Enqueued two 3))
    × (((contents two ≡ []) × (dequeue two ≡ none)) ⊎ Dequeued two)
    × (get_used_size two ≡ length (contents two))
    × (get_free_size two + length (contents two) ≡ buffer_size - 1)
template_q_lem_example = template_q_lem two 3 two-IsValid

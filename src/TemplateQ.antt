-- ===== src/TemplateQ.antt =====
-- TemplateQ of ServerCore/Network/TemplateQ.h: a queue of at most 499 items in an array of 500, used
-- round. The positions are those of the items put in and taken out last; the code starts them at
-- 0 and keeps them in the array, so they are natural numbers.
pub mod Fifo
mod Tests
use mmoserver.Shared.{ℕ, ◌+◌, ◌-◌, ◌%◌, Option, none, some, ltb, ◌==◌, if◌then◌else◌}
use mmoserver.Families.{assign}

abbrev pub buffer_size : ℕ
buffer_size = 500

pub record TemplateQ {ℓ} (A : Type ℓ) : Type ℓ where
  pub front : ℕ
  pub rear : ℕ
  pub data_array : ℕ → A

module _ {ℓ} {A : Type ℓ} where
  -- The constructor, over the values that the array comes with.
  abbrev pub new : (ℕ → A) → TemplateQ A
  new values = record { front = 0; rear = 0; data_array = values }

  unfoldable pub get_free_size : TemplateQ A → ℕ
  get_free_size q =
      if (q.rear + 1) % buffer_size == q.front
      then 0
      else if ltb q.rear q.front
      then q.front - q.rear - 1
      else q.front + (buffer_size - 1) - q.rear

  unfoldable pub get_used_size : TemplateQ A → ℕ
  get_used_size q =
      if q.rear == q.front
      then 0
      else if ltb q.front q.rear
      then q.rear - q.front
      else q.rear + (buffer_size - 1) - q.front + 1

  unfoldable pub clear_buffer : TemplateQ A → TemplateQ A
  clear_buffer q = record q { front = 0; rear = 0 }

  -- `none` is the result false.
  unfoldable pub enqueue : TemplateQ A → A → Option (TemplateQ A)
  enqueue q x =
      if (q.rear + 1) % buffer_size == q.front
      then none
      else let rear = (q.rear + 1) % buffer_size in
        some (record q { rear = rear; data_array = assign q.data_array rear x })

  unfoldable pub dequeue : TemplateQ A → Option (A × TemplateQ A)
  dequeue q =
      if q.rear == q.front
      then none
      else let front = (q.front + 1) % buffer_size in
        some (q.data_array front, record q { front = front })

-- The private overloads, which are given the positions.
unfoldable pub get_free_size_between : ℕ → ℕ → ℕ
get_free_size_between front rear =
    if (rear + 1) % buffer_size == front
    then 0
    else if ltb rear front
    then front - rear - 1
    else front + (buffer_size - 1) - rear

unfoldable pub get_used_size_between : ℕ → ℕ → ℕ
get_used_size_between front rear =
    if rear == front
    then 0
    else if ltb front rear
    then rear - front
    else rear + (buffer_size - 1) - front + 1

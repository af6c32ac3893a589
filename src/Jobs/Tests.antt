-- ===== src/Jobs/Tests.antt =====
-- A job's way through a queue and a thread, and the theorems on that way.
use mmoserver.Shared.{ℕ, ◌+◌, ◌≡◌, refl, [], ◌∷◌, arith}
use mmoserver.Families.{occurrences, sum}
use mmoserver.Jobs.System.{
  appended, counted, unlocked, holding, executing, waiting, System, set_queue, set_worker,
  push_job_queue, append, count_first, activate, pop_job_queue, pop_messages, execute,
  decrement_done, init, empty_queue, Reach, start, later,
}
use mmoserver.Jobs.Invariant.{owns}
use mmoserver.Jobs.Serial.{one_owner, no_lost_wakeup}
use mmoserver.Jobs.Order.{IsOrdered, Reach-IsOrdered, quiet-executed}

abbrev was_appended : System ℕ
was_appended =
    set_queue init 0 (record empty_queue { data_queue = 7 ∷ []; pushed = 7 ∷ []; stage = appended })

abbrev was_counted : System ℕ
was_counted =
    set_queue was_appended 0 (record (was_appended.queues 0) { job_count = 1; stage = counted })

abbrev was_activated : System ℕ
was_activated =
    push_job_queue (set_queue was_counted 0 (record (was_counted.queues 0) { stage = unlocked })) 0

abbrev was_popped : System ℕ
was_popped = set_worker (record was_activated { active_job_queue = [] }) 1 (holding 0)

abbrev was_emptied : System ℕ
was_emptied =
    set_worker (set_queue was_popped 0 (record (was_popped.queues 0) { data_queue = [] })) 1
      (executing 0 (7 ∷ []) 1)

abbrev was_executed : System ℕ
was_executed =
    set_worker (set_queue was_emptied 0 (record (was_emptied.queues 0) { executed = 7 ∷ [] })) 1
      (executing 0 [] 1)

abbrev was_finished : System ℕ
was_finished =
    set_worker (set_queue was_executed 0 (record (was_executed.queues 0) { job_count = 0 })) 1
      waiting

to_activated : Reach 2 was_activated
to_activated =
    later (later (later start (append 0 7 refl)) (count_first 0 refl refl)) (activate 0 refl)

to_popped : Reach 2 was_popped
to_popped = later to_activated (pop_job_queue 1 0 [] (omega arith) refl refl)

to_executed : Reach 2 was_executed
to_executed =
    later (later to_popped (pop_messages 1 0 (omega arith) refl refl))
      (execute 1 0 7 [] 1 (omega arith) refl)

to_finished : Reach 2 was_finished
to_finished = later to_executed (decrement_done 1 0 1 (omega arith) refl (omega arith))

Reach-IsOrdered_example : IsOrdered 2 was_popped 0
Reach-IsOrdered_example = Reach-IsOrdered to_popped 0

one_owner_example : ◌≡◌ {A = ℕ} 1 1 × (occurrences 0 was_popped.active_job_queue ≡ 0)
one_owner_example = one_owner to_popped 0 1 1 (omega arith) (omega arith) refl refl

no_lost_wakeup_example :
    occurrences 0 was_activated.active_job_queue + sum (owns 0) 2 was_activated.workers ≡ 1
no_lost_wakeup_example = no_lost_wakeup to_activated 0 refl (λ e. ground arith)

quiet-executed_example : (was_finished.queues 0).executed ≡ (was_finished.queues 0).pushed
unfolding sum
quiet-executed_example = quiet-executed to_finished 0 refl refl refl

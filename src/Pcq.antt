-- ===== src/Pcq.antt =====
-- producer-consumer/: the bounded queue between the broker's listener and its workers.
pub mod Segment
pub mod Fifo
pub mod Threads
pub mod Wakeups
pub mod Served
mod Examples
use tecnico_fs_so.Prelude.{
  ℕ, List, Option, get_elem?, if◌then◌else◌, length, ltb, minus_one, none, pos, set, some, ℤ, ◌%◌,
  ◌+◌, ◌-◌, ◌==◌,
}

-- `pc_queue_t` without its locks and condition variables. `pcq_buffer` is NULL as `none`.
pub record Pcq (A : Type 0) : Type 0 where
  pub pcq_buffer : Option (List A)
  pub pcq_capacity : ℕ
  pub pcq_current_size : ℕ
  pub pcq_head : ℕ
  pub pcq_tail : ℕ

-- How a call goes on: it returns at once for a queue that is NULL or was destroyed; it returns, with
-- the queue as it then is; it sleeps on its condition variable, with nothing changed, and tests
-- again when it is woken; or it accesses the buffer out of range.
pub data Outcome (A R : Type 0) : Type 0 where
  rejects : R → Outcome A R
  returns : R → Pcq A → Outcome A R
  sleeps : Outcome A R
  out_of_range : Outcome A R

-- `queue` is NULL as `none`; `buffer` is what `malloc` returns.
unfoldable pub pcq_create : {A : Type 0} → Option (Pcq A) → ℕ → Option (List A) → ℤ × Option (Pcq A)
pcq_create none capacity buffer = (minus_one, none)
pcq_create (some queue) capacity buffer = if capacity == 0 then (minus_one, some queue) else (
  pos 0,
  some (record {
    pcq_buffer = buffer;
    pcq_capacity = capacity;
    pcq_current_size = 0;
    pcq_head = 0;
    pcq_tail = 0;
  }),
)

abbrev pub destroy_buffer : {A : Type 0} → Pcq A → Option (List A) → ℤ × Option (Pcq A)
destroy_buffer queue none = (minus_one, some queue)
destroy_buffer queue (some buffer) = (pos 0, some (record queue { pcq_buffer = none }))

unfoldable pub pcq_destroy : {A : Type 0} → Option (Pcq A) → ℤ × Option (Pcq A)
pcq_destroy none = (minus_one, none)
pcq_destroy (some queue) = destroy_buffer queue queue.pcq_buffer

-- `queue->pcq_buffer[queue->pcq_tail] = elem` and what follows it under the lock.
unfoldable pub push_at_tail : {A : Type 0} → Pcq A → List A → A → Outcome A ℤ
push_at_tail queue buffer elem =
    if ltb queue.pcq_tail (length buffer)
    then returns (pos 0) (record queue {
      pcq_buffer = some (set buffer queue.pcq_tail elem);
      pcq_tail = (queue.pcq_tail + 1) % queue.pcq_capacity;
      pcq_current_size = queue.pcq_current_size + 1;
    })
    else out_of_range

-- One test of the loop condition, and the rest of the call if it lets the call through. All of it
-- runs under `pcq_current_size_lock`.
abbrev pub enqueue_in : {A : Type 0} → Pcq A → Option (List A) → A → Outcome A ℤ
enqueue_in queue none elem = rejects minus_one
enqueue_in queue (some buffer) elem =
    if queue.pcq_current_size == queue.pcq_capacity then sleeps else push_at_tail queue buffer elem

unfoldable pub pcq_enqueue : {A : Type 0} → Option (Pcq A) → A → Outcome A ℤ
pcq_enqueue none elem = rejects minus_one
pcq_enqueue (some queue) elem = enqueue_in queue queue.pcq_buffer elem

abbrev pub pop_elem : {A : Type 0} → Pcq A → Option A → Outcome A (Option A)
pop_elem queue none = out_of_range
pop_elem queue (some elem) = returns (some elem) (record queue {
  pcq_head = (queue.pcq_head + 1) % queue.pcq_capacity;
  pcq_current_size = queue.pcq_current_size - 1;
})

-- `queue->pcq_buffer[queue->pcq_head]` and what follows it under the lock.
unfoldable pub pop_at_head : {A : Type 0} → Pcq A → List A → Outcome A (Option A)
pop_at_head queue buffer = pop_elem queue (get_elem? buffer queue.pcq_head)

-- The result is `none` for the NULL of a rejected call.
abbrev pub dequeue_in : {A : Type 0} → Pcq A → Option (List A) → Outcome A (Option A)
dequeue_in queue none = rejects none
dequeue_in queue (some buffer) =
    if queue.pcq_current_size == 0 then sleeps else pop_at_head queue buffer

unfoldable pub pcq_dequeue : {A : Type 0} → Option (Pcq A) → Outcome A (Option A)
pcq_dequeue none = rejects none
pcq_dequeue (some queue) = dequeue_in queue queue.pcq_buffer

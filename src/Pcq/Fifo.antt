-- ===== src/Pcq/Fifo.antt =====
-- producer-consumer/: the queue as a list of at most `pcq_capacity` elements, the oldest first.
use tecnico_fs_so.Prelude.{
  ℕ, refl, ==→eq, List, Option, [], ap, arith, get_elem?-set_self, length, length-append,
  length-set, lt→ltb, pos, set, some, sym, ℤ, ◌++◌, ◌+◌, ◌<◌, ◌==◌, ◌∙◌, ◌∷◌, ◌≡◌, ◌≤◌, Bool,
  eq_zero→==, false, if◌then◌else◌, pos→==_false, true, inl,
}
use tecnico_fs_so.Pcq.{
  Outcome, Pcq, pcq_dequeue, pcq_enqueue, pop_at_head, push_at_tail, returns, sleeps, dequeue_in,
  enqueue_in, pcq_create,
}
use tecnico_fs_so.Pcq.Segment.{
  Behind, next_lt, Behind-next, Behind-step, Segment, Segment-append, Segment-set,
}

-- The queue holds these elements: they stand in its buffer from the head to the tail.
pub record Represents {A : Type 0} (queue : Pcq A) (xs : List A) : Type 0 where
  pub buffer : List A
  pub allocated : queue.pcq_buffer ≡ some buffer
  pub room : queue.pcq_capacity ≤ length buffer
  pub size : queue.pcq_current_size ≡ length xs
  pub bounded : length xs ≤ queue.pcq_capacity
  pub head_lt : queue.pcq_head < queue.pcq_capacity
  pub tail_lt : queue.pcq_tail < queue.pcq_capacity
  pub at_tail : Behind queue.pcq_capacity queue.pcq_head (length xs) queue.pcq_tail
  pub elements : Segment buffer queue.pcq_capacity queue.pcq_head xs

-- The outcome of an enqueue: it sleeps if the queue is full, and else appends the element.
pub data Enqueues {A : Type 0} (cap : ℕ) (xs : List A) (elem : A) : Outcome A ℤ → Type 0 where
  appended :
      {t : Pcq A}
      → length xs < cap
      → t.pcq_capacity ≡ cap
      → Represents t (xs ++ elem ∷ [])
      → Enqueues cap xs elem (returns (pos 0) t)
  full : length xs ≡ cap → Enqueues cap xs elem sleeps

-- The outcome of a dequeue: it sleeps if the queue is empty, and else takes the oldest element.
pub data Dequeues {A : Type 0} (cap : ℕ) : List A → Outcome A (Option A) → Type 0 where
  removed :
      {t : Pcq A} {x : A} {xs : List A}
      → t.pcq_capacity ≡ cap
      → Represents t xs
      → Dequeues cap (x ∷ xs) (returns (some x) t)
  empty : Dequeues cap [] sleeps

push-Enqueues :
    {A : Type 0} {queue : Pcq A} {xs : List A} (elem : A)
    → (r : Represents queue xs) → length xs < queue.pcq_capacity
    → Enqueues queue.pcq_capacity xs elem (push_at_tail queue r.buffer elem)
unfolding push_at_tail
push-Enqueues {A} {queue} {xs} elem r lt =
    let cap = queue.pcq_capacity in
    let tail_in : queue.pcq_tail < length r.buffer = omega (arith, r.tail_lt, r.room) in
    let new : List A = set r.buffer queue.pcq_tail elem in
    let long : length (xs ++ elem ∷ []) ≡ length xs + 1 = length-append xs (elem ∷ []) in
    rw (lt→ltb queue.pcq_tail (length r.buffer) tail_in) (
      appended lt refl (record {
        buffer = new;
        allocated = refl;
        room = omega (arith, r.room, length-set r.buffer queue.pcq_tail elem);
        size = ap (λ n. n + 1) r.size ∙ sym long;
        bounded = omega (arith, long);
        head_lt = r.head_lt;
        tail_lt = next_lt cap queue.pcq_tail r.tail_lt;
        at_tail = rw long (
            Behind-next cap queue.pcq_head (length xs) queue.pcq_tail r.head_lt r.tail_lt lt
              r.at_tail);
        elements =
            Segment-append new cap queue.pcq_head queue.pcq_tail xs elem r.head_lt r.tail_lt lt
              r.at_tail (get_elem?-set_self r.buffer queue.pcq_tail elem tail_in)
              (Segment-set r.buffer cap queue.pcq_head queue.pcq_tail xs elem r.head_lt r.tail_lt lt
                r.at_tail r.elements);
      }))

enqueue_in-some :
    {A : Type 0} {o : Option (List A)} (queue : Pcq A) (buffer : List A) (elem : A)
    → o ≡ some buffer
    → enqueue_in queue o elem ≡ (
        if queue.pcq_current_size == queue.pcq_capacity
        then sleeps
        else push_at_tail queue buffer elem)
enqueue_in-some queue buffer elem e = rw e refl

by_room :
    {A : Type 0} {queue : Pcq A} {xs : List A} (elem : A)
    → (r : Represents queue xs) → (b : Bool) → (queue.pcq_current_size == queue.pcq_capacity) ≡ b
    → Enqueues queue.pcq_capacity xs elem (if b then sleeps else push_at_tail queue r.buffer elem)
by_room {queue = queue} elem r true e =
    full (sym r.size ∙ ==→eq queue.pcq_current_size queue.pcq_capacity e)
by_room {queue = queue} {xs} elem r false e =
    let lt : length xs < queue.pcq_capacity = ground (arith, r.size, r.bounded) in
    push-Enqueues elem r lt

-- `pcq_enqueue` on a queue that holds some elements puts the new element behind them and returns 0,
-- or sleeps just if the queue holds as many elements as its capacity.
pub pcq_enqueue-Enqueues :
    {A : Type 0} {queue : Pcq A} {xs : List A} (elem : A)
    → Represents queue xs
    → Enqueues queue.pcq_capacity xs elem (pcq_enqueue (some queue) elem)
unfolding pcq_enqueue
pcq_enqueue-Enqueues {queue = queue} {xs} elem r =
    rw (enqueue_in-some queue r.buffer elem r.allocated) (by_room elem r _ refl)

pop-Dequeues :
    {A : Type 0} {queue : Pcq A} {x : A} {xs : List A}
    → (r : Represents queue (x ∷ xs))
    → Dequeues queue.pcq_capacity (x ∷ xs) (pop_at_head queue r.buffer)
unfolding pop_at_head
pop-Dequeues {queue = queue} {x} {xs} r =
    let cap = queue.pcq_capacity in
    rw r.elements.0 (
      removed refl (record {
        buffer = r.buffer;
        allocated = r.allocated;
        room = r.room;
        size = omega (arith, r.size);
        bounded = omega (arith, r.bounded);
        head_lt = next_lt cap queue.pcq_head r.head_lt;
        tail_lt = r.tail_lt;
        at_tail =
            Behind-step cap queue.pcq_head (length xs) queue.pcq_tail r.head_lt r.tail_lt r.bounded
              r.at_tail;
        elements = r.elements.1;
      }))

dequeue_in-some :
    {A : Type 0} {o : Option (List A)} (queue : Pcq A) (buffer : List A)
    → o ≡ some buffer
    → dequeue_in queue o
      ≡ (if queue.pcq_current_size == 0 then sleeps else pop_at_head queue buffer)
dequeue_in-some queue buffer e = rw e refl

-- `pcq_dequeue` on a queue that holds some elements removes the oldest and returns it, or sleeps
-- just if the queue holds none.
pub pcq_dequeue-Dequeues :
    {A : Type 0} {queue : Pcq A} {xs : List A}
    → Represents queue xs
    → Dequeues queue.pcq_capacity xs (pcq_dequeue (some queue))
unfolding pcq_dequeue
pcq_dequeue-Dequeues {queue = queue} {xs = []} r =
    rw (dequeue_in-some queue r.buffer r.allocated, eq_zero→== queue.pcq_current_size r.size) empty
pcq_dequeue-Dequeues {queue = queue} {xs = x ∷ xs} r =
    rw
      (
        dequeue_in-some queue r.buffer r.allocated,
        pos→==_false queue.pcq_current_size (omega (arith, r.size)),
      )
      (pop-Dequeues r)

-- `pcq_create` with a capacity above 0 and a buffer for that many elements returns 0 and makes an
-- empty queue of this capacity, whatever the memory of the queue and of the buffer held.
pub pcq_create-Represents :
    {A : Type 0} (queue : Pcq A) (capacity : ℕ) (buffer : List A)
    → 0 < capacity
    → capacity ≤ length buffer
    → (t : Pcq A) × (pcq_create (some queue) capacity (some buffer) ≡ (pos 0, some t))
      × Represents t []
      × (t.pcq_capacity ≡ capacity)
unfolding pcq_create
pcq_create-Represents queue capacity buffer p room = (
  record {
    pcq_buffer = some buffer;
    pcq_capacity = capacity;
    pcq_current_size = 0;
    pcq_head = 0;
    pcq_tail = 0;
  },
  rw (pos→==_false capacity p) refl,
  record {
    buffer = buffer;
    allocated = refl;
    room = room;
    size = refl;
    bounded = omega arith;
    head_lt = p;
    tail_lt = p;
    at_tail = inl refl;
    elements = tt;
  },
  refl,
)

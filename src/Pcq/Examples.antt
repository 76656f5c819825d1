-- ===== src/Pcq/Examples.antt =====
-- producer-consumer/: runs, and instances of the theorems on the queue.
use tecnico_fs_so.Prelude.{ℕ, refl, List, [], arith, inl, inr, pos, some, ◌∷◌, ◌≡◌, false}
use tecnico_fs_so.Pcq.Served.{nobody, NoneLost, Wakeups-NoneLost}
use tecnico_fs_so.Pcq.Wakeups.{
  more, no_steps, push_waits, calls, pusher_changes, sleeps_now, pops, signalled, Threads, Wakeups,
  cond_signal,
}
use tecnico_fs_so.Pcq.Fifo.{
  Dequeues, Enqueues, Represents, pcq_dequeue-Dequeues, pcq_enqueue-Enqueues,
}
use tecnico_fs_so.Pcq.{Pcq, pcq_dequeue, pcq_enqueue, pop_at_head, push_at_tail, returns, sleeps}
use tecnico_fs_so.Pcq.Threads.{Remains, Calls-Remains, step, start, dequeues, enqueues}

-- A full queue of two elements, the older in the last place of the buffer.
abbrev sample : ℕ → ℕ → List ℕ → Pcq ℕ
sample size head buffer = record {
  pcq_buffer = some buffer;
  pcq_capacity = 2;
  pcq_current_size = size;
  pcq_head = head;
  pcq_tail = 1;
}

sample-Represents : Represents (sample 2 1 (8 ∷ 7 ∷ [])) (7 ∷ 8 ∷ [])
sample-Represents = record {
  buffer = 8 ∷ 7 ∷ [];
  allocated = refl;
  room = omega arith;
  size = refl;
  bounded = omega arith;
  head_lt = omega arith;
  tail_lt = omega arith;
  at_tail = inr refl;
  elements = (refl, (refl, tt));
}

half-Represents : Represents (sample 1 0 (8 ∷ 7 ∷ [])) (8 ∷ [])
half-Represents = record {
  buffer = 8 ∷ 7 ∷ [];
  allocated = refl;
  room = omega arith;
  size = refl;
  bounded = omega arith;
  head_lt = omega arith;
  tail_lt = omega arith;
  at_tail = inl refl;
  elements = (refl, tt);
}

pcq_enqueue-Enqueues_example :
    Enqueues 2 (8 ∷ []) 9 (pcq_enqueue (some (sample 1 0 (8 ∷ 7 ∷ []))) 9)
pcq_enqueue-Enqueues_example = pcq_enqueue-Enqueues 9 half-Represents

pcq_dequeue-Dequeues_example :
    Dequeues 2 (7 ∷ 8 ∷ []) (pcq_dequeue (some (sample 2 1 (8 ∷ 7 ∷ []))))
pcq_dequeue-Dequeues_example = pcq_dequeue-Dequeues sample-Represents

dequeue_runs :
    pcq_dequeue (some (sample 2 1 (8 ∷ 7 ∷ []))) ≡ returns (some 7) (sample 1 0 (8 ∷ 7 ∷ []))
unfolding pcq_dequeue pop_at_head
dequeue_runs = refl

enqueue_runs :
    pcq_enqueue (some (sample 1 0 (8 ∷ 7 ∷ []))) 9
    ≡ returns (pos 0) (record (sample 2 0 (8 ∷ 9 ∷ [])) { pcq_tail = 0 })
unfolding pcq_enqueue push_at_tail
enqueue_runs = refl

Calls-Remains_example :
    Remains (7 ∷ 8 ∷ []) (record (sample 2 0 (8 ∷ 9 ∷ [])) { pcq_tail = 0 }) (9 ∷ []) (7 ∷ [])
Calls-Remains_example =
    Calls-Remains sample-Represents
      (step (step start (dequeues dequeue_runs)) (enqueues enqueue_runs))

-- A thread finds the queue full and sleeps, another takes an element out and signals.
abbrev full_queue : Pcq ℕ
full_queue = sample 2 1 (8 ∷ 7 ∷ [])

enqueue_sleeps : pcq_enqueue (some full_queue) 9 ≡ sleeps
unfolding pcq_enqueue
enqueue_sleeps = refl

abbrev after_signal : Threads ℕ
after_signal = record {
  queue = sample 1 0 (8 ∷ 7 ∷ []);
  pushers = record { dozing = false; sleeping = 0; woken = 1; signals = 0 };
  poppers = nobody;
}

sleeper_woken :
    Wakeups (record { queue = full_queue; pushers = nobody; poppers = nobody }) after_signal
unfolding cond_signal
sleeper_woken =
    more
      (more
        (more (more no_steps (push_waits 9 refl calls enqueue_sleeps))
          (pusher_changes (sleeps_now refl)))
        (pops (some 7) refl calls dequeue_runs))
      (pusher_changes (signalled refl refl))

Wakeups-NoneLost_example : NoneLost after_signal
Wakeups-NoneLost_example = Wakeups-NoneLost sample-Represents sleeper_woken

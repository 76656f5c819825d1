-- ===== src/Pcq/Served.antt =====
-- producer-consumer/: no wake-up of a thread that waits for the queue is lost.
-- No thread is about to sleep or sleeps, or each of the `n` elements or entries that it could have
-- has a thread that was woken or will be signalled.
use tecnico_fs_so.Prelude.{
  refl, arith, false, suc, zero, ℕ, ◌+◌, ◌≡◌, ◌≤◌, List, Option, [], ap, length, length-append, ℤ,
  ◌++◌, ◌-◌, ◌<◌, ◌∷◌,
}
use tecnico_fs_so.Pcq.Wakeups.{
  calls, wakes, Waiters, cond_signal, Arrives, Waits, add_signal, wake_one, sleeps_now, signalled,
  wakes_itself, Threads, Wakeup, Wakeups, more, pushes, pops, push_waits, pop_waits, pusher_changes,
  popper_changes, no_steps,
}
use tecnico_fs_so.Pcq.{Outcome, Pcq, sleeps, returns}
use tecnico_fs_so.Pcq.Fifo.{
  Dequeues, Enqueues, Represents, pcq_enqueue-Enqueues, pcq_dequeue-Dequeues, appended, full,
  removed, empty,
}

pub data IsServed (n : ℕ) (w : Waiters) : Type 0 where
  none_waits : w.dozing ≡ false → w.sleeping ≡ 0 → IsServed n w
  enough : n ≤ w.signals + w.woken → IsServed n w

-- A signal that finds no sleeper leaves none behind.
signal-IsServed :
    {n m : ℕ} (k : ℕ) (w : Waiters)
    → w.sleeping ≡ k
    → w.dozing ≡ false
    → n ≤ m + 1 + w.woken
    → w.signals ≡ m
    → IsServed n (wake_one k w)
signal-IsServed zero w e d le same = none_waits d e
signal-IsServed (suc k) w e d le same = enough (omega arith)

Waits-IsServed : {n : ℕ} {w v : Waiters} → IsServed n w → Waits w v → IsServed n v
unfolding cond_signal
Waits-IsServed (none_waits d z) (sleeps_now e) = cc
Waits-IsServed (none_waits d z) (signalled e f) = rw z (none_waits d refl)
Waits-IsServed (none_waits d z) (wakes_itself e) = absurd (omega arith)
Waits-IsServed (enough le) (sleeps_now e) = enough le
Waits-IsServed {w = w} (enough le) (signalled {n = m} e f) =
    signal-IsServed w.sleeping _ refl e (omega arith) refl
Waits-IsServed (enough le) (wakes_itself e) = enough (omega arith)

-- One more element: a signal is to come.
added-IsServed : {n : ℕ} {w : Waiters} → IsServed n w → IsServed (n + 1) (add_signal w)
added-IsServed (none_waits d z) = none_waits d z
added-IsServed (enough le) = enough (omega arith)

-- A thread that came to the test has taken one.
taken-IsServed : {n : ℕ} {w v : Waiters} → IsServed (n + 1) w → Arrives w v → IsServed n v
taken-IsServed (none_waits d z) calls = none_waits d z
taken-IsServed (none_waits d z) (wakes e) = none_waits d z
taken-IsServed (enough le) calls = enough (omega arith)
taken-IsServed (enough le) (wakes e) = enough (omega arith)

-- The queue with its elements, and the threads on both sides.
pub record AreServed {A : Type 0} (c : Threads A) (xs : List A) : Type 0 where
  pub holds : Represents c.queue xs
  pub poppers_served : IsServed (length xs) c.poppers
  pub pushers_served : IsServed (c.queue.pcq_capacity - length xs) c.pushers

pushed :
    {A : Type 0} {c : Threads A} {xs : List A} {w : Waiters} {elem : A} {queue : Pcq A} {code : ℤ}
    {r : Outcome A ℤ}
    → AreServed c xs
    → Arrives c.pushers w
    → Enqueues c.queue.pcq_capacity xs elem r
    → r ≡ returns code queue
    → AreServed
        (record { queue = queue; pushers = w; poppers = add_signal c.poppers })
        (xs ++ elem ∷ [])
pushed {c = c} {xs} {elem = elem} {queue} a ar (appended {t = u} lt same holds) e =
    let q : u ≡ queue = cc in
    let long : length (xs ++ elem ∷ []) ≡ length xs + 1 = length-append xs (elem ∷ []) in
    let left : c.queue.pcq_capacity - length xs
        ≡ queue.pcq_capacity - length (xs ++ elem ∷ []) + 1 =
      omega (arith, long, lt, same, ap (λ v. v.pcq_capacity) q) in
    record {
      holds = rw q at holds;
      poppers_served = rw long (added-IsServed a.poppers_served);
      pushers_served = taken-IsServed (rw left at a.pushers_served) ar;
    }
pushed a ar (full all) e = absurd (cc)

popped :
    {A : Type 0} {c : Threads A} {xs : List A} {w : Waiters} {elem : Option A} {queue : Pcq A}
    {r : Outcome A (Option A)}
    → AreServed c xs
    → Arrives c.poppers w
    → Dequeues c.queue.pcq_capacity xs r
    → r ≡ returns elem queue
    → (rest : List A) × AreServed
        (record { queue = queue; pushers = add_signal c.pushers; poppers = w })
        rest
popped {c = c} {queue = queue} a ar (removed {t = u} {x} {xs = rest} same holds) e =
    let q : u ≡ queue = cc in
    let left : c.queue.pcq_capacity - length (x ∷ rest) + 1 ≡ queue.pcq_capacity - length rest =
      omega (arith, same, holds.bounded, ap (λ v. v.pcq_capacity) q, a.holds.bounded) in
    let one : length (x ∷ rest) ≡ length rest + 1 = omega arith in
    (
      rest,
      record {
        holds = rw q at holds;
        poppers_served = taken-IsServed (rw one at a.poppers_served) ar;
        pushers_served = rw left at (added-IsServed a.pushers_served);
      },
    )
popped a ar empty e = absurd (cc)

push_slept :
    {A : Type 0} {cap : ℕ} {xs : List A} {elem : A} {r : Outcome A ℤ}
    → Enqueues cap xs elem r
    → r ≡ sleeps
    → cap - length xs ≡ 0
push_slept (appended lt same holds) e = absurd (cc)
push_slept (full all) e = omega arith

pop_slept :
    {A : Type 0} {cap : ℕ} {xs : List A} {r : Outcome A (Option A)}
    → Dequeues cap xs r
    → r ≡ sleeps
    → length xs ≡ 0
pop_slept (removed same holds) e = absurd (cc)
pop_slept empty e = refl

Wakeup-AreServed :
    {A : Type 0} {c d : Threads A} {xs : List A}
    → AreServed c xs
    → Wakeup c d
    → (ys : List A) × AreServed d ys
Wakeup-AreServed {xs = xs} a (pushes elem code d ar e) =
    (xs ++ elem ∷ [], pushed a ar (pcq_enqueue-Enqueues elem a.holds) e)
Wakeup-AreServed a (pops elem d ar e) = popped a ar (pcq_dequeue-Dequeues a.holds) e
Wakeup-AreServed {xs = xs} a (push_waits elem d ar e) = (
  xs,
  record {
    holds = a.holds;
    poppers_served = a.poppers_served;
    pushers_served =
        let none_left = push_slept (pcq_enqueue-Enqueues elem a.holds) e in enough (omega arith);
  },
)
Wakeup-AreServed {xs = xs} a (pop_waits d ar e) = (
  xs,
  record {
    holds = a.holds;
    poppers_served =
        let none_left = pop_slept (pcq_dequeue-Dequeues a.holds) e in enough (omega arith);
    pushers_served = a.pushers_served;
  },
)
Wakeup-AreServed {xs = xs} a (pusher_changes w) = (
  xs,
  record {
    holds = a.holds;
    poppers_served = a.poppers_served;
    pushers_served = Waits-IsServed a.pushers_served w;
  },
)
Wakeup-AreServed {xs = xs} a (popper_changes w) = (
  xs,
  record {
    holds = a.holds;
    poppers_served = Waits-IsServed a.poppers_served w;
    pushers_served = a.pushers_served;
  },
)

-- The threads at the start: none waits and none has changed the queue.
abbrev pub nobody : Waiters
nobody = record { dozing = false; sleeping = 0; woken = 0; signals = 0 }

Wakeups-AreServed :
    {A : Type 0} {c d : Threads A} {xs : List A}
    → AreServed c xs
    → Wakeups c d
    → (ys : List A) × AreServed d ys
Wakeups-AreServed {xs = xs} a no_steps = (xs, a)
Wakeups-AreServed a (more before step) =
    let (ys, b) = Wakeups-AreServed a before in Wakeup-AreServed b step

-- While a thread sleeps on a condition variable, enough threads were woken, or will be signalled.
pub record NoneLost {A : Type 0} (c : Threads A) : Type 0 where
  pub for_poppers :
      0 < c.poppers.sleeping → c.queue.pcq_current_size ≤ c.poppers.signals + c.poppers.woken
  pub for_pushers :
      0 < c.pushers.sleeping
      → c.queue.pcq_capacity - c.queue.pcq_current_size ≤ c.pushers.signals + c.pushers.woken

IsServed-enough : {n : ℕ} {w : Waiters} → IsServed n w → 0 < w.sleeping → n ≤ w.signals + w.woken
IsServed-enough (none_waits d z) p = absurd (omega arith)
IsServed-enough (enough le) p = le

-- Threads put elements into a queue and take them out, which begins with any elements and no thread
-- waiting. Whatever the order of their steps, while a thread sleeps for an element there are as many
-- wake-ups under way to the threads of its kind (a signal to be sent, or a thread that was woken and
-- has not yet tested) as there are elements; and while one sleeps for room, as there are free
-- entries.
pub Wakeups-NoneLost :
    {A : Type 0} {queue : Pcq A} {d : Threads A} {xs : List A}
    → Represents queue xs
    → Wakeups (record { queue = queue; pushers = nobody; poppers = nobody }) d
    → NoneLost d
Wakeups-NoneLost holds steps =
    let (ys, a) =
      Wakeups-AreServed
        (record {
          holds = holds;
          poppers_served = none_waits refl refl;
          pushers_served = none_waits refl refl;
        })
        steps in
    record {
      for_poppers = λ p. omega (arith, a.holds.size, IsServed-enough a.poppers_served p);
      for_pushers = λ p. omega (arith, a.holds.size, IsServed-enough a.pushers_served p);
    }

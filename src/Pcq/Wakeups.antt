-- ===== src/Pcq/Wakeups.antt =====
-- producer-consumer/: the threads that wait on the two condition variables of the queue. A thread
-- tests its loop condition while it holds the lock of its condition variable, and `cond_wait` lets
-- the lock go and sleeps at once; the signal for a thread is sent under the same lock.

-- The threads that wait on one of the condition variables. One may have tested and hold the lock,
-- not yet asleep (`dozing`); some sleep; some were woken and have not yet tested again. `signals`
-- counts the calls that have changed the queue and have not yet called `cond_signal`.
use tecnico_fs_so.Prelude.{Bool, Option, false, some, suc, true, zero, ℕ, ℤ, ◌+◌, ◌≡◌}
use tecnico_fs_so.Pcq.{Pcq, pcq_enqueue, sleeps, pcq_dequeue, returns}

pub record Waiters : Type 0 where
  pub dozing : Bool
  pub sleeping : ℕ
  pub woken : ℕ
  pub signals : ℕ

-- The queue with the threads that wait to put an element in and those that wait to take one out.
pub record Threads (A : Type 0) : Type 0 where
  pub queue : Pcq A
  pub pushers : Waiters
  pub poppers : Waiters

-- A thread comes to the test: one that has just made its call, or one that was woken.
pub data Arrives (w : Waiters) : Waiters → Type 0 where
  calls : Arrives w w
  wakes : {n : ℕ} → w.woken ≡ suc n → Arrives w (record w { woken = n })

-- One of `n` sleepers wakes, if there is any.
abbrev pub wake_one : ℕ → Waiters → Waiters
wake_one zero w = w
wake_one (suc n) w = record w { sleeping = n; woken = w.woken + 1 }

unfoldable pub cond_signal : Waiters → Waiters
cond_signal w = wake_one w.sleeping w

abbrev pub add_signal : Waiters → Waiters
add_signal w = record w { signals = w.signals + 1 }

abbrev pub fall_asleep : Waiters → Waiters
fall_asleep w = record w { dozing = false; sleeping = w.sleeping + 1 }

-- What happens to the threads that wait on one condition variable without a change of the queue.
pub data Waits (w : Waiters) : Waiters → Type 0 where
  sleeps_now : w.dozing ≡ true → Waits w (fall_asleep w)
  signalled :
      {n : ℕ}
      → w.dozing ≡ false
      → w.signals ≡ suc n
      → Waits w (cond_signal (record w { signals = n }))
  wakes_itself :
      {n : ℕ} → w.sleeping ≡ suc n → Waits w (record w { sleeping = n; woken = w.woken + 1 })

-- A step of one of the threads.
pub data Wakeup {A : Type 0} (c : Threads A) : Threads A → Type 0 where
  pushes :
      {w : Waiters} {queue : Pcq A} (elem : A) (code : ℤ)
      → c.pushers.dozing ≡ false
      → Arrives c.pushers w
      → pcq_enqueue (some c.queue) elem ≡ returns code queue
      → Wakeup c (record { queue = queue; pushers = w; poppers = add_signal c.poppers })
  push_waits :
      {w : Waiters} (elem : A)
      → c.pushers.dozing ≡ false
      → Arrives c.pushers w
      → pcq_enqueue (some c.queue) elem ≡ sleeps
      → Wakeup c (record c { pushers = record w { dozing = true } })
  pops :
      {w : Waiters} {queue : Pcq A} (elem : Option A)
      → c.poppers.dozing ≡ false
      → Arrives c.poppers w
      → pcq_dequeue (some c.queue) ≡ returns elem queue
      → Wakeup c (record { queue = queue; pushers = add_signal c.pushers; poppers = w })
  pop_waits :
      {w : Waiters}
      → c.poppers.dozing ≡ false
      → Arrives c.poppers w
      → pcq_dequeue (some c.queue) ≡ sleeps
      → Wakeup c (record c { poppers = record w { dozing = true } })
  pusher_changes : {w : Waiters} → Waits c.pushers w → Wakeup c (record c { pushers = w })
  popper_changes : {w : Waiters} → Waits c.poppers w → Wakeup c (record c { poppers = w })

pub data Wakeups {A : Type 0} (c : Threads A) : Threads A → Type 0 where
  no_steps : Wakeups c c
  more : {d e : Threads A} → Wakeups c d → Wakeup d e → Wakeups c e

-- ===== src/Pcq/Threads.antt =====
-- producer-consumer/: the calls of many threads. What a call of pcq_enqueue or pcq_dequeue does
-- after it was let through runs under `pcq_current_size_lock`, so the calls that return are steps,
-- in the order in which they take this lock; a call that sleeps changes nothing.
use tecnico_fs_so.Prelude.{
  ℕ, List, Option, [], ap, some, ℤ, ◌++◌, ◌∷◌, ◌≡◌, append_assoc, append_nil, sym, ◌∙◌,
}
use tecnico_fs_so.Pcq.{Outcome, Pcq, pcq_enqueue, returns, pcq_dequeue}
use tecnico_fs_so.Pcq.Fifo.{
  Dequeues, Enqueues, Represents, pcq_enqueue-Enqueues, pcq_dequeue-Dequeues, appended, removed,
  full, empty,
}

-- One call that returns, with what it puts in or takes out.
pub data Step {A : Type 0} (s t : Pcq A) : List A → List A → Type 0 where
  enqueues :
      {elem : A} {code : ℤ} → pcq_enqueue (some s) elem ≡ returns code t → Step s t (elem ∷ []) []
  dequeues : {elem : A} → pcq_dequeue (some s) ≡ returns (some elem) t → Step s t [] (elem ∷ [])

-- The calls that return between two states, with all that they put in and take out.
pub data Calls {A : Type 0} (s : Pcq A) : Pcq A → List A → List A → Type 0 where
  start : Calls s s [] []
  step :
      {t u : Pcq A} {ins outs new gone : List A}
      → Calls s t ins outs
      → Step t u new gone
      → Calls s u (ins ++ new) (outs ++ gone)

-- What the queue holds after calls that put `ins` in and took `outs` out.
pub record Remains {A : Type 0} (xs : List A) (t : Pcq A) (ins outs : List A) : Type 0 where
  pub rest : List A
  pub holds : Represents t rest
  pub in_order : xs ++ ins ≡ outs ++ rest

enqueued :
    {A : Type 0} {cap : ℕ} {xs : List A} {elem : A} {code : ℤ} {r : Outcome A ℤ} {t : Pcq A}
    → Enqueues cap xs elem r
    → r ≡ returns code t
    → Represents t (xs ++ elem ∷ [])
enqueued {t = t} (appended {t = u} lt same holds) e = let q : u ≡ t = cc in rw q at holds
enqueued (full all) e = cc

dequeued :
    {A : Type 0} {cap : ℕ} {xs : List A} {elem : A} {r : Outcome A (Option A)} {t : Pcq A}
    → Dequeues cap xs r
    → r ≡ returns (some elem) t
    → (rest : List A) × Represents t rest × (xs ≡ elem ∷ rest)
dequeued {elem = elem} {t = t} (removed {t = u} {x = x} {xs = rest} same holds) e =
    let q : u ≡ t = cc in let p : x ≡ elem = cc in (rest, rw q at holds, ap (λ y. y ∷ rest) p)
dequeued empty e = cc

Step-Remains :
    {A : Type 0} {xs ins outs new gone : List A} {t u : Pcq A}
    → Remains xs t ins outs
    → Step t u new gone
    → Remains xs u (ins ++ new) (outs ++ gone)
Step-Remains {xs = xs} {ins} {outs} m (enqueues {elem} e) = record {
  rest = m.rest ++ elem ∷ [];
  holds = enqueued (pcq_enqueue-Enqueues elem m.holds) e;
  in_order =
      sym (append_assoc xs ins (elem ∷ []))
      ∙ ap (λ ys. ys ++ elem ∷ []) m.in_order
      ∙ append_assoc outs m.rest (elem ∷ [])
      ∙ ap (λ ys. ys ++ (m.rest ++ elem ∷ [])) (sym (append_nil outs));
}
Step-Remains {xs = xs} {ins} {outs} m (dequeues {elem} e) =
    let (rest, holds, same) = dequeued (pcq_dequeue-Dequeues m.holds) e in
    record {
      rest = rest;
      holds = holds;
      in_order =
          ap (◌++◌ xs) (append_nil ins)
          ∙ m.in_order
          ∙ ap (◌++◌ outs) same
          ∙ sym (append_assoc outs (elem ∷ []) rest);
    }

-- First in, first out: whatever calls of whatever threads return, in whatever order, what was in
-- the queue and what they put in is what they took out followed by what is in the queue, in this
-- order. The queue is well-formed at the start, and is so afterwards.
pub Calls-Remains :
    {A : Type 0} {s t : Pcq A} {xs ins outs : List A}
    → Represents s xs
    → Calls s t ins outs
    → Remains xs t ins outs
Calls-Remains {xs = xs} holds start = record { rest = xs; holds = holds; in_order = append_nil xs }
Calls-Remains holds (step before call) = Step-Remains (Calls-Remains holds before) call

-- ===== src/Broker/Listing/Loop.antt =====
-- mbroker/mbroker.c, `workers_handle_manager_listing`: what the loop over the table sends.
use tecnico_fs_so.Prelude.{
  ℕ, refl, Bool, List, [], ap, arith, inl, inr, length, pos, suc, true, zero, ◌+◌, ◌-◌, ◌<◌, ◌∙◌,
  ◌∷◌, ◌≡◌, ◌≤◌, ◌⊎◌,
}
use tecnico_fs_so.Fs.Types.{AllocationState, free, taken}
use tecnico_fs_so.Broker.Types.{Box, Broker}
use tecnico_fs_so.Broker.Listing.{
  list_loop, round, workers_handle_manager_listing, send, sends, stop, prepend, skip,
}
use tecnico_fs_so.Broker.Table.Laws.{AllBoxes, IsBroker, boxes_of}
use tecnico_fs_so.Protocol.{box_name_max_len}
use tecnico_fs_so.Broker.Table.View.{listed}
use tecnico_fs_so.Broker.Listing.Answers.{
  answers, answers_of, answer, list_packet-empty, list_packet-answer,
}
use tecnico_fs_so.Protocol.RoundTrip.{length-padded}

module _ (m k last : ℕ) where
  round-skip : 0 < m → k ≤ m → round (pos m) k last free ≡ skip
  unfolding round
  round-skip p h = ground arith

  round-send_last : k + 1 ≡ m → round (pos m) k last taken ≡ send 1
  unfolding round
  round-send_last e = ground arith

  round-send_more : k + 1 < m → last ≡ 0 → round (pos m) k last taken ≡ send 0
  unfolding round
  round-send_more h e = ground arith

round-empty : (a : AllocationState) → round (pos 0) 0 0 a ≡ send 1
unfolding round
round-empty a = ground arith

round-stop : (a : AllocationState) → round (pos 0) 1 1 a ≡ stop
unfolding round
round-stop a = ground arith

-- Every name is an array of its length.
abbrev pub FullNames : List Box → Type 0
FullNames [] = Unit {0}
FullNames (box ∷ boxes) = (length box.name ≡ box_name_max_len) × FullNames boxes

List-cases : {A : Type 0} (xs : List A) → (xs ≡ []) ⊎ ((y : A) × (ys : List A) × (xs ≡ y ∷ ys))
List-cases [] = inl refl
List-cases (y ∷ ys) = inr (y, ys, refl)

module _ (pipe_ok : ℕ → Bool) (working : (k : ℕ) → pipe_ok k ≡ true) where
  loop_skip :
      (n m k last : ℕ) (states : List AllocationState) (box : Box) (boxes : List Box)
      → 0 < m
      → k ≤ m
      → list_loop pipe_ok (suc n) (free ∷ states) (box ∷ boxes) (pos m) k last
        ≡ list_loop pipe_ok n states boxes (pos m) k last
  unfolding list_loop
  loop_skip n m k last states box boxes p h = rw (round-skip m k last p h, list_loop) refl

  loop_send :
      (n m k last flag : ℕ) (states : List AllocationState) (box : Box) (boxes : List Box)
      → round (pos m) k last taken ≡ send flag
      → 0 < m
      → length box.name ≡ box_name_max_len
      → list_loop pipe_ok (suc n) (taken ∷ states) (box ∷ boxes) (pos m) k last
        ≡ prepend (answer flag box) (list_loop pipe_ok n states boxes (pos m) (k + 1) flag)
  unfolding list_loop
  loop_send n m k last flag states box boxes e p full =
      rw (e, list_loop)
        (rw (list_packet-answer flag m box p full, list_loop) (rw (working k, list_loop) refl))

  pub list_loop-answers :
      (n m k last : ℕ) (states : List AllocationState) (boxes : List Box)
      → n ≤ length states
      → n ≤ length boxes
      → FullNames (listed n states boxes)
      → 0 < m
      → m ≡ k + length (listed n states boxes)
      → (last ≡ 0) ⊎ (listed n states boxes ≡ [])
      → list_loop pipe_ok n states boxes (pos m) k last
        ≡ sends (pos 0) (answers_of (listed n states boxes))
  list_loop-answers zero m k last states boxes h h' full p count flag = unfold list_loop in refl
  list_loop-answers (suc n) m k last [] boxes h h' full p count flag = absurd (omega arith)
  list_loop-answers (suc n) m k last (a ∷ states) [] h h' full p count flag = absurd (omega arith)
  list_loop-answers (suc n) m k last (free ∷ states) (box ∷ boxes) h h' full p count flag =
      loop_skip n m k last states box boxes p (omega arith)
      ∙ list_loop-answers n m k last states boxes (omega arith) (omega arith) full p count flag
  list_loop-answers (suc n) m k last (taken ∷ states) (box ∷ boxes) h h' full p count (inr e) = cc
  list_loop-answers (suc n) m k last (taken ∷ states) (box ∷ boxes) h h' (full, rest) p count
        (inl e) =
      elim (List-cases (listed n states boxes)) [
        | inl none_left ↦
            let one : k + 1 ≡ m = omega (arith, ap length none_left) in
            loop_send n m k last 1 states box boxes (round-send_last m k last one) p full
            ∙ ap (prepend (answer 1 box)) (
                list_loop-answers n m (k + 1) 1 states boxes (omega arith) (omega arith) rest p
                  (omega arith) (inr none_left))
            ∙ rw none_left refl
        | inr (y, ys, more) ↦
            let some_left : k + 1 < m = omega (arith, ap length more) in
            loop_send n m k last 0 states box boxes (round-send_more m k last some_left e) p full
            ∙ ap (prepend (answer 0 box)) (
                list_loop-answers n m (k + 1) 0 states boxes (omega arith) (omega arith) rest p
                  (omega arith) (inl refl))
            ∙ rw more refl
      ]

  -- Without boxes the first round sends a packet, and the second ends the loop.
  list_loop-empty :
      (n : ℕ) (states : List AllocationState) (boxes : List Box)
      → suc n ≤ length states
      → suc n ≤ length boxes
      → list_loop pipe_ok (suc n) states boxes (pos 0) 0 0 ≡ sends (pos 0) (answers [])
  unfolding list_loop
  list_loop-empty n [] boxes h h' = absurd (omega arith)
  list_loop-empty n (a ∷ states) [] h h' = absurd (omega arith)
  list_loop-empty zero (a ∷ states) (box ∷ boxes) h h' =
      rw (round-empty a, list_loop)
        (rw (list_packet-empty box, list_loop) (rw (working 0, list_loop) refl))
  list_loop-empty (suc n) (a ∷ []) (box ∷ boxes) h h' = absurd (omega arith)
  list_loop-empty (suc n) (a ∷ a' ∷ states) (box ∷ []) h h' = absurd (omega arith)
  list_loop-empty (suc n) (a ∷ a' ∷ states) (box ∷ box' ∷ boxes) h h' =
      rw (round-empty a, list_loop)
        (rw (list_packet-empty box, list_loop)
          (rw (working 0, list_loop) (rw (round-stop a', list_loop) refl)))

  FullNames-AllBoxes : (boxes : List Box) → AllBoxes boxes → FullNames boxes
  FullNames-AllBoxes [] h = tt
  FullNames-AllBoxes (box ∷ boxes) (b, rest) =
      let size : length box.name ≡ 32 =
        ap length b.name_array ∙ length-padded 32 b.content (omega (arith, b.short)) in
      (size, FullNames-AllBoxes boxes rest)

  by_count :
      {br : Broker}
      → IsBroker br
      → 0 < br.slots
      → (bs : List Box) → boxes_of br ≡ bs
      → list_loop pipe_ok br.slots br.free_boxes br.boxes_table (pos (length bs)) 0 0
        ≡ sends (pos 0) (answers bs)
  by_count {br} w p [] e =
      let one_more : br.slots ≡ suc (br.slots - 1) = omega arith in
      ap (λ n. list_loop pipe_ok n br.free_boxes br.boxes_table (pos 0) 0 0) one_more
      ∙ list_loop-empty (br.slots - 1) br.free_boxes br.boxes_table (omega (arith, w.states))
          (omega (arith, w.entries))
  by_count {br} w p (b ∷ bs) e =
      list_loop-answers br.slots (suc (length bs)) 0 0 br.free_boxes br.boxes_table w.states
        w.entries (FullNames-AllBoxes (boxes_of br) w.boxes) (omega arith)
        (omega (arith, ap length e)) (inl refl)
      ∙ ap (λ bs. sends (pos 0) (answers_of bs)) e

  -- A listing returns 0 and writes one packet for each box in use, in the order of the table, of
  -- which just the last is marked; without boxes it writes one marked packet without a name. The
  -- table is well-formed and not of length 0, and the client's pipe opens and takes every packet.
  pub workers_handle_manager_listing-answers :
      (br : Broker)
      → IsBroker br
      → 0 < br.slots
      → workers_handle_manager_listing true pipe_ok br ≡ sends (pos 0) (answers (boxes_of br))
  unfolding workers_handle_manager_listing
  workers_handle_manager_listing-answers br w p =
      ap (λ n. list_loop pipe_ok br.slots br.free_boxes br.boxes_table n 0 0) w.counted
      ∙ by_count w p (boxes_of br) refl

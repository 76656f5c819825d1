-- ===== src/Broker/Sessions/Publishing.antt =====
-- mbroker/mbroker.c, `workers_handle_pub_register`: the outcomes of the reads from
-- a publisher's pipe and of the writes to the file of the box.

-- A read from a pipe takes `n` bytes from its front, or fails.
use tecnico_fs_so.Prelude.{
  refl, Bool-cases, List, Option, [], ap, arith, bytes_eq, drop, get_elem?, inl, inr, leb, length,
  length-take, none, pos, some, suc, take, zero, ℕ, ℤ, ◌*◌, ◌++◌, ◌∙◌, ◌∷◌, ◌≡◌, ◌≢◌, bytes_eq→eq,
  ◌≤◌, set, sym,
}
use tecnico_fs_so.Broker.Types.{Broker, Box}
use tecnico_fs_so.Fs.Types.{State, taken}
use tecnico_fs_so.Protocol.{pipe_read}
use tecnico_fs_so.Broker.Sessions.{
  protocol_code_message_receive, after_code, update_box, put_box, add_message, Taken, message_read,
  loop_ends, whole_message, take_message, Stored, stored_whole, cut_short, after_store,
  store_message,
}
use tecnico_fs_so.Broker.Sessions.Shared.{Shared, tfs_write-Appends, Appends, appended, full}
use tecnico_fs_so.Protocol.Messages.{msg_max_len}
use tecnico_fs_so.Fs.Run.{Run}

data Piped (n : ℕ) (bytes : List ℕ) : Option (List ℕ × List ℕ) → Type 0 where
  failed : Piped n bytes none
  took : (xs ys : List ℕ) → bytes ≡ xs ++ ys → length xs ≡ n → Piped n bytes (some (xs, ys))

take-drop : (n : ℕ) (xs : List ℕ) → xs ≡ take n xs ++ drop n xs
take-drop zero [] = refl
take-drop zero (x ∷ xs) = refl
take-drop (suc n) [] = refl
take-drop (suc n) (x ∷ xs) = ap (◌∷◌ x) (take-drop n xs)

pipe_read-Piped : (n : ℕ) (bytes : List ℕ) → Piped n bytes (pipe_read n bytes)
unfolding pipe_read
pipe_read-Piped n bytes = elim (Bool-cases (leb n (length bytes))) [
  | inl enough ↦
      let le : n ≤ length bytes = ground (arith, enough) in
      rw enough (
        took (take n bytes) (drop n bytes) (take-drop n bytes)
          (omega (arith, length-take n bytes, le)))
  | inr short ↦ rw short failed
]

-- What is taken from the pipe while the box is in use: a whole message from its front, or nothing.
pub data Takes (input : List ℕ) : Taken → Type 0 where
  message_taken :
      (m : List ℕ) {rest : List ℕ}
      → input ≡ protocol_code_message_receive ∷ (m ++ rest)
      → length m ≡ msg_max_len
      → Takes input (message_read m rest)
  loop_left : Takes input loop_ends

whole_message-Takes :
    {input rest : List ℕ} {x : Option (List ℕ × List ℕ)}
    → input ≡ protocol_code_message_receive ∷ rest
    → Piped msg_max_len rest x
    → Takes input (whole_message x)
whole_message-Takes e failed = loop_left
whole_message-Takes e (took m rest e' size) =
    message_taken m (e ∙ ap (◌∷◌ protocol_code_message_receive) e') size

after_code-Takes :
    {input : List ℕ} {x : Option (List ℕ × List ℕ)} (box_i : ℕ) (br : Broker)
    → get_elem? br.free_boxes box_i ≡ some taken
    → Piped 1 input x
    → Takes input (after_code box_i br x)
after_code-Takes box_i br in_use failed = loop_left
after_code-Takes box_i br in_use (took code rest e size) =
    elim (Bool-cases (bytes_eq code (protocol_code_message_receive ∷ []))) [
      | inl same ↦
          let code_is : code ≡ protocol_code_message_receive ∷ [] =
            bytes_eq→eq code (protocol_code_message_receive ∷ []) same in
          rw (same, in_use)
            (whole_message-Takes (e ∙ ap (λ xs. xs ++ rest) code_is)
              (pipe_read-Piped msg_max_len rest))
      | inr other ↦ rw other loop_left
    ]

pub take_message-Takes :
    (box_i : ℕ) (br : Broker)
    → get_elem? br.free_boxes box_i ≡ some taken
    → (input : List ℕ) → Takes input (take_message box_i input br)
unfolding take_message
take_message-Takes box_i br in_use input =
    after_code-Takes box_i br in_use (pipe_read-Piped 1 input)

-- What a write of a message comes to: it stands at the end of the file, or the file is as before.
pub data Stores (h g i q : ℕ) (content : List ℕ) (start : ℕ) (m : List ℕ) : Stored → Type 0 where
  message_stored :
      {files : State}
      → Shared files h g i q (content ++ m) start
      → Stores h g i q content start m (stored_whole files)
  not_stored :
      {files : State}
      → Shared files h g i q content start
      → Stores h g i q content start m (cut_short files)

after_store-Stores :
    {h g i q start : ℕ} {content m : List ℕ} {r : Run ℤ}
    → Appends h g i q content start m r
    → Stores h g i q content start m (after_store r)
after_store-Stores (appended after) = message_stored after
after_store-Stores (full short after) = rw short (not_stored after)

pub store_message-Stores :
    {s : State} {h g i q start : ℕ} {content : List ℕ} (k : ℕ)
    → h ≢ g
    → Shared s h g i q content start
    → length content ≡ k * msg_max_len
    → (m : List ℕ) → length m ≡ msg_max_len
    → Stores h g i q content start m (store_message (pos h) m s)
unfolding store_message
store_message-Stores k ne shared e m size =
    after_store-Stores (tfs_write-Appends ne shared k m e size)

-- The update of a box leaves the marks of use as they are.
pub update_box-free_boxes :
    (box_i : ℕ) (br : Broker) {after : Broker}
    → update_box box_i add_message br ≡ some after
    → after.free_boxes ≡ br.free_boxes
unfolding update_box
update_box-free_boxes box_i br {after} e = by_box (get_elem? br.boxes_table box_i) e
  where
    by_box :
        (box : Option Box)
        → put_box br box_i add_message box ≡ some after
        → after.free_boxes ≡ br.free_boxes
    by_box none e = cc
    by_box (some box) e =
        let same : record br { boxes_table = set br.boxes_table box_i (add_message box) } ≡ after =
          ground arith in
        ap (λ b. b.free_boxes) (sym same)

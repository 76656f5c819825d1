-- ===== src/Manager/Management.antt =====
-- manager/manager.c: `manager_handle_box_management`, on the bytes of the broker's answer.
pub mod Answered
use tecnico_fs_so.Prelude.{
  ℕ, Bool, List, Option, [], bytes_eq, if◌then◌else◌, int_eq, none, pos, read_int, some, ◌||◌, ◌∷◌,
}
use tecnico_fs_so.Protocol.{pipe_read}
use tecnico_fs_so.Broker.Handlers.{protocol_code_create_answer, protocol_code_remove_answer}
use tecnico_fs_so.Fs.Entries.{c_string}
use tecnico_fs_so.Protocol.Messages.{msg_max_len}

-- What is printed before the manager returns 0, "OK" or "ERROR" and the message; or it returns -1.
pub data Reply : Type 0 where
  ok_line failed : Reply
  error_line : List ℕ → Reply

abbrev pub then_reply : Option (List ℕ × List ℕ) → (List ℕ → List ℕ → Reply) → Reply
then_reply none go = failed
then_reply (some (bytes, rest)) go = go bytes rest

abbrev pub is_answer_code : List ℕ → Bool
is_answer_code code =
    bytes_eq code (protocol_code_create_answer ∷ [])
    || bytes_eq code (protocol_code_remove_answer ∷ [])

-- The message is printed up to its NUL.
unfoldable pub manager_handle_box_management : List ℕ → Reply
manager_handle_box_management bytes = then_reply (pipe_read 1 bytes) (λ code rest.
    if is_answer_code code
    then then_reply (pipe_read 4 rest) (λ return_code rest.
      if int_eq (read_int return_code) (pos 0)
      then ok_line
      else then_reply (pipe_read msg_max_len rest)
          (λ error_message rest. error_line (c_string error_message)))
    else failed)

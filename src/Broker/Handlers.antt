-- ===== src/Broker/Handlers.antt =====
-- mbroker/mbroker.c: `workers_handle_manager_create` and `workers_handle_manager_remove`.
pub mod Replies
use tecnico_fs_so.Prelude.{
  ℕ, Bool, List, [], false, if◌then◌else◌, int_bytes, int_eq, minus_one, nonneg, pos, replicate,
  true, ℤ, ◌+◌, ◌∷◌,
}
use tecnico_fs_so.Broker.Types.{Broker, Call, ends}
use tecnico_fs_so.Broker.Files.{FileSystem}
use tecnico_fs_so.Protocol.{Packet, fill_then, packet_write, ready}
use tecnico_fs_so.Broker.Table.{box_create, box_delete}
use tecnico_fs_so.Fs.Ops.{tfs_o_creat}
use tecnico_fs_so.Protocol.Messages.{msg_max_len}

abbrev pub protocol_code_create_answer : ℕ
protocol_code_create_answer = 4

abbrev pub protocol_code_remove_answer : ℕ
protocol_code_remove_answer = 6

-- "Couldn't create box" and "Couldn't remove box".
abbrev pub create_error : List ℕ
create_error =
    b'C' ∷ b'o' ∷ b'u' ∷ b'l' ∷ b'd' ∷ b'n' ∷ 39 ∷ b't' ∷ 32 ∷ b'c' ∷ b'r' ∷ b'e' ∷ b'a' ∷ b't'
    ∷ b'e' ∷ 32 ∷ b'b' ∷ b'o' ∷ b'x' ∷ []

abbrev pub remove_error : List ℕ
remove_error =
    b'C' ∷ b'o' ∷ b'u' ∷ b'l' ∷ b'd' ∷ b'n' ∷ 39 ∷ b't' ∷ 32 ∷ b'r' ∷ b'e' ∷ b'm' ∷ b'o' ∷ b'v'
    ∷ b'e' ∷ 32 ∷ b'b' ∷ b'o' ∷ b'x' ∷ []

-- code | return_code | error_message
unfoldable pub answer_packet : ℕ → ℤ → List ℕ → Packet
answer_packet code return_code error_message =
    fill_then
      (packet_write (record { packet = replicate (1 + 4 + msg_max_len) 0; packet_offset = 0 })
        (code ∷ []))
      (λ f.
        fill_then (packet_write f (int_bytes return_code))
          (λ f. fill_then (packet_write f error_message) (λ f. ready f.packet)))

-- What a handler does: whether it reports success, with the files and the table afterwards; or an
-- access outside of the table.
pub data Handled (Store : Type 0) : Type 0 where
  reports : Bool → Store → Broker → Handled Store
  bad_access : Handled Store

module _ (fs : FileSystem) where
  open fs use {Store, open_file, close_file, unlink_file}

  -- `tfs_close(f)`, and the end.
  abbrev pub close_and_report : ℤ → Bool → Store → Broker → Handled Store
  close_and_report f success files br = reports success (close_file f files).1 br

  abbrev pub after_box_create : ℤ → Store → Call ℤ → Handled Store
  after_box_create f files (ends r br) = close_and_report f (int_eq r (pos 0)) files br
  after_box_create f files Call.bad_access = Handled.bad_access

  abbrev pub after_second_open : List ℕ → Broker → ℤ × Store → Handled Store
  after_second_open box_name br (f, files) =
      if nonneg f
      then after_box_create f files (box_create box_name br)
      else close_and_report f false files br

  abbrev pub after_first_open : List ℕ → Broker → ℤ × Store → Handled Store
  after_first_open box_name br (f, files) =
      if nonneg f
      then close_and_report f false files br
      else after_second_open box_name br (open_file box_name tfs_o_creat files)

  -- The box is created if no file has its name and a file with its name can be created.
  unfoldable pub handle_create : List ℕ → Store → Broker → Handled Store
  handle_create box_name files br = after_first_open box_name br (open_file box_name 0 files)

  abbrev pub after_unlink : Broker → ℤ × Store → Handled Store
  after_unlink br (r, files) = reports (int_eq r (pos 0)) files br

  -- The file is only unlinked if the box was in the table.
  abbrev pub after_box_delete : List ℕ → Store → Call ℤ → Handled Store
  after_box_delete box_name files (ends r br) =
      if int_eq r (pos 0)
      then after_unlink br (unlink_file box_name files)
      else reports false files br
  after_box_delete box_name files Call.bad_access = Handled.bad_access

  unfoldable pub handle_remove : List ℕ → Store → Broker → Handled Store
  handle_remove box_name files br = after_box_delete box_name files (box_delete box_name br)

-- The return code and the message of an answer.
abbrev pub reply_packet : ℕ → List ℕ → Bool → Packet
reply_packet code error_message true = answer_packet code (pos 0) []
reply_packet code error_message false = answer_packet code minus_one error_message

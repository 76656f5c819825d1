-- ===== src/Broker/Sessions.antt =====
-- mbroker/mbroker.c: `workers_handle_pub_register`, the session of a publisher, and how the session of
-- a subscriber begins and ends.
pub mod Subscriber
pub mod Shared
pub mod Reads
pub mod Steps
pub mod Publishing
pub mod Sending
pub mod Invariant
pub mod InOrder
pub mod Progress
pub mod Samples
mod Examples
pub mod Delivery
use tecnico_fs_so.Prelude.{
  Bool, List, Option, [], bytes_eq, false, get_elem?, if◌then◌else◌, int_eq, ltb, negsuc, none,
  nonneg, pos, put, replicate, set, some, true, ℕ, ℤ, ◌%◌, ◌+◌, ◌-◌, ◌^◌, ◌∷◌,
}
use tecnico_fs_so.Protocol.Messages.{msg_max_len}
-- PROTOCOL_CODE_MESSAGE_RECEIVE and PROTOCOL_CODE_MESSAGE_SEND.
use tecnico_fs_so.Prelude.{
  Bool, List, Option, [], bytes_eq, false, get_elem?, if◌then◌else◌, int_eq, ltb, negsuc, none,
  nonneg, pos, put, replicate, set, some, true, ℕ, ℤ, ◌%◌, ◌+◌, ◌-◌, ◌^◌, ◌∷◌,
}
use tecnico_fs_so.Broker.Types.{Box, Broker, Call, ends}
use tecnico_fs_so.Fs.Run.{M, Run, halt, ok}
use tecnico_fs_so.Protocol.{Packet, fill_then, pipe_read, ready, packet_write}
use tecnico_fs_so.Fs.Types.{State, AllocationState, free, taken}
use tecnico_fs_so.Fs.Ops.{tfs_close, tfs_open, tfs_write, tfs_o_append}
use tecnico_fs_so.Broker.Table.{box_find}

abbrev pub protocol_code_message_receive : ℕ
protocol_code_message_receive = 9

abbrev pub protocol_code_message_send : ℕ
protocol_code_message_send = 10

-- `n++` and `n--` on a `uint64_t`.
abbrev pub incr_word : ℕ → ℕ
incr_word n = (n + 1) % 2 ^ 64

abbrev pub decr_word : ℕ → ℕ
decr_word n = (n + (2 ^ 64 - 1)) % 2 ^ 64

-- An assignment to a field of `boxes_table[i]`; nothing is beyond the end of the table.
abbrev pub put_box : Broker → ℕ → (Box → Box) → Option Box → Option Broker
put_box br i f none = none
put_box br i f (some box) = some (record br { boxes_table = set br.boxes_table i (f box) })

unfoldable pub update_box : ℕ → (Box → Box) → Broker → Option Broker
update_box i f br = put_box br i f (get_elem? br.boxes_table i)

abbrev pub add_publisher : Box → Box
add_publisher box = record box { n_publishers = incr_word box.n_publishers }

abbrev pub drop_publisher : Box → Box
drop_publisher box = record box { n_publishers = decr_word box.n_publishers }

abbrev pub add_subscriber : Box → Box
add_subscriber box = record box { n_subscribers = incr_word box.n_subscribers }

abbrev pub drop_subscriber : Box → Box
drop_subscriber box = record box { n_subscribers = decr_word box.n_subscribers }

abbrev pub add_message : Box → Box
add_message box = record box { size = (box.size + msg_max_len) % 2 ^ 64 }

-- How a session begins: the client is turned away, or gets the box with this index and an open file;
-- or an access outside of a table or a failed assertion ends the broker.
pub data Entered : Type 0 where
  refused : State → Broker → Entered
  entered : ℕ → ℤ → State → Broker → Entered
  broken : Entered

abbrev pub refused_with : State → Option Broker → Entered
refused_with files none = broken
refused_with files (some br) = refused files br

-- After `tfs_open`; `undo` takes the client out of the box again.
abbrev pub after_box_open : (Box → Box) → ℕ → Broker → Run ℤ → Entered
after_box_open undo i br (halt e) = broken
after_box_open undo i br (ok box_f files) =
    if nonneg box_f then entered i box_f files br else refused_with files (update_box i undo br)

abbrev pub open_box : (Box → Box) → ℕ → M ℤ → State → Option Broker → Entered
open_box undo i call files none = broken
open_box undo i call files (some br) = after_box_open undo i br (call files)

abbrev pub pub_found : M ℤ → State → Call ℤ → Entered
pub_found call files Call.bad_access = broken
pub_found call files (ends (negsuc n) br) = refused files br
pub_found call files (ends (pos i) br) = elim (get_elem? br.boxes_table i) [
  | none ↦ broken
  | some box ↦
      if ltb 0 box.n_publishers
      then refused files br
      else open_box drop_publisher i call files (update_box i add_publisher br)
]

-- `fuel` bounds the symbolic links that the name of the box leads through.
unfoldable pub pub_enter : ℕ → List ℕ → State → Broker → Entered
pub_enter fuel box_name files br =
    pub_found (tfs_open fuel (some box_name) tfs_o_append) files (box_find box_name br)

abbrev pub sub_found : M ℤ → State → Call ℤ → Entered
sub_found call files Call.bad_access = broken
sub_found call files (ends (negsuc n) br) = refused files br
sub_found call files (ends (pos i) br) =
    open_box drop_subscriber i call files (update_box i add_subscriber br)

unfoldable pub sub_enter : ℕ → List ℕ → State → Broker → Entered
sub_enter fuel box_name files br =
    sub_found (tfs_open fuel (some box_name) 0) files (box_find box_name br)

-- Where a publisher's session stands: before it reads a message from its pipe, with a message that it
-- has read, after `tfs_write` and before the update of the box, or behind the loop, with the bytes
-- of a packet that it has read and not stored.
pub data PubPlace : Type 0 where
  takes_next updates_box : PubPlace
  stores_message left_with : List ℕ → PubPlace

-- What the session gets from its pipe: a message, with the bytes behind it; or it leaves the loop.
pub data Taken : Type 0 where
  message_read : List ℕ → List ℕ → Taken
  loop_ends breaks : Taken

abbrev pub whole_message : Option (List ℕ × List ℕ) → Taken
whole_message none = loop_ends
whole_message (some (message, rest)) = message_read message rest

abbrev pub if_box_taken : Option AllocationState → Taken → Taken
if_box_taken none go = breaks
if_box_taken (some free) go = loop_ends
if_box_taken (some taken) go = go

abbrev pub after_code : ℕ → Broker → Option (List ℕ × List ℕ) → Taken
after_code box_i br none = loop_ends
after_code box_i br (some (code, rest)) =
    if bytes_eq code (protocol_code_message_receive ∷ [])
    then if_box_taken (get_elem? br.free_boxes box_i) (whole_message (pipe_read msg_max_len rest))
    else loop_ends

-- From the read of the code to the read of the message; `bytes` are in the session's pipe.
unfoldable pub take_message : ℕ → List ℕ → Broker → Taken
take_message box_i bytes br = after_code box_i br (pipe_read 1 bytes)

-- Whether the whole message was written to the file.
pub data Stored : Type 0 where
  stored_whole cut_short : State → Stored
  write_faults : Stored

abbrev pub after_store : Run ℤ → Stored
after_store (halt e) = write_faults
after_store (ok r files) =
    if int_eq r (pos msg_max_len) then stored_whole files else cut_short files

unfoldable pub store_message : ℤ → List ℕ → State → Stored
store_message box_f message files = after_store (tfs_write box_f (some message) msg_max_len files)

-- What follows the loop, for either: the client is taken out of the box and the file is closed.
abbrev pub after_leave : Option Broker → Run ℤ → Entered
after_leave none r = broken
after_leave (some br) (halt e) = broken
after_leave (some br) (ok r files) = refused files br

unfoldable pub pub_leave : ℕ → ℤ → State → Broker → Entered
pub_leave box_i box_f files br =
    after_leave (update_box box_i drop_publisher br) (tfs_close box_f files)

unfoldable pub sub_leave : ℕ → ℤ → State → Broker → Entered
sub_leave box_i box_f files br =
    after_leave (update_box box_i drop_subscriber br) (tfs_close box_f files)

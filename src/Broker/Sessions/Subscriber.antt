-- ===== src/Broker/Sessions/Subscriber.antt =====
-- mbroker/mbroker.c: the loop of `workers_handle_sub_register`.
use tecnico_fs_so.Prelude.{
  Bool, List, Option, false, get_elem?, if◌then◌else◌, int_eq, none, pos, put, some, true, ℕ, ℤ,
}
use tecnico_fs_so.Fs.Types.{free, taken, State, AllocationState}
use tecnico_fs_so.Protocol.{too_long, overrun, Packet, ready}
use tecnico_fs_so.Fs.Run.{Run, halt, ok}
use tecnico_fs_so.Broker.Types.{Broker}
use tecnico_fs_so.Fs.Ops.{tfs_read}
use tecnico_fs_so.Broker.Sessions.{protocol_code_message_send}
use tecnico_fs_so.Protocol.Messages.{msg_max_len, message_packet}

-- Where a subscriber's session stands: before the test whether a message has come, after such a test
-- and with the mutex of the box still locked, asleep in `cond_wait`, before the test whether the box is still there, before the packet is sent, before the next read without a test, or at the end.
pub data Place : Type 0 where
  tests dozing asleep checks sends_message reads_on over : Place

-- `message` is the array that the messages are read to.
pub record Subscriber : Type 0 where
  pub place : Place
  pub message : List ℕ

-- A step of it: with the packet that it writes, if any.
pub data SubStep : Type 0 where
  moves : Subscriber → State → SubStep
  writes : List ℕ → Subscriber → State → SubStep
  faults : SubStep

-- After a read: to `full` if it has read a whole message, else to `short`.
abbrev pub after_message : Place → Place → List ℕ → Run (ℤ × List ℕ) → SubStep
after_message full short message (halt e) = faults
after_message full short message (ok (r, bytes) files) =
    moves
      (record {
        place = if int_eq r (pos msg_max_len) then full else short;
        message = put message 0 bytes;
      })
      files

abbrev pub test_box : List ℕ → State → Run (ℤ × List ℕ) → Option AllocationState → SubStep
test_box message files result none = faults
test_box message files result (some free) =
    moves (record { place = checks; message = message }) files
test_box message files result (some taken) = after_message checks dozing message result

abbrev pub check_box : List ℕ → State → Option AllocationState → SubStep
check_box message files none = faults
check_box message files (some free) = moves (record { place = over; message = message }) files
check_box message files (some taken) =
    moves (record { place = sends_message; message = message }) files

-- The packet is written to the pipe, unless the other end is closed.
abbrev pub send_packet : Bool → List ℕ → State → Packet → SubStep
send_packet pipe_open message files too_long = faults
send_packet pipe_open message files overrun = faults
send_packet false message files (ready packet) =
    moves (record { place = over; message = message }) files
send_packet true message files (ready packet) =
    writes packet (record { place = reads_on; message = message }) files

abbrev pub step_at : Place → ℕ → ℤ → Bool → List ℕ → State → Broker → SubStep
step_at tests box_i box_f pipe_open message files br =
    test_box message files (tfs_read box_f true msg_max_len files) (get_elem? br.free_boxes box_i)
step_at dozing box_i box_f pipe_open message files br =
    moves (record { place = asleep; message = message }) files
step_at asleep box_i box_f pipe_open message files br =
    moves (record { place = tests; message = message }) files
step_at checks box_i box_f pipe_open message files br =
    check_box message files (get_elem? br.free_boxes box_i)
step_at sends_message box_i box_f pipe_open message files br =
    send_packet pipe_open message files (message_packet protocol_code_message_send message)
step_at reads_on box_i box_f pipe_open message files br =
    after_message sends_message tests message (tfs_read box_f true msg_max_len files)
step_at over box_i box_f pipe_open message files br =
    moves (record { place = over; message = message }) files

-- `cond_broadcast`: a sleeper is woken, and tests again.
abbrev pub woken : Place → Place
woken tests = tests
woken dozing = dozing
woken asleep = tests
woken checks = checks
woken sends_message = sends_message
woken reads_on = reads_on
woken over = over

abbrev pub wake : Subscriber → Subscriber
wake sub = record { place = woken sub.place; message = sub.message }

-- A step of the session; a sleeper may wake up by itself.
unfoldable pub sub_step : ℕ → ℤ → Bool → Subscriber → State → Broker → SubStep
sub_step box_i box_f pipe_open sub files br =
    step_at sub.place box_i box_f pipe_open sub.message files br

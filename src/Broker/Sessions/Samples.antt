-- ===== src/Broker/Sessions/Samples.antt =====
-- mbroker/mbroker.c: a box with a publisher and a subscriber, for the instances of theorems.

-- A box whose file is still empty, on the only block.
use tecnico_fs_so.Prelude.{
  refl, List, [], arith, inl, inr, minus_one, pos, replicate, true, ℕ, ◌∷◌, ◌≡◌, ◌⊎◌, bytes_eq,
  some,
}
use tecnico_fs_so.Broker.Types.{Box, Broker}
use tecnico_fs_so.Broker.Sessions.Steps.{
  Config, Reach, takes, stores, broadcasts, then_step, no_step, moves_on,
}
use tecnico_fs_so.Fs.Types.{Inode, State, AllocationState, free, t_file, taken}
use tecnico_fs_so.Broker.Sessions.InOrder.{Starts}
use tecnico_fs_so.Fs.Files.Handles.{IsOpen}
use tecnico_fs_so.Broker.Sessions.{
  protocol_code_message_receive, update_box, takes_next, take_message, store_message, message_read,
  stored_whole, add_message,
}
use tecnico_fs_so.Fs.Files.Content.{nothing}
use tecnico_fs_so.Protocol.{pipe_read}
use tecnico_fs_so.Broker.Sessions.Subscriber.{tests, dozing, asleep, moves, sub_step}
use tecnico_fs_so.Fs.Ops.{tfs_write, tfs_read}
use tecnico_fs_so.Fs.Files.{
  write_to_open_file, get_open_file_entry, handle_entry, set_handle, clip, fitting, grow, add_size,
  sub_size, write_bytes, write_first, read_from_open_file, shorter,
}
use tecnico_fs_so.Fs.Tables.{first_free}
use tecnico_fs_so.Fs.Run.{
  assert, in_bounds, read_at, index, write_at, update_inode, read_inode, read_block, write_block,
}
use tecnico_fs_so.Fs.Inodes.{inode_get}
use tecnico_fs_so.Fs.Blocks.{data_block_alloc, data_block_get}
use tecnico_fs_so.Protocol.Layout.{padded}

abbrev pub empty_file : Inode
empty_file = record { i_node_type = t_file; i_size = 0; i_data_block = minus_one; i_hard_links = 1 }

abbrev pub one_block : List ℕ → Inode → AllocationState → ℕ → State
one_block block inode state offset = record {
  fs_params = record {
    max_inode_count = 1;
    max_block_count = 1;
    max_open_files_count = 2;
    block_size = 1024;
  };
  mounted = true;
  inode_table = inode ∷ [];
  freeinode_ts = taken ∷ [];
  fs_data = block ∷ [];
  free_blocks = state ∷ [];
  open_file_table =
      record { of_inumber = pos 0; of_offset = offset }
      ∷ record { of_inumber = pos 0; of_offset = 0 }
      ∷ [];
  free_open_file_entries = taken ∷ taken ∷ [];
}

abbrev pub before : State
before = one_block (replicate 1024 7) empty_file free 0

abbrev pub box : ℕ → Box
box size = record { name = replicate 32 46; size = size; n_publishers = 1; n_subscribers = 1 }

abbrev pub one_box : ℕ → Broker
one_box size = record {
  slots = 1;
  n_boxes = pos 1;
  boxes_table = box size ∷ [];
  free_boxes = taken ∷ [];
}

abbrev pub letter : List ℕ
letter = padded 1024 (b'h' ∷ b'i' ∷ [])

abbrev pub packet : List ℕ
packet = protocol_code_message_receive ∷ letter

abbrev pub at_first : List ℕ → Config
at_first bytes = record {
  files = before;
  broker = one_box 0;
  publisher = takes_next;
  came = bytes;
  input = bytes;
  subscriber = record { place = tests; message = replicate 1024 0 };
  output = [];
}

abbrev pub after : State
after =
    one_block letter
      (record { i_node_type = t_file; i_size = 1024; i_data_block = pos 0; i_hard_links = 1 }) taken
      1024

abbrev pub later : Config
later = record {
  files = after;
  broker = one_box 1024;
  publisher = takes_next;
  came = packet;
  input = [];
  subscriber = record { place = tests; message = replicate 1024 0 };
  output = [];
}

pub message_taken_first : take_message 0 packet (one_box 0) ≡ message_read letter []
unfolding take_message pipe_read bytes_eq
message_taken_first = refl

pub message_stored_first : store_message (pos 0) letter before ≡ stored_whole after
unfolding store_message tfs_write write_to_open_file get_open_file_entry handle_entry assert
    in_bounds read_at index write_at update_inode inode_get read_inode read_block write_block
    set_handle clip fitting grow add_size sub_size write_bytes write_first data_block_alloc
    data_block_get first_free
message_stored_first = refl

pub box_updated : update_box 0 add_message (one_box 0) ≡ some (one_box 1024)
unfolding update_box
box_updated = refl

-- The steps in which the message is published.
pub published : {c : Config} → Reach 0 0 1 c (at_first packet) → Reach 0 0 1 c later
published r =
    then_step
      (then_step (then_step r (takes refl message_taken_first)) (stores refl message_stored_first))
      (broadcasts refl (λ e. cc) box_updated)

-- The subscriber tests for a message first, finds none, and goes to sleep.
abbrev pub sleeper : Config
sleeper = record (at_first packet) {
  subscriber = record { place = asleep; message = replicate 1024 0 };
}

pub no_message_yet :
    sub_step 0 (pos 1) true (at_first packet).subscriber before (one_box 0)
    ≡ moves (record { place = dozing; message = replicate 1024 0 }) before
unfolding sub_step tfs_read read_from_open_file get_open_file_entry handle_entry assert in_bounds
    read_at index write_at inode_get read_inode set_handle clip shorter sub_size
no_message_yet = refl

pub goes_to_sleep :
    sub_step 0
      (pos 1)
      true
      (record { place = dozing; message = replicate 1024 0 })
      before
      (one_box 0)
    ≡ moves (record { place = asleep; message = replicate 1024 0 }) before
unfolding sub_step
goes_to_sleep = refl

pub falls_asleep : Reach 0 0 1 (at_first packet) sleeper
falls_asleep =
    then_step (then_step no_step (moves_on true no_message_yet)) (moves_on true goes_to_sleep)

at_first-IsOpen : (h : ℕ) → (h ≡ 0) ⊎ (h ≡ 1) → IsOpen before h 0 0 empty_file
at_first-IsOpen h e = record {
  valid_handle = omega (arith, e);
  handle_taken = elim e [ inl z ↦ rw z refl | inr z ↦ rw z refl ];
  file = elim e [ inl z ↦ rw z refl | inr z ↦ rw z refl ];
  in_table = omega (arith, e);
  valid_inode = omega arith;
  inode_at = refl;
}

pub at_first-Starts : (bytes : List ℕ) → Starts 0 0 1 0 1 [] (at_first bytes)
at_first-Starts bytes = record {
  sized = tt;
  shared = record {
    inode = empty_file;
    writer = at_first-IsOpen 0 (inl refl);
    reader = at_first-IsOpen 1 (inr refl);
    holds = nothing refl;
    exist = record {
      marks = omega arith;
      block_of = λ b lt. let first : b ≡ 0 = omega arith in (replicate 1024 7, rw first refl, refl);
    };
    small = omega arith;
    whole = refl;
  };
  box_taken = refl;
  publisher_first = refl;
  unread = refl;
  silent = refl;
  testing_first = refl;
  array_size = refl;
}

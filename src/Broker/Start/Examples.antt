-- ===== src/Broker/Start/Examples.antt =====
-- mbroker/mbroker.c: an instance of the theorem on a start in which nothing fails.

use tecnico_fs_so.Prelude.{
  refl, [], arith, none, some, true, ◌∷◌, List, get_elem?, length, length-replicate, pos, replicate,
  suc, zero, ℕ, ◌<◌, ◌≡◌,
}
use tecnico_fs_so.Pcq.{Pcq}
use tecnico_fs_so.Protocol.{Request}
use tecnico_fs_so.Broker.Start.{StartMemory, mbroker_init, start_params, started}
use tecnico_fs_so.Broker.Start.Ready.{StartGranted, AtStart, mbroker_init-AtStart}
use tecnico_fs_so.Fs.Samples.{unmounted, any_inode}
use tecnico_fs_so.Broker.Types.{Box, Broker}
use tecnico_fs_so.Fs.Types.{Memory, State, taken}
use tecnico_fs_so.Fs.Ops.{tfs_default_params}
use tecnico_fs_so.Fs.Ops.Format.{Granted}

abbrev any_request : Request
any_request = record { code = 9; client_named_pipe_path = []; box_name = none }

abbrev any_queue : Pcq Request
any_queue = record {
  pcq_buffer = none;
  pcq_capacity = 3;
  pcq_current_size = 4;
  pcq_head = 5;
  pcq_tail = 6;
}

unfoldable block_of : ℕ → List ℕ
block_of n = replicate n 46

length-block_of : (n : ℕ) → length (block_of n) ≡ n
unfolding block_of
length-block_of n = length-replicate n 46

abbrev large_block : List ℕ
large_block = block_of 1048576

abbrev large_memory : Memory
large_memory = record {
  inode_table = some (replicate 64 any_inode);
  inode_locks = true;
  freeinode_ts = some (replicate 64 taken);
  fs_data = some (replicate 1024 large_block);
  dir_locks = true;
  free_blocks = some (replicate 1024 taken);
  open_file_table = some (replicate 2 (record { of_inumber = pos 8; of_offset = 8 }));
  free_open_file_entries = some (replicate 2 taken);
}

abbrev any_box : Box
any_box = record { name = replicate 32 46; size = 7; n_publishers = 9; n_subscribers = 11 }

abbrev some_memory : StartMemory
some_memory = record {
  tfs_memory = large_memory;
  queue = some any_queue;
  pcq_buffer = some (any_request ∷ any_request ∷ []);
  workers = true;
  threads = true;
  boxes_table = some (replicate 64 any_box);
  free_boxes = some (replicate 64 taken);
  pipe = true;
}

module _ {A : Type 0} where
  get_elem?-replicate : (n i : ℕ) (a : A) → i < n → get_elem? (replicate n a) i ≡ some a
  get_elem?-replicate zero i a lt = absurd (omega arith)
  get_elem?-replicate (suc n) zero a lt = refl
  get_elem?-replicate (suc n) (suc i) a lt = get_elem?-replicate n i a (omega arith)

  replicate-same : (n i : ℕ) {a b : A} → get_elem? (replicate n a) i ≡ some b → b ≡ a
  replicate-same zero i e = cc
  replicate-same (suc n) zero e = cc
  replicate-same (suc n) (suc i) e = replicate-same n i e

large-Granted : Granted (start_params 2) large_memory
unfolding tfs_default_params
large-Granted = record {
  inode_table = replicate 64 any_inode;
  freeinode_ts = replicate 64 taken;
  fs_data = replicate 1024 large_block;
  free_blocks = replicate 1024 taken;
  open_file_table = replicate 2 (record { of_inumber = pos 8; of_offset = 8 });
  free_open_file_entries = replicate 2 taken;
  memory = refl;
  inodes = omega (arith, length-replicate 64 any_inode);
  inode_marks = omega (arith, length-replicate 64 taken);
  block_marks = omega (arith, length-replicate 1024 taken);
  data_blocks =
      λ b lt. (large_block, get_elem?-replicate 1024 b large_block lt, length-block_of 1048576);
  handles = omega arith;
  handle_marks = omega arith;
}

some-StartGranted : StartGranted 2 some_memory
unfolding tfs_default_params
some-StartGranted = record {
  files = large-Granted;
  queue = any_queue;
  queue_at = refl;
  buffer = any_request ∷ any_request ∷ [];
  buffer_at = refl;
  room = omega arith;
  workers = refl;
  threads = refl;
  boxes = replicate 64 any_box;
  boxes_at = refl;
  entries = omega (arith, length-replicate 64 any_box);
  words = λ i box e. let same : box ≡ any_box = replicate-same 64 i e in rw same (omega arith);
  marks = replicate 64 taken;
  marks_at = refl;
  states = omega (arith, length-replicate 64 taken);
  pipe = refl;
}

mbroker_init-AtStart_example :
    (t : State) × (queue : Pcq Request) × (br : Broker) × (mbroker_init 2 some_memory unmounted
      ≡ started t queue br)
    × AtStart 2 t queue br
mbroker_init-AtStart_example =
    mbroker_init-AtStart 2 some_memory unmounted (omega arith) refl some-StartGranted

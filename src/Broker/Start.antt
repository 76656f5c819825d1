-- ===== src/Broker/Start.antt =====
-- mbroker/mbroker.c: `mbroker_init`.
pub mod Empty
pub mod Ready
mod Examples
use tecnico_fs_so.Prelude.{
  Bool, List, Option, false, if◌then◌else◌, int_eq, none, pos, some, true, ℕ, ℤ, ◌&&◌, ◌*◌, [],
  ◌==◌,
}
use tecnico_fs_so.Broker.Types.{Box, Broker}
use tecnico_fs_so.Fs.Types.{Memory, Params, State, AllocationState}
use tecnico_fs_so.Fs.Run.{Run, halt, ok, Fault, overrun}
use tecnico_fs_so.Pcq.{Pcq, pcq_create}
use tecnico_fs_so.Fs.Ops.{tfs_default_params, tfs_init, tfs_destroy}
use tecnico_fs_so.Protocol.{Request}
use tecnico_fs_so.Fs.Setup.{fill_free}

-- What the calls of `malloc` return, and whether the threads and the register pipe can be made.
pub record StartMemory : Type 0 where
  pub tfs_memory : Memory
  pub queue : Option (Pcq Request)
  pub pcq_buffer : Option (List Request)
  pub workers : Bool
  pub threads : Bool
  pub boxes_table : Option (List Box)
  pub free_boxes : Option (List AllocationState)
  pub pipe : Bool

-- The broker is ready; or -1 is returned, with the file system as it is then; or the process ends.
pub data Started : Type 0 where
  started : State → Pcq Request → Broker → Started
  not_started : State → Started
  ended_by : Fault → Started

-- The file system is destroyed again.
abbrev pub give_up : Run ℤ → Started
give_up (ok r files) = not_started files
give_up (halt e) = ended_by e

abbrev pub start_params : ℕ → Params
start_params max_sessions = record tfs_default_params {
  max_open_files_count = max_sessions;
  block_size = 1024 * 1024;
}

-- All boxes are marked as free.
abbrev pub start_table : ℕ → List Box → List AllocationState → Broker
start_table slots boxes_table free_boxes = record {
  slots = slots;
  n_boxes = pos 0;
  boxes_table = boxes_table;
  free_boxes = fill_free slots free_boxes;
}

-- The register pipe is made.
abbrev pub with_pipe : Bool → State → Pcq Request → Broker → Started
with_pipe false files queue br = give_up (tfs_destroy files)
with_pipe true files queue br = started files queue br

-- Without `free_boxes` the first entry that is marked is one of a null pointer.
abbrev pub with_tables :
    Bool → State → Pcq Request → Option (List Box) → Option (List AllocationState) → Started
with_tables pipe files queue none free_boxes = give_up (tfs_destroy files)
with_tables pipe files queue (some table) none =
    if files.fs_params.max_inode_count == 0
    then with_pipe pipe files queue (start_table 0 table [])
    else ended_by overrun
with_tables pipe files queue (some table) (some marks) =
    with_pipe pipe files queue (start_table files.fs_params.max_inode_count table marks)

-- `pcq_create` and what follows it.
abbrev pub with_queue : StartMemory → State → ℤ × Option (Pcq Request) → Started
with_queue mem files (r, none) = give_up (tfs_destroy files)
with_queue mem files (r, some queue) =
    if int_eq r (pos 0) && (mem.workers && mem.threads)
    then with_tables mem.pipe files queue mem.boxes_table mem.free_boxes
    else give_up (tfs_destroy files)

abbrev pub with_files : ℕ → StartMemory → Run ℤ → Started
with_files max_sessions mem (halt e) = ended_by e
with_files max_sessions mem (ok r files) =
    if int_eq r (pos 0)
    then with_queue mem files (pcq_create mem.queue max_sessions mem.pcq_buffer)
    else not_started files

unfoldable pub mbroker_init : ℕ → StartMemory → State → Started
mbroker_init max_sessions mem files =
    with_files max_sessions mem (tfs_init (some (start_params max_sessions)) mem.tfs_memory files)

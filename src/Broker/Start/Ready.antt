-- ===== src/Broker/Start/Ready.antt =====
-- mbroker/mbroker.c, `mbroker_init`: a start in which nothing fails.
use tecnico_fs_so.Prelude.{
  refl, List, [], ap, arith, false, get_elem?, length, some, true, ℕ, ◌<◌, ◌^◌, ◌≡◌, ◌≤◌,
}
use tecnico_fs_so.Broker.Start.{StartMemory, mbroker_init, start_params, started, start_table}
use tecnico_fs_so.Broker.Types.{Box, Broker}
use tecnico_fs_so.Fs.Ops.Format.{Granted, Formatted, length-fill_free, tfs_init-Formatted}
use tecnico_fs_so.Fs.Types.{State, AllocationState}
use tecnico_fs_so.Pcq.{Pcq}
use tecnico_fs_so.Broker.Table.Laws.{IsBroker, boxes_of}
use tecnico_fs_so.Protocol.{Request}
use tecnico_fs_so.Broker.Start.Empty.{listed-fill_free}
use tecnico_fs_so.Pcq.Fifo.{Represents, pcq_create-Represents}
use tecnico_fs_so.Fs.Ops.{tfs_default_params}

-- Each allocation succeeds, and the threads and the register pipe can be made. What the memory of
-- the table holds is arbitrary, but its counters are words of 64 bits.
pub record StartGranted (max_sessions : ℕ) (mem : StartMemory) : Type 0 where
  pub files : Granted (start_params max_sessions) mem.tfs_memory
  pub queue : Pcq Request
  pub queue_at : mem.queue ≡ some queue
  pub buffer : List Request
  pub buffer_at : mem.pcq_buffer ≡ some buffer
  pub room : max_sessions ≤ length buffer
  pub workers : mem.workers ≡ true
  pub threads : mem.threads ≡ true
  pub boxes : List Box
  pub boxes_at : mem.boxes_table ≡ some boxes
  pub entries : (start_params max_sessions).max_inode_count ≤ length boxes
  pub words : (i : ℕ) (box : Box) → get_elem? boxes i ≡ some box → box.n_publishers < 2 ^ 64
  pub marks : List AllocationState
  pub marks_at : mem.free_boxes ≡ some marks
  pub states : (start_params max_sessions).max_inode_count ≤ length marks
  pub pipe : mem.pipe ≡ true

start_table-boxes :
    (slots : ℕ) (boxes : List Box) (marks : List AllocationState)
    → boxes_of (start_table slots boxes marks) ≡ []
start_table-boxes slots boxes marks = listed-fill_free slots marks boxes

start_table-IsBroker :
    (slots : ℕ) (boxes : List Box) (marks : List AllocationState)
    → slots ≤ length boxes
    → slots ≤ length marks
    → ((i : ℕ) (box : Box) → get_elem? boxes i ≡ some box → box.n_publishers < 2 ^ 64)
    → IsBroker (start_table slots boxes marks)
start_table-IsBroker slots boxes marks entries states words = record {
  states = omega (arith, length-fill_free slots marks);
  entries = entries;
  words = words;
  counted = rw (start_table-boxes slots boxes marks) refl;
  boxes = rw (start_table-boxes slots boxes marks) tt;
}

-- How the broker is when it is ready for the first request.
pub record AtStart (max_sessions : ℕ) (files : State) (queue : Pcq Request) (br : Broker)
    : Type 0 where
  pub root_block : List ℕ
  pub formatted : Formatted (start_params max_sessions) files root_block
  pub no_requests : Represents queue []
  pub capacity : queue.pcq_capacity ≡ max_sessions
  pub table : IsBroker br
  pub no_boxes : boxes_of br ≡ []
  pub slots : br.slots ≡ (start_params max_sessions).max_inode_count

-- If every allocation succeeds and the threads and the pipe can be made, the broker gets ready: its
-- file system is set up with an empty root directory, the queue of requests is empty and has room
-- for `max_sessions` requests, and the table of boxes is well-formed, without boxes, and has one
-- entry for each inode. The number of sessions is above 0, and no file system is set up before.
pub mbroker_init-AtStart :
    (max_sessions : ℕ) (mem : StartMemory) (files : State)
    → 0 < max_sessions
    → files.mounted ≡ false
    → StartGranted max_sessions mem
    → (t : State) × (queue : Pcq Request) × (br : Broker) × (mbroker_init max_sessions mem files
        ≡ started t queue br)
      × AtStart max_sessions t queue br
unfolding mbroker_init tfs_default_params
mbroker_init-AtStart k mem files p unmounted g =
    let (t, block, made, formatted) =
      tfs_init-Formatted files g.files (omega arith) (omega arith) (omega arith) unmounted in
    let (queue, queued, empty, capacity) = pcq_create-Represents g.queue k g.buffer p g.room in
    let slots = t.fs_params.max_inode_count in
    let slots_eq : slots ≡ (start_params k).max_inode_count =
      ap (λ q. q.max_inode_count) formatted.params_set in
    (
      t,
      queue,
      start_table slots g.boxes g.marks,
      rw made (
          rw (g.queue_at, g.buffer_at)
            (rw queued (rw (g.workers, g.threads) (rw (g.boxes_at, g.marks_at) (rw g.pipe refl))))),
      record {
        root_block = block;
        formatted = formatted;
        no_requests = empty;
        capacity = capacity;
        table =
            start_table-IsBroker slots g.boxes g.marks (omega (arith, g.entries))
              (omega (arith, g.states)) g.words;
        no_boxes = start_table-boxes slots g.boxes g.marks;
        slots = slots_eq;
      },
    )

-- ===== src/Broker/Start/Empty.antt =====
-- mbroker/mbroker.c, `mbroker_init`: the broker starts with no boxes and no requests.

-- How the start ends: with an empty table, one entry for each inode, and an empty queue; or not.
use tecnico_fs_so.Prelude.{
  refl, Bool, Bool-cases, List, Option, [], false, inl, inr, int_eq, length, none, pos, some, suc,
  true, zero, ℕ, ℤ, ◌&&◌, ◌<◌, ◌∷◌, ◌≡◌, ◌≤◌, ◌==◌, ==→eq, sym,
}
use tecnico_fs_so.Fs.Run.{Run, ok, halt, Fault}
use tecnico_fs_so.Broker.Start.{
  StartMemory, Started, mbroker_init, give_up, with_files, with_queue, started, with_tables,
  not_started, start_params, ended_by, with_pipe, start_table,
}
use tecnico_fs_so.Fs.Types.{State, AllocationState}
use tecnico_fs_so.Fs.Setup.{fill_free}
use tecnico_fs_so.Pcq.{Pcq, pcq_create}
use tecnico_fs_so.Protocol.{Request}
use tecnico_fs_so.Broker.Types.{Box, Broker}
use tecnico_fs_so.Pcq.Fifo.{Represents, pcq_create-Represents}
use tecnico_fs_so.Broker.Table.Laws.{boxes_of}
use tecnico_fs_so.Broker.Table.View.{listed}
use tecnico_fs_so.Fs.Ops.{tfs_destroy, tfs_init}

pub data Starting (max_sessions : ℕ) : Started → Type 0 where
  ready :
      {files : State} {queue : Pcq Request} {br : Broker}
      → boxes_of br ≡ []
      → br.n_boxes ≡ pos 0
      → br.slots ≡ files.fs_params.max_inode_count
      → Represents queue []
      → queue.pcq_capacity ≡ max_sessions
      → Starting max_sessions (started files queue br)
  gave_up : {files : State} → Starting max_sessions (not_started files)
  ended : {e : Fault} → Starting max_sessions (ended_by e)

pub listed-fill_free :
    (n : ℕ) (marks : List AllocationState) (boxes : List Box)
    → listed n (fill_free n marks) boxes ≡ []
unfolding fill_free
listed-fill_free zero marks boxes = refl
listed-fill_free (suc n) [] boxes = refl
listed-fill_free (suc n) (a ∷ marks) [] = refl
listed-fill_free (suc n) (a ∷ marks) (box ∷ boxes) = listed-fill_free n marks boxes

give_up-Starting : (max_sessions : ℕ) (r : Run ℤ) → Starting max_sessions (give_up r)
give_up-Starting max_sessions (ok r files) = gave_up
give_up-Starting max_sessions (halt e) = ended

with_pipe-Starting :
    (max_sessions : ℕ) (pipe : Bool) (files : State) (queue : Pcq Request) (slots : ℕ)
    (boxes : List Box) (marks : List AllocationState)
    → Represents queue []
    → queue.pcq_capacity ≡ max_sessions
    → slots ≡ files.fs_params.max_inode_count
    → Starting max_sessions (with_pipe pipe files queue (start_table slots boxes marks))
with_pipe-Starting k false files queue slots boxes marks r c e =
    give_up-Starting k (tfs_destroy files)
with_pipe-Starting k true files queue slots boxes marks r c e =
    ready (listed-fill_free slots marks boxes) refl e r c

with_tables-Starting :
    (max_sessions : ℕ) (pipe : Bool) (files : State) (queue : Pcq Request) (t : Option (List Box))
    (f : Option (List AllocationState))
    → Represents queue []
    → queue.pcq_capacity ≡ max_sessions
    → Starting max_sessions (with_tables pipe files queue t f)
with_tables-Starting k pipe files queue none f r c = give_up-Starting k (tfs_destroy files)
with_tables-Starting k pipe files queue (some t) none r c =
    elim (Bool-cases (files.fs_params.max_inode_count == 0)) [
      | inl no_entries ↦ rw no_entries (
          with_pipe-Starting k pipe files queue 0 t [] r c
            (sym (==→eq files.fs_params.max_inode_count 0 no_entries)))
      | inr entries ↦ rw entries ended
    ]
with_tables-Starting k pipe files queue (some t) (some f) r c =
    with_pipe-Starting k pipe files queue files.fs_params.max_inode_count t f r c refl

with_queue-Starting :
    (k : ℕ) (mem : StartMemory) (files : State) (queue : Option (Pcq Request))
    (buffer : List Request)
    → 0 < k
    → k ≤ length buffer
    → Starting k (with_queue mem files (pcq_create queue k (some buffer)))
with_queue-Starting k mem files none buffer p room =
    unfold pcq_create in give_up-Starting k (tfs_destroy files)
with_queue-Starting k mem files (some queue) buffer p room =
    let (t, made, empty, capacity) = pcq_create-Represents queue k buffer p room in
    rw made (elim (Bool-cases (mem.workers && mem.threads)) [
      | inl all_made ↦
          rw all_made
            (with_tables-Starting k mem.pipe files t mem.boxes_table mem.free_boxes empty capacity)
      | inr failed ↦ rw failed (give_up-Starting k (tfs_destroy files))
    ])

-- However the start of the broker ends, if it is ready then no box is in use, the table has one entry
-- for each inode of the file system, and the queue of requests is empty and has room for
-- `max_sessions` requests. That number is above 0 and the buffer of the queue has been allocated for
-- it.
pub mbroker_init-Starting :
    (max_sessions : ℕ) (mem : StartMemory) (files : State) (buffer : List Request)
    → 0 < max_sessions
    → mem.pcq_buffer ≡ some buffer
    → max_sessions ≤ length buffer
    → Starting max_sessions (mbroker_init max_sessions mem files)
unfolding mbroker_init
mbroker_init-Starting k mem files buffer p e room =
    by_files (tfs_init (some (start_params k)) mem.tfs_memory files)
  where
    by_files : (r : Run ℤ) → Starting k (with_files k mem r)
    by_files (halt fault) = ended
    by_files (ok r s) = elim (Bool-cases (int_eq r (pos 0))) [
      | inl all_made ↦ rw (all_made, e) (with_queue-Starting k mem s mem.queue buffer p room)
      | inr failed ↦ rw failed gave_up
    ]

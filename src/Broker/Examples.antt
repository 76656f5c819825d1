-- ===== src/Broker/Examples.antt =====
-- mbroker/: instances of the theorems, on a table of two entries.
use tecnico_fs_so.Prelude.{
  ℕ, refl, List, [], arith, get_elem?, pos, replicate, some, suc, true, zero, ◌<◌, ◌^◌, ◌∷◌, ◌≡◌,
  concat,
}
use tecnico_fs_so.Broker.Types.{Box, Broker}
use tecnico_fs_so.Broker.Table.Laws.{
  Creates, IsBox, IsBroker, Removes, box_create-Creates, box_delete-Removes, boxes_of,
}
use tecnico_fs_so.Fs.Entries.Names.{IsCString}
use tecnico_fs_so.Broker.Listing.{workers_handle_manager_listing, sends}
use tecnico_fs_so.Broker.Table.{box_create, box_delete, new_box}
use tecnico_fs_so.Fs.Types.{free, taken}
use tecnico_fs_so.Manager.Listing.Sorted.{Prints, listing-Prints}
use tecnico_fs_so.Broker.Listing.Answers.{answers}
use tecnico_fs_so.Manager.Listing.{manager_handle_box_listing}
use tecnico_fs_so.Broker.Listing.Loop.{workers_handle_manager_listing-answers}
use tecnico_fs_so.Broker.Handlers.Replies.{
  CreateReport, RemoveReport, handle_create-CreateReport, handle_remove-RemoveReport,
}
use tecnico_fs_so.Broker.Handlers.{handle_create, handle_remove}
use tecnico_fs_so.Broker.Files.{tfs}
use tecnico_fs_so.Fs.Run.{ok}
use tecnico_fs_so.Fs.Samples.{unmounted}
use tecnico_fs_so.Fs.Ops.{tfs_o_creat}

-- A table that was just allocated: nothing in it is initialised but the entries' states.
abbrev garbage : Box
garbage = record { name = replicate 32 46; size = 7; n_publishers = 9; n_subscribers = 11 }

abbrev name_a : List ℕ
name_a = b'/' ∷ b'a' ∷ []

abbrev box_a : Box
box_a = new_box name_a garbage

abbrev empty_table : Broker
empty_table = record {
  slots = 2;
  n_boxes = pos 0;
  boxes_table = garbage ∷ garbage ∷ [];
  free_boxes = free ∷ free ∷ [];
}

abbrev one_box : Broker
one_box = record {
  slots = 2;
  n_boxes = pos 1;
  boxes_table = garbage ∷ box_a ∷ [];
  free_boxes = free ∷ taken ∷ [];
}

two_words :
    (a b : Box)
    → a.n_publishers < 2 ^ 64
    → b.n_publishers < 2 ^ 64
    → (i : ℕ) (box : Box) → get_elem? (a ∷ b ∷ []) i ≡ some box
    → box.n_publishers < 2 ^ 64
two_words a b h h' zero box e = let same : box ≡ a = ground arith in rw same h
two_words a b h h' (suc zero) box e = let same : box ≡ b = ground arith in rw same h'
two_words a b h h' (suc (suc i)) box e = cc

empty_table-IsBroker : IsBroker empty_table
empty_table-IsBroker = record {
  states = omega arith;
  entries = omega arith;
  words = two_words garbage garbage (omega arith) (omega arith);
  counted = refl;
  boxes = tt;
}

name_a-IsCString : IsCString name_a
name_a-IsCString = ((λ e. ground arith), ((λ e. ground arith), tt))

box_a-IsBox : IsBox box_a
box_a-IsBox = record {
  content = name_a;
  name_array = refl;
  c_chars = name_a-IsCString;
  not_empty = omega arith;
  short = omega arith;
  size_word = omega arith;
  publishers_word = omega arith;
  subscribers_word = omega arith;
}

one_box-IsBroker : IsBroker one_box
one_box-IsBroker = record {
  states = omega arith;
  entries = omega arith;
  words = two_words garbage box_a (omega arith) (omega arith);
  counted = refl;
  boxes = (box_a-IsBox, tt);
}

box_create-Creates_example : Creates empty_table name_a (box_create name_a empty_table)
box_create-Creates_example =
    box_create-Creates empty_table-IsBroker name_a name_a-IsCString (omega arith) (omega arith)

box_delete-Removes_example : Removes one_box name_a (box_delete name_a one_box)
box_delete-Removes_example = box_delete-Removes one_box-IsBroker name_a

workers_handle_manager_listing-answers_example :
    workers_handle_manager_listing true (λ _. true) one_box
    ≡ sends (pos 0) (answers (boxes_of one_box))
workers_handle_manager_listing-answers_example =
    workers_handle_manager_listing-answers (λ _. true) (λ k. refl) one_box one_box-IsBroker
      (omega arith)

listing-Prints_example :
    (packets : List (List ℕ)) × (workers_handle_manager_listing true (λ _. true) one_box
      ≡ sends (pos 0) packets)
    × Prints (boxes_of one_box) (manager_handle_box_listing (garbage ∷ []) (concat packets))
listing-Prints_example =
    listing-Prints one_box (λ _. true) (garbage ∷ []) one_box-IsBroker (omega arith) (λ k. refl)
      (omega arith)

handle_create-CreateReport_example :
    CreateReport
      (tfs 1).close_file
      ((tfs 1).open_file name_a 0 (ok tt unmounted))
      ((tfs 1).open_file name_a tfs_o_creat ((tfs 1).open_file name_a 0 (ok tt unmounted)).1)
      empty_table
      name_a
      (handle_create (tfs 1) name_a (ok tt unmounted) empty_table)
handle_create-CreateReport_example =
    handle_create-CreateReport (tfs 1) empty_table-IsBroker name_a (ok tt unmounted)
      name_a-IsCString (omega arith) (omega arith)

handle_remove-RemoveReport_example :
    RemoveReport
      (ok tt unmounted)
      ((tfs 1).unlink_file name_a (ok tt unmounted))
      one_box
      name_a
      (handle_remove (tfs 1) name_a (ok tt unmounted) one_box)
handle_remove-RemoveReport_example =
    handle_remove-RemoveReport (tfs 1) one_box-IsBroker name_a (ok tt unmounted)

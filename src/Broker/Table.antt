-- ===== src/Broker/Table.antt =====
-- mbroker/mbroker.c: `box_create`, `box_delete` and `box_find`.
pub mod View
pub mod Laws
use tecnico_fs_so.Prelude.{
  ℕ, Bool, List, Option, [], bytes_eq, get_elem?, if◌then◌else◌, length, ltb, minus_one, none, pos,
  set, some, suc, zero, ℤ, ◌∷◌,
}
use tecnico_fs_so.Fs.Types.{AllocationState, free, taken}
use tecnico_fs_so.Broker.Types.{Box, Broker, Call, decr, incr, ends, bad_access}
use tecnico_fs_so.Fs.Tables.{Scan, absent, first_free, found, beyond, next}
use tecnico_fs_so.Fs.Entries.{c_string}
use tecnico_fs_so.Protocol.Layout.{padded}
use tecnico_fs_so.Protocol.{box_name_max_len}

-- `strcmp(box.name, box_name) == 0`.
abbrev pub has_box_name : List ℕ → Box → Bool
has_box_name box_name box = bytes_eq (c_string box.name) box_name

-- The loop of `box_delete` and `box_find` over the first `n` entries: the first that is taken and
-- has the name.
unfoldable pub scan_boxes : ℕ → List AllocationState → List Box → List ℕ → Scan
scan_boxes zero states boxes box_name = absent
scan_boxes (suc n) [] boxes box_name = beyond
scan_boxes (suc n) (free ∷ states) [] box_name = next (scan_boxes n states [] box_name)
scan_boxes (suc n) (free ∷ states) (box ∷ boxes) box_name =
    next (scan_boxes n states boxes box_name)
scan_boxes (suc n) (taken ∷ states) [] box_name = beyond
scan_boxes (suc n) (taken ∷ states) (box ∷ boxes) box_name =
    if has_box_name box_name box then found 0 else next (scan_boxes n states boxes box_name)

-- The box after `box_create`: the number of publishers is not written.
abbrev pub new_box : List ℕ → Box → Box
new_box box_name old = record old {
  name = padded box_name_max_len box_name;
  size = 0;
  n_subscribers = 0;
}

abbrev pub fill_box : List ℕ → Broker → ℕ → Option Box → Call ℤ
fill_box box_name br i none = bad_access
fill_box box_name br i (some old) =
    if ltb (length box_name) box_name_max_len
    then ends (pos 0) (record br {
      n_boxes = incr br.n_boxes;
      boxes_table = set br.boxes_table i (new_box box_name old);
      free_boxes = set br.free_boxes i taken;
    })
    else bad_access

abbrev pub create_at : List ℕ → Broker → Scan → Call ℤ
create_at box_name br (found i) = fill_box box_name br i (get_elem? br.boxes_table i)
create_at box_name br absent = ends minus_one br
create_at box_name br beyond = bad_access

-- `box_name` is a string.
unfoldable pub box_create : List ℕ → Broker → Call ℤ
box_create box_name br = create_at box_name br (first_free br.slots br.free_boxes)

abbrev pub delete_at : Broker → Scan → Call ℤ
delete_at br (found i) =
    ends (pos 0) (record br { n_boxes = decr br.n_boxes; free_boxes = set br.free_boxes i free })
delete_at br absent = ends minus_one br
delete_at br beyond = bad_access

unfoldable pub box_delete : List ℕ → Broker → Call ℤ
box_delete box_name br = delete_at br (scan_boxes br.slots br.free_boxes br.boxes_table box_name)

abbrev pub index_of : Broker → Scan → Call ℤ
index_of br (found i) = ends (pos i) br
index_of br absent = ends minus_one br
index_of br beyond = bad_access

unfoldable pub box_find : List ℕ → Broker → Call ℤ
box_find box_name br = index_of br (scan_boxes br.slots br.free_boxes br.boxes_table box_name)

-- ===== src/Manager/Listing/Sorted.antt =====
-- mbroker/mbroker.c and manager/manager.c: from the broker's table to the manager's output.
use mathlib.Core.List.Perm
use mathlib.Core.List.{Perm, perm_middle}
use tecnico_fs_so.Prelude.{
  ℕ, refl, List, [], arith, bytes_eq, false, length, length-append, le→leb, map, pos, suc, ◌++◌,
  ◌+◌, ◌∷◌, ◌≡◌, ◌≤◌, Bool, ap, append_nil, drop, true, ◌<◌, ◌∙◌, concat,
}
use tecnico_fs_so.Broker.Types.{Box, Broker}
use tecnico_fs_so.Manager.Listing.{
  Line, manager_handle_box_listing, Output, print_boxes, receive_boxes, line_of, prints,
  read_answer, output_of,
}
use tecnico_fs_so.Broker.Table.Laws.{AllBoxes, IsBroker, boxes_of}
use tecnico_fs_so.Manager.Order.{IsSorted, NotAbove, insert_right-IsSorted, insert_right-Perm}
use tecnico_fs_so.Manager.Listing.Receive.{
  insert_all, box_line, shown, length-insert_right, receive_boxes-answers, line_of-shown,
}
use tecnico_fs_so.Manager.Insert.{strcmp_gt, insert_right}
use tecnico_fs_so.Broker.Listing.Answers.{answers, answers_of, answer}
use tecnico_fs_so.Protocol.{pipe_read}
use tecnico_fs_so.Protocol.RoundTrip.{take-append}
use tecnico_fs_so.Protocol.Words.{read_le}
use tecnico_fs_so.Manager.Place.{last_of}
use tecnico_fs_so.Broker.Listing.{workers_handle_manager_listing, sends}
use tecnico_fs_so.Broker.Listing.Loop.{workers_handle_manager_listing-answers}

insert_all-IsSorted : (boxes xs : List Box) → IsSorted xs → IsSorted (insert_all xs boxes)
insert_all-IsSorted [] xs s = s
insert_all-IsSorted (box ∷ boxes) xs s =
    insert_all-IsSorted boxes (insert_right xs (shown box)) (insert_right-IsSorted xs (shown box) s)

length-insert_all : (boxes xs : List Box) → length (insert_all xs boxes) ≡ length xs + length boxes
length-insert_all [] xs = omega arith
length-insert_all (box ∷ boxes) xs = omega (
  arith,
  length-insert_all boxes (insert_right xs (shown box)),
  length-insert_right xs (shown box),
)

-- The lines of the boxes that were inserted before, and those of the boxes that follow.
insert_all-Perm :
    (boxes xs : List Box)
    → AllBoxes boxes
    → Perm (map line_of (insert_all xs boxes)) (map box_line boxes ++ map line_of xs)
insert_all-Perm [] xs all = Perm.refl (map line_of xs)
insert_all-Perm (box ∷ boxes) xs (b, all) =
    let inserted = Perm.map line_of (insert_right-Perm xs (shown box)) in
    let rest = insert_all-Perm boxes (insert_right xs (shown box)) all in
    let moved = Perm.trans rest (
      Perm.trans (Perm.append_left (map box_line boxes) inserted)
        (perm_middle (map box_line boxes) (map line_of xs))) in
    rw (line_of-shown box b) at moved

-- The lines are in the order of their names.
abbrev pub NotAboveLine : Line → List Line → Type 0
NotAboveLine line [] = Unit {0}
NotAboveLine line (l ∷ lines) = (strcmp_gt line.name l.name ≡ false) × NotAboveLine line lines

abbrev pub SortedLines : List Line → Type 0
SortedLines [] = Unit {0}
SortedLines (line ∷ lines) = NotAboveLine line lines × SortedLines lines

NotAbove-lines :
    (box : Box) (boxes : List Box)
    → NotAbove box boxes
    → NotAboveLine (line_of box) (map line_of boxes)
NotAbove-lines box [] h = tt
NotAbove-lines box (b ∷ boxes) (h, rest) = (h, NotAbove-lines box boxes rest)

IsSorted-lines : (boxes : List Box) → IsSorted boxes → SortedLines (map line_of boxes)
IsSorted-lines [] s = tt
IsSorted-lines (box ∷ boxes) (h, rest) = (NotAbove-lines box boxes h, IsSorted-lines boxes rest)

length-concat :
    (box : Box) (boxes : List Box)
    → length (box ∷ boxes) ≤ length (concat (answers_of (box ∷ boxes)))
length-concat box [] = omega arith
length-concat box (box' ∷ boxes) = omega (
  arith,
  length-append (answer 0 box) (concat (answers_of (box' ∷ boxes))),
  length-concat box' boxes,
)

print_prefix :
    (n : ℕ) (ys rest : List Box)
    → length ys ≡ suc n
    → print_boxes (ys ++ rest) (pos n) ≡ prints (map line_of ys)
print_prefix n ys rest e =
    let one_more : n + 1 ≡ length ys = omega arith in
    rw one_more (
      rw
        (
          le→leb (length ys) (length (ys ++ rest)) (omega (arith, length-append ys rest)),
          take-append ys rest,
        )
        refl)

-- What the manager prints for a listing of these boxes.
abbrev pub Prints : List Box → Output → Type 0
Prints boxes out =
    (lines : List Line) × (out ≡ prints lines) × Perm lines (map box_line boxes) × SortedLines lines

manager_handle_box_listing-empty :
    (array : List Box) → manager_handle_box_listing array (concat (answers [])) ≡ prints []
unfolding manager_handle_box_listing receive_boxes read_answer pipe_read bytes_eq read_le
manager_handle_box_listing-empty array = refl

pub manager_handle_box_listing-Prints :
    (boxes array : List Box)
    → AllBoxes boxes
    → length boxes ≤ length array
    → Prints boxes (manager_handle_box_listing array (concat (answers boxes)))
unfolding manager_handle_box_listing
manager_handle_box_listing-Prints [] array all room =
    ([], manager_handle_box_listing-empty array, Perm.refl [], tt)
manager_handle_box_listing-Prints (box ∷ boxes) array all room =
    let n : ℕ = length boxes in
    let bytes : List ℕ = concat (answers (box ∷ boxes)) in
    let enough : n < length bytes + 1 = omega (arith, length-concat box boxes) in
    let ys : List Box = insert_all [] (box ∷ boxes) in
    let size : length ys ≡ suc n = omega (arith, length-insert_all (box ∷ boxes) []) in
    let index : last_of (0 + suc n) ≡ pos n =
      let same : 0 + suc n ≡ suc n = omega arith in ap last_of same in
    (
      map line_of ys,
      ap output_of
            (receive_boxes-answers (length bytes + 1) box boxes [] array all (omega arith) enough)
          ∙ ap (λ i. print_boxes (ys ++ drop (suc n) array) i) index
          ∙ print_prefix n ys (drop (suc n) array) size,
      rw append_nil at (insert_all-Perm (box ∷ boxes) [] all),
      IsSorted-lines ys (insert_all-IsSorted (box ∷ boxes) [] tt),
    )

-- The whole way of a listing: from a well-formed table that is not of length 0, over pipes that open
-- and take every packet, to an array with room for the boxes in use, the manager prints one line for
-- each box in use, sorted by name, with the name behind the slash and the three numbers.
pub listing-Prints :
    (br : Broker) (pipe_ok : ℕ → Bool) (array : List Box)
    → IsBroker br
    → 0 < br.slots
    → ((k : ℕ) → pipe_ok k ≡ true)
    → length (boxes_of br) ≤ length array
    → (packets : List (List ℕ)) × (workers_handle_manager_listing true pipe_ok br
        ≡ sends (pos 0) packets)
      × Prints (boxes_of br) (manager_handle_box_listing array (concat packets))
listing-Prints br pipe_ok array w p working room = (
  answers (boxes_of br),
  workers_handle_manager_listing-answers pipe_ok working br w p,
  manager_handle_box_listing-Prints (boxes_of br) array w.boxes room,
)

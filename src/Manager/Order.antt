-- ===== src/Manager/Order.antt =====
-- utils/insertion-sort.c: the order of the box names, and that `sorted_insert` keeps it.
use mathlib.Core.List.Perm
use mathlib.Core.List.{Perm, perm_middle}
use tecnico_fs_so.Prelude.{
  ℕ, refl, Bool, Bool-cases, List, [], arith, false, inl, inr, length, some, true, ◌&&◌, ◌++◌, ◌∷◌,
  ◌≡◌,
}
use tecnico_fs_so.Broker.Types.{Box}
use tecnico_fs_so.Manager.Insert.{insert_right, strcmp_gt, above, all_above, sorted_insert}
use tecnico_fs_so.Fs.Entries.{c_string}
use tecnico_fs_so.Manager.Place.{last_of, sorted_insert-insert_right}

strcmp_gt_irrefl : (a : List ℕ) → strcmp_gt a a ≡ false
unfolding strcmp_gt
strcmp_gt_irrefl [] = refl
strcmp_gt_irrefl (x ∷ a) = ground (arith, strcmp_gt_irrefl a)

strcmp_gt_asymm : (a b : List ℕ) → strcmp_gt a b ≡ true → strcmp_gt b a ≡ false
unfolding strcmp_gt
strcmp_gt_asymm [] b h = cc
strcmp_gt_asymm (x ∷ a) [] h = refl
strcmp_gt_asymm (x ∷ a) (y ∷ b) h = ground (arith, strcmp_gt_asymm a b)

strcmp_gt_trans :
    (a b c : List ℕ) → strcmp_gt a b ≡ false → strcmp_gt b c ≡ false → strcmp_gt a c ≡ false
unfolding strcmp_gt
strcmp_gt_trans [] b c h h' = refl
strcmp_gt_trans (x ∷ a) [] c h h' = cc
strcmp_gt_trans (x ∷ a) (y ∷ b) [] h h' = cc
strcmp_gt_trans (x ∷ a) (y ∷ b) (z ∷ c) h h' = ground (arith, strcmp_gt_trans a b c)

-- The box is in front of these or has the name of one of them.
abbrev pub NotAbove : Box → List Box → Type 0
NotAbove box [] = Unit {0}
NotAbove box (b ∷ boxes) = (above box b ≡ false) × NotAbove box boxes

-- The boxes are in the order of their names.
abbrev pub IsSorted : List Box → Type 0
IsSorted [] = Unit {0}
IsSorted (box ∷ boxes) = NotAbove box boxes × IsSorted boxes

NotAbove-insert_right :
    (box new : Box) (boxes : List Box)
    → above box new ≡ false
    → NotAbove box boxes
    → NotAbove box (insert_right boxes new)
unfolding insert_right
NotAbove-insert_right box new [] h rest = (h, tt)
NotAbove-insert_right box new (b ∷ boxes) h (first, rest) =
    elim (Bool-cases (all_above (b ∷ boxes) new)) [
      | inl e ↦ rw e (h, (first, rest))
      | inr e ↦ rw e (first, NotAbove-insert_right box new boxes h rest)
    ]

-- A box that is not above those behind it, some of which is not above the new one.
above-new_lem :
    (box new : Box) (boxes : List Box)
    → NotAbove box boxes
    → all_above boxes new ≡ false
    → above box new ≡ false
above-new_lem box new [] h e = cc
above-new_lem box new (b ∷ boxes) (first, rest) e = elim (Bool-cases (above b new)) [
  | inl up ↦ above-new_lem box new boxes rest (rw (up, ◌&&◌) at e)
  | inr below ↦
      strcmp_gt_trans (c_string box.name) (c_string b.name) (c_string new.name) first below
]

both_true : (b c : Bool) → (b && c) ≡ true → (b ≡ true) × (c ≡ true)
both_true b c h = ground arith

NotAbove-all : (new : Box) (boxes : List Box) → all_above boxes new ≡ true → NotAbove new boxes
NotAbove-all new [] e = tt
NotAbove-all new (b ∷ boxes) e =
    let (up, rest) = both_true (above b new) (all_above boxes new) e in
    (strcmp_gt_asymm (c_string b.name) (c_string new.name) up, NotAbove-all new boxes rest)

pub insert_right-IsSorted :
    (boxes : List Box) (new : Box) → IsSorted boxes → IsSorted (insert_right boxes new)
unfolding insert_right
insert_right-IsSorted [] new s = (tt, tt)
insert_right-IsSorted (b ∷ boxes) new (first, rest) =
    elim (Bool-cases (all_above (b ∷ boxes) new)) [
      | inl e ↦ rw e (NotAbove-all new (b ∷ boxes) e, (first, rest))
      | inr e ↦ rw e (
        NotAbove-insert_right b new boxes
            (elim (Bool-cases (above b new)) [
              | inl up ↦ above-new_lem b new boxes first (rw (up, ◌&&◌) at e)
              | inr below ↦ below
            ])
            first,
        insert_right-IsSorted boxes new rest,
      )
    ]

pub insert_right-Perm : (boxes : List Box) (new : Box) → Perm (insert_right boxes new) (new ∷ boxes)
unfolding insert_right
insert_right-Perm [] new = Perm.refl (new ∷ [])
insert_right-Perm (b ∷ boxes) new = elim (Bool-cases (all_above (b ∷ boxes) new)) [
  | inl e ↦ rw e (Perm.refl (new ∷ b ∷ boxes))
  | inr e ↦
      rw e (Perm.trans (Perm.cons b (insert_right-Perm boxes new)) (perm_middle (b ∷ []) boxes))
]

-- Inserting a box into the sorted boxes in front of a free place of the array leaves these boxes and
-- the new one sorted and in the array, and the places behind as they are.
pub sorted_insert-IsSorted :
    (xs : List Box) (c new : Box) (rest : List Box)
    → IsSorted xs
    → (ys : List Box) × (sorted_insert (xs ++ c ∷ rest) (last_of (length xs)) new
        ≡ some (ys ++ rest))
      × IsSorted ys
      × Perm ys (new ∷ xs)
sorted_insert-IsSorted xs c new rest s = (
  insert_right xs new,
  sorted_insert-insert_right xs c new rest,
  insert_right-IsSorted xs new s,
  insert_right-Perm xs new,
)

-- ===== src/Broker/Table/View.antt =====
-- mbroker/mbroker.c: the boxes of the table that are in use, in its order, and how the changes of the
-- table change them.
use tecnico_fs_so.Prelude.{
  ℕ, refl, Bool-cases, List, [], ap, arith, false, get_elem?, inl, inr, length, set, some, suc,
  true, zero, ◌++◌, ◌<◌, ◌∷◌, ◌≡◌, ◌≤◌,
}
use tecnico_fs_so.Fs.Types.{AllocationState, free, taken}
use tecnico_fs_so.Broker.Types.{Box}
use tecnico_fs_so.Broker.Table.{scan_boxes, has_box_name}
use tecnico_fs_so.Fs.Tables.{Scan, next, found, absent}

-- The boxes in use among the first `n` entries.
abbrev pub listed : ℕ → List AllocationState → List Box → List Box
listed zero states boxes = []
listed (suc n) [] boxes = []
listed (suc n) (a ∷ states) [] = []
listed (suc n) (free ∷ states) (box ∷ boxes) = listed n states boxes
listed (suc n) (taken ∷ states) (box ∷ boxes) = box ∷ listed n states boxes

-- None of these boxes has the name.
abbrev pub NoneNamed : List ℕ → List Box → Type 0
NoneNamed box_name [] = Unit {0}
NoneNamed box_name (box ∷ boxes) = (has_box_name box_name box ≡ false) × NoneNamed box_name boxes

-- Taking a free entry puts its box between those in front of it and those behind it.
pub listed-take :
    (n i : ℕ) (states : List AllocationState) (boxes : List Box) (old new : Box)
    → i < n
    → get_elem? states i ≡ some free
    → get_elem? boxes i ≡ some old
    → (front back : List Box) × (listed n states boxes ≡ front ++ back)
      × (listed n (set states i taken) (set boxes i new) ≡ front ++ new ∷ back)
listed-take zero i states boxes old new lt e e' = absurd (omega arith)
listed-take (suc n) i [] boxes old new lt e e' = cc
listed-take (suc n) i (a ∷ states) [] old new lt e e' = cc
listed-take (suc n) zero (free ∷ states) (box ∷ boxes) old new lt e e' =
    ([], listed n states boxes, refl, refl)
listed-take (suc n) zero (taken ∷ states) (box ∷ boxes) old new lt e e' = ground arith
listed-take (suc n) (suc i) (free ∷ states) (box ∷ boxes) old new lt e e' =
    listed-take n i states boxes old new (omega arith) e e'
listed-take (suc n) (suc i) (taken ∷ states) (box ∷ boxes) old new lt e e' =
    let (front, back, before, after) = listed-take n i states boxes old new (omega arith) e e' in
    (box ∷ front, back, ap (◌∷◌ box) before, ap (◌∷◌ box) after)

-- Where a search for a name stops: at the first box in use that has it.
pub data Located (box_name : List ℕ) (n : ℕ) (states : List AllocationState) (boxes : List Box)
    : Scan → Type 0 where
  here :
      {i : ℕ} {box : Box} (front back : List Box)
      → i < n
      → get_elem? states i ≡ some taken
      → get_elem? boxes i ≡ some box
      → has_box_name box_name box ≡ true
      → listed n states boxes ≡ front ++ box ∷ back
      → NoneNamed box_name front
      → listed n (set states i free) boxes ≡ front ++ back
      → Located box_name n states boxes (found i)
  unlisted : NoneNamed box_name (listed n states boxes) → Located box_name n states boxes absent

Located-free :
    {box_name : List ℕ} {n : ℕ} {states : List AllocationState} {boxes : List Box} {r : Scan}
    (box : Box)
    → Located box_name n states boxes r
    → Located box_name (suc n) (free ∷ states) (box ∷ boxes) (next r)
Located-free box (here front back lt at e named before unnamed after) =
    here front back (omega arith) at e named before unnamed after
Located-free box (unlisted unnamed) = unlisted unnamed

Located-taken :
    {box_name : List ℕ} {n : ℕ} {states : List AllocationState} {boxes : List Box} {r : Scan}
    (box : Box)
    → has_box_name box_name box ≡ false
    → Located box_name n states boxes r
    → Located box_name (suc n) (taken ∷ states) (box ∷ boxes) (next r)
Located-taken box other (here front back lt at e named before unnamed after) =
    here (box ∷ front) back (omega arith) at e named (ap (◌∷◌ box) before) (other, unnamed)
      (ap (◌∷◌ box) after)
Located-taken box other (unlisted unnamed) = unlisted (other, unnamed)

pub scan_boxes-Located :
    (n : ℕ) (states : List AllocationState) (boxes : List Box) (box_name : List ℕ)
    → n ≤ length states
    → n ≤ length boxes
    → Located box_name n states boxes (scan_boxes n states boxes box_name)
unfolding scan_boxes
scan_boxes-Located zero states boxes box_name h h' = unlisted tt
scan_boxes-Located (suc n) [] boxes box_name h h' = absurd (omega arith)
scan_boxes-Located (suc n) (a ∷ states) [] box_name h h' = absurd (omega arith)
scan_boxes-Located (suc n) (free ∷ states) (box ∷ boxes) box_name h h' =
    Located-free box (scan_boxes-Located n states boxes box_name (omega arith) (omega arith))
scan_boxes-Located (suc n) (taken ∷ states) (box ∷ boxes) box_name h h' =
    elim (Bool-cases (has_box_name box_name box)) [
      | inl same ↦
          rw same (here [] (listed n states boxes) (omega arith) refl refl same refl tt refl)
      | inr other ↦ rw other (
          Located-taken box other
            (scan_boxes-Located n states boxes box_name (omega arith) (omega arith)))
    ]

-- A search by name through the boxes in use.
pub listed-full :
    (n : ℕ) (states : List AllocationState) (boxes : List Box)
    → n ≤ length boxes
    → ((j : ℕ) → j < n → get_elem? states j ≡ some taken)
    → length (listed n states boxes) ≡ n
listed-full zero states boxes h all = refl
listed-full (suc n) [] boxes h all = let first = all 0 (omega arith) in cc
listed-full (suc n) (a ∷ states) [] h all = absurd (omega arith)
listed-full (suc n) (free ∷ states) (box ∷ boxes) h all =
    let first = all 0 (omega arith) in ground arith
listed-full (suc n) (taken ∷ states) (box ∷ boxes) h all =
    omega (arith, listed-full n states boxes (omega arith) (λ j lt. all (suc j) (omega arith)))

-- ===== src/Manager/Insert.antt =====
-- utils/insertion-sort.c: `sorted_insert`.
use tecnico_fs_so.Prelude.{
  ℕ, refl, Bool, List, Option, [], ap, arith, false, get_elem?, if◌then◌else◌, length,
  length-append, ltb, lt→ltb, negsuc, none, pos, set, some, suc, true, zero, ℤ, ◌&&◌, ◌++◌, ◌==◌,
  ◌∷◌, ◌≡◌,
}
use tecnico_fs_so.Broker.Types.{Box}
use tecnico_fs_so.Fs.Entries.{c_string}

-- `strcmp(a, b) > 0`, which compares the bytes as unsigned numbers.
unfoldable pub strcmp_gt : List ℕ → List ℕ → Bool
strcmp_gt [] b = false
strcmp_gt (x ∷ a) [] = true
strcmp_gt (x ∷ a) (y ∷ b) = if x == y then strcmp_gt a b else ltb y x

abbrev pub above : Box → Box → Bool
above box new = strcmp_gt (c_string box.name) (c_string new.name)

-- `boxes[i] = box`; `none` is an access outside of the array.
abbrev pub store : List Box → ℕ → Box → Option (List Box)
store boxes i box = if ltb i (length boxes) then some (set boxes i box) else none

-- The loop of `sorted_insert`, for `right + 1`.
unfoldable pub shift_from : ℕ → List Box → Box → Option (List Box)
shift_from zero boxes new = store boxes 0 new
shift_from (suc right) boxes new = elim (get_elem? boxes right) [
  | none ↦ none
  | some box ↦ elim (above box new) [
    | false ↦ store boxes (suc right) new
    | true ↦ elim (store boxes (suc right) box) [
      | none ↦ none
      | some shifted ↦ shift_from right shifted new
    ]
  ]
]

unfoldable pub sorted_insert : List Box → ℤ → Box → Option (List Box)
sorted_insert boxes (pos right) new = shift_from (suc right) boxes new
sorted_insert boxes (negsuc zero) new = shift_from 0 boxes new
sorted_insert boxes (negsuc (suc n)) new = some boxes

-- A box put into a list behind the last box that is not above it.
abbrev pub all_above : List Box → Box → Bool
all_above [] new = true
all_above (box ∷ boxes) new = above box new && all_above boxes new

unfoldable pub insert_right : List Box → Box → List Box
insert_right [] new = new ∷ []
insert_right (box ∷ boxes) new =
    if all_above (box ∷ boxes) new then new ∷ box ∷ boxes else box ∷ insert_right boxes new

pub snoc_cases :
    (k : ℕ) (xs : List Box)
    → length xs ≡ suc k
    → (ys : List Box) × (b : Box) × (xs ≡ ys ++ b ∷ []) × (length ys ≡ k)
snoc_cases k [] e = absurd (omega arith)
snoc_cases zero (x ∷ []) e = ([], x, refl, refl)
snoc_cases zero (x ∷ y ∷ xs) e = absurd (omega arith)
snoc_cases (suc k) (x ∷ xs) e =
    let (ys, b, split, size) = snoc_cases k xs (omega arith) in
    (x ∷ ys, b, ap (◌∷◌ x) split, ap suc size)

all_above-snoc :
    (ys : List Box) (b new : Box) → all_above (ys ++ b ∷ []) new ≡ (all_above ys new && above b new)
all_above-snoc [] b new = ground arith
all_above-snoc (y ∷ ys) b new = ground (arith, all_above-snoc ys b new)

pub insert_right-snoc_above :
    (ys : List Box) (b new : Box)
    → above b new ≡ true
    → insert_right (ys ++ b ∷ []) new ≡ insert_right ys new ++ b ∷ []
unfolding insert_right
insert_right-snoc_above [] b new e = rw (e, ◌&&◌) refl
insert_right-snoc_above (y ∷ ys) b new e =
    ground (arith, all_above-snoc ys b new, insert_right-snoc_above ys b new)

pub insert_right-snoc_below :
    (ys : List Box) (b new : Box)
    → above b new ≡ false
    → insert_right (ys ++ b ∷ []) new ≡ ys ++ b ∷ new ∷ []
unfolding insert_right
insert_right-snoc_below [] b new e = rw (e, ◌&&◌) refl
insert_right-snoc_below (y ∷ ys) b new e =
    ground (arith, all_above-snoc ys b new, insert_right-snoc_below ys b new)

pub get_elem?-middle :
    (ys : List Box) (b : Box) (rest : List Box) → get_elem? (ys ++ b ∷ rest) (length ys) ≡ some b
get_elem?-middle [] b rest = refl
get_elem?-middle (y ∷ ys) b rest = get_elem?-middle ys b rest

set-middle :
    (ys : List Box) (b c : Box) (rest : List Box)
    → set (ys ++ b ∷ rest) (length ys) c ≡ ys ++ c ∷ rest
set-middle [] b c rest = refl
set-middle (y ∷ ys) b c rest = ap (◌∷◌ y) (set-middle ys b c rest)

pub store-middle :
    (ys : List Box) (b c : Box) (rest : List Box) (k : ℕ)
    → length ys ≡ k
    → store (ys ++ b ∷ rest) k c ≡ some (ys ++ c ∷ rest)
store-middle ys b c rest k e = rw (← e) (
    rw
      (
        lt→ltb (length ys) (length (ys ++ b ∷ rest)) (omega (arith, length-append ys (b ∷ rest))),
        set-middle ys b c rest,
      )
      refl)

-- ===== src/Manager/Place.antt =====
-- utils/insertion-sort.c: where `sorted_insert` puts the new box.
use tecnico_fs_so.Prelude.{
  ℕ, refl, Bool-cases, List, [], ap, append_assoc, arith, false, inl, inr, length, length-append,
  some, suc, sym, true, zero, ◌++◌, ◌∙◌, ◌∷◌, ◌≡◌, get_elem?, minus_one, pos, ℤ,
}
use tecnico_fs_so.Broker.Types.{Box}
use tecnico_fs_so.Manager.Insert.{
  shift_from, above, get_elem?-middle, insert_right, snoc_cases, store, insert_right-snoc_above,
  store-middle, insert_right-snoc_below, sorted_insert,
}

at_end :
    (k : ℕ) (ys : List Box) (b : Box) (rest : List Box)
    → length ys ≡ k
    → get_elem? (ys ++ b ∷ rest) k ≡ some b
at_end k ys b rest e = rw (← e) (get_elem?-middle ys b rest)

shift_from-step_below :
    (k : ℕ) (ys : List Box) (b c new : Box) (rest : List Box)
    → length ys ≡ k
    → above b new ≡ false
    → shift_from (suc k) (ys ++ b ∷ c ∷ rest) new ≡ some (ys ++ b ∷ new ∷ rest)
unfolding shift_from
shift_from-step_below k ys b c new rest e below =
    let size : length (ys ++ b ∷ []) ≡ suc k = omega (arith, length-append ys (b ∷ [])) in
    let kept : store (ys ++ b ∷ c ∷ rest) (suc k) new ≡ some (ys ++ b ∷ new ∷ rest) =
      ap (λ bs. store bs (suc k) new) (sym (append_assoc ys (b ∷ []) (c ∷ rest)))
      ∙ store-middle (ys ++ b ∷ []) c new rest (suc k) size
      ∙ ap some (append_assoc ys (b ∷ []) (new ∷ rest)) in
    rw (at_end k ys b (c ∷ rest) e, shift_from) (rw (below, shift_from) kept)

shift_from-step_above :
    (k : ℕ) (ys : List Box) (b c new : Box) (rest : List Box)
    → length ys ≡ k
    → above b new ≡ true
    → shift_from (suc k) (ys ++ b ∷ c ∷ rest) new ≡ shift_from k (ys ++ b ∷ b ∷ rest) new
unfolding shift_from
shift_from-step_above k ys b c new rest e up =
    let size : length (ys ++ b ∷ []) ≡ suc k = omega (arith, length-append ys (b ∷ [])) in
    let kept : store (ys ++ b ∷ c ∷ rest) (suc k) b ≡ some (ys ++ b ∷ b ∷ rest) =
      ap (λ bs. store bs (suc k) b) (sym (append_assoc ys (b ∷ []) (c ∷ rest)))
      ∙ store-middle (ys ++ b ∷ []) c b rest (suc k) size
      ∙ ap some (append_assoc ys (b ∷ []) (b ∷ rest)) in
    rw (at_end k ys b (c ∷ rest) e, shift_from) (rw (up, shift_from) (rw (kept, shift_from) refl))

shift_from-insert_right :
    (k : ℕ) (xs : List Box) (c new : Box) (rest : List Box)
    → length xs ≡ k
    → shift_from k (xs ++ c ∷ rest) new ≡ some (insert_right xs new ++ rest)
shift_from-insert_right zero [] c new rest e =
    unfold shift_from insert_right in store-middle [] c new rest 0 refl
shift_from-insert_right zero (x ∷ xs) c new rest e = absurd (omega arith)
shift_from-insert_right (suc k) xs c new rest e =
    let (ys, b, split, size) = snoc_cases k xs e in
    rw (split, append_assoc ys (b ∷ []) (c ∷ rest))
      (elim (Bool-cases (above b new)) [
        | inl up ↦
            shift_from-step_above k ys b c new rest size up
            ∙ shift_from-insert_right k ys b new (b ∷ rest) size
            ∙ ap some (
                sym (append_assoc (insert_right ys new) (b ∷ []) rest)
                ∙ ap (λ zs. zs ++ rest) (sym (insert_right-snoc_above ys b new up)))
        | inr below ↦
            shift_from-step_below k ys b c new rest size below
            ∙ ap some (
                sym (append_assoc ys (b ∷ new ∷ []) rest)
                ∙ ap (λ zs. zs ++ rest) (sym (insert_right-snoc_below ys b new below)))
      ])

-- The index of the last of `n` elements, or -1.
abbrev pub last_of : ℕ → ℤ
last_of zero = minus_one
last_of (suc n) = pos n

-- The loop that shifts the boxes behind the new one inserts it where insertion from the right does:
-- behind the last box of the list whose name is not above the new one's. It overwrites the one
-- entry behind the list and leaves what follows.
pub sorted_insert-insert_right :
    (xs : List Box) (c new : Box) (rest : List Box)
    → sorted_insert (xs ++ c ∷ rest) (last_of (length xs)) new ≡ some (insert_right xs new ++ rest)
unfolding sorted_insert
sorted_insert-insert_right [] c new rest = shift_from-insert_right 0 [] c new rest refl
sorted_insert-insert_right (x ∷ xs) c new rest =
    shift_from-insert_right (suc (length xs)) (x ∷ xs) c new rest refl

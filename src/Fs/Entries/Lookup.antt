-- ===== src/Fs/Entries/Lookup.antt =====
-- What a name stands for after an entry of a directory was stored or deleted, fs/state.c.
use tecnico_fs_so.Prelude.{
  ℕ, refl, Bool-cases, List, bytes_eq, bytes_eq_refl, bytes_eq→eq, false, inl, inr, lt_of_get_elem?,
  not, set, some, ◌≡◌, ◌≢◌, Bool, Option, [], ap, none, ◌∙◌, ◌∷◌,
}
use tecnico_fs_so.Fs.Types.{DirEntry}
use tecnico_fs_so.Fs.Entries.Listing.{
  Hit, find_first-set_fresh, find_first-set_other, Found, find_first-none, find_first-Found,
  find_first-miss,
}
use tecnico_fs_so.Fs.Entries.Names.{IsName, c_string-name_bytes}
use tecnico_fs_so.Fs.Entries.{has_name, is_live, find_first, is_live_name, c_string, shift}
use tecnico_fs_so.Fs.Entries.WellFormed.{Absent, blank, new_entry, and_false, not-true}

differ_false : (xs ys : List ℕ) → xs ≢ ys → bytes_eq xs ys ≡ false
differ_false xs ys h = elim (Bool-cases (bytes_eq xs ys)) [
  | inl same ↦ absurd (h (bytes_eq→eq xs ys same))
  | inr differ ↦ differ
]

-- The new entry answers to its name.
pub find_new :
    (name : List ℕ) (k : ℕ) {es : List DirEntry} {i : ℕ} {old : DirEntry}
    → IsName name
    → Hit (λ e. not (is_live e)) es i old
    → Absent name es
    → find_first (is_live_name name) (set es i (new_entry name k)) ≡ some (i, new_entry name k)
find_new name k {es} {i} {old} n hit absent =
    find_first-set_fresh (is_live_name name) es i (new_entry name k) absent
      (lt_of_get_elem? es i old hit.at_index) (rw (c_string-name_bytes name n) (bytes_eq_refl name))

-- Every other name is found where it was.
pub find_new_other :
    (name other : List ℕ) (k : ℕ) {es : List DirEntry} {i : ℕ} {old : DirEntry}
    → IsName name
    → Hit (λ e. not (is_live e)) es i old
    → name ≢ other
    → find_first (is_live_name other) (set es i (new_entry name k))
      ≡ find_first (is_live_name other) es
find_new_other name other k {es} {i} {old} n hit ne =
    find_first-set_other (is_live_name other) es i (new_entry name k) old hit.at_index
      (rw (not-true (is_live old) hit.passes))
      (rw (c_string-name_bytes name n) (differ_false name other ne))

-- Deleting the entry of a name does not touch another name.
pub find_erased_other :
    (name other : List ℕ) {es : List DirEntry} {i : ℕ} {old : DirEntry}
    → Hit (has_name name) es i old
    → name ≢ other
    → find_first (is_live_name other) (set es i blank) ≡ find_first (is_live_name other) es
find_erased_other name other {es} {i} {old} hit ne =
    find_first-set_other (is_live_name other) es i blank old hit.at_index
      (and_false (is_live old)
        (rw (bytes_eq→eq (c_string old.d_name) name hit.passes) (differ_false name other ne)))
      refl

-- A name that no entry holds is not in use.
pub Absent-of_no_name :
    (name : List ℕ) (es : List DirEntry) → find_first (has_name name) es ≡ none → Absent name es
Absent-of_no_name name [] e = unfold find_first in refl
Absent-of_no_name name (u ∷ us) e =
    let (miss, rest) = find_first-none (has_name name) u us e in
    find_first-miss (is_live_name name) u us (and_false (is_live u) miss)
    ∙ ap shift (Absent-of_no_name name us rest)

pub Found-of {ℓ} :
    {A : Type ℓ} (p : A → Bool) (us : List A) {o : Option (ℕ × A)}
    → find_first p us ≡ o
    → Found p us o
Found-of p us e = rw e at (find_first-Found p us)

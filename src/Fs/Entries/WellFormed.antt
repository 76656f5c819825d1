-- ===== src/Fs/Entries/WellFormed.antt =====
-- The entries that the functions of fs/state.c keep in a directory's block. The names of entries
-- that were never used are whatever the memory held; a deleted entry has the empty name.
use tecnico_fs_so.Prelude.{
  ℕ, refl, Bool, List, [], ap, arith, bytes_eq, bytes_eq_comm, false, inl, inr, minus_one, none,
  not, pos, replicate, set, some, suc, true, zero, ◌&&◌, ◌∙◌, ◌∷◌, ◌≡◌, ◌⊎◌, bytes_eq→eq, length,
  ◌<◌,
}
use tecnico_fs_so.Fs.Types.{DirEntry, max_file_name}
use tecnico_fs_so.Fs.Entries.{
  c_string, find_first, is_live, is_live_name, name_bytes, shift, has_name,
}
use tecnico_fs_so.Fs.Entries.Names.{IsName, c_string-name_bytes, c_string-zeros}
use tecnico_fs_so.Fs.Entries.Listing.{
  Found, find_first-miss, find_first-none, here, find_first-hit, later,
}

abbrev pub NoneLive : List DirEntry → Type 0
NoneLive [] = Unit {0}
NoneLive (e ∷ es) = (is_live e ≡ false) × NoneLive es

-- No entry in use has the name.
abbrev pub Absent : List ℕ → List DirEntry → Type 0
Absent name es = find_first (is_live_name name) es ≡ none

-- An entry in use has no namesake behind it; behind one that is not in use stand entries in use
-- only if its own name is empty.
abbrev pub Comes : DirEntry → List DirEntry → Type 0
Comes e es =
    ((is_live e ≡ true) × Absent (c_string e.d_name) es)
    ⊎ ((is_live e ≡ false) × ((c_string e.d_name ≡ []) ⊎ NoneLive es))

abbrev pub IsListing : List DirEntry → Type 0
IsListing [] = Unit {0}
IsListing (e ∷ es) = Comes e es × IsListing es

-- The entries that `add_dir_entry` and `clear_dir_entry` store.
abbrev pub new_entry : List ℕ → ℕ → DirEntry
new_entry name k = record { d_name = name_bytes name; d_inumber = pos k }

abbrev pub blank : DirEntry
blank = record { d_name = replicate max_file_name 0; d_inumber = minus_one }

pub blank_name : c_string (replicate max_file_name 0) ≡ []
blank_name = c_string-zeros max_file_name

-- A directory without entries in use, whatever names its memory holds.
pub NoneLive-IsListing : (es : List DirEntry) → NoneLive es → IsListing es
NoneLive-IsListing [] h = tt
NoneLive-IsListing (e ∷ es) (miss, rest) = (inr (miss, inr rest), NoneLive-IsListing es rest)

pub NoneLive-Absent : (name : List ℕ) (es : List DirEntry) → NoneLive es → Absent name es
NoneLive-Absent name [] h = unfold find_first in refl
NoneLive-Absent name (e ∷ es) (miss, rest) =
    find_first-miss (is_live_name name) e es (rw miss) ∙ ap shift (NoneLive-Absent name es rest)

NoneLive-set : (es : List DirEntry) (i : ℕ) → NoneLive es → NoneLive (set es i blank)
NoneLive-set [] i h = tt
NoneLive-set (e ∷ es) zero (miss, rest) = (refl, rest)
NoneLive-set (e ∷ es) (suc i) (miss, rest) = (miss, NoneLive-set es i rest)

-- An absent name stays absent if the entry stored has another name or is not in use.
Absent-set :
    (name : List ℕ) (es : List DirEntry) (i : ℕ) (a : DirEntry)
    → is_live_name name a ≡ false
    → Absent name es
    → Absent name (set es i a)
Absent-set name [] i a h e = e
Absent-set name (u ∷ us) zero a h e =
    let (miss, rest) = find_first-none (is_live_name name) u us e in
    find_first-miss (is_live_name name) a us h ∙ ap shift rest
Absent-set name (u ∷ us) (suc i) a h e =
    let (miss, rest) = find_first-none (is_live_name name) u us e in
    find_first-miss (is_live_name name) u (set us i a) miss
    ∙ ap shift (Absent-set name us i a h rest)

pub live_and_name : (b c : Bool) → (b && c) ≡ true → (b ≡ true) × (c ≡ true)
live_and_name b c h = ground arith

pub not-true : (b : Bool) → not b ≡ true → b ≡ false
not-true b h = ground arith

not-false : (b : Bool) → not b ≡ false → b ≡ true
not-false b h = ground arith

-- The new name differs from that of an entry in use in front of it.
other_name :
    (name : List ℕ) (k : ℕ) (e : DirEntry)
    → IsName name
    → is_live e ≡ true
    → is_live_name name e ≡ false
    → is_live_name (c_string e.d_name) (new_entry name k) ≡ false
other_name name k e n live miss =
    let differ : bytes_eq (c_string e.d_name) name ≡ false = rw live at miss in
    rw (c_string-name_bytes name n, bytes_eq_comm name (c_string e.d_name)) differ

-- Storing a new name at the first entry that is not in use keeps the directory well-formed.
pub add-IsListing :
    (name : List ℕ) (k : ℕ) {es : List DirEntry} {i : ℕ} {old : DirEntry}
    → IsName name
    → Found (λ e. not (is_live e)) es (some (i, old))
    → IsListing es
    → Absent name es
    → IsListing (set es i (new_entry name k))
add-IsListing name k n (here {u} {us} h) (c, rest) e =
    let (miss, absent) = find_first-none (is_live_name name) u us e in
    (inl (refl, rw (c_string-name_bytes name n) absent), rest)
add-IsListing name k n (later {u} {us} {i} h f) (inl (live, alone), rest) e =
    let (miss, absent) = find_first-none (is_live_name name) u us e in
    (
      inl (
        live,
        Absent-set (c_string u.d_name) us i (new_entry name k) (other_name name k u n live miss)
            alone,
      ),
      add-IsListing name k n f rest absent,
    )
add-IsListing name k n (later {u} {us} {i} h f) (inr (dead, _), rest) e =
    let live = not-false (is_live u) h in cc

Comes-erase : (u : DirEntry) (us : List DirEntry) (i : ℕ) → Comes u us → Comes u (set us i blank)
Comes-erase u us i (inl (live, alone)) =
    inl (live, Absent-set (c_string u.d_name) us i blank refl alone)
Comes-erase u us i (inr (dead, inl e)) = inr (dead, inl e)
Comes-erase u us i (inr (dead, inr dead_rest)) = inr (dead, inr (NoneLive-set us i dead_rest))

-- So does deleting an entry, wherever it stands.
pub erase-IsListing : (es : List DirEntry) (i : ℕ) → IsListing es → IsListing (set es i blank)
erase-IsListing [] i h = tt
erase-IsListing (u ∷ us) zero (c, rest) = (inr (refl, inl blank_name), rest)
erase-IsListing (u ∷ us) (suc i) (c, rest) = (Comes-erase u us i c, erase-IsListing us i rest)

empty_ne_name : (name : List ℕ) → 0 < length name → bytes_eq [] name ≡ false
unfolding bytes_eq
empty_ne_name [] h = absurd (omega arith)
empty_ne_name (c ∷ name) h = refl

none_later :
    (name : List ℕ) {us : List DirEntry} {i : ℕ} {a : DirEntry}
    → Found (is_live_name name) us (some (i, a))
    → ¬ (NoneLive us)
none_later name (here {u} h) (dead, rest) = let live = (live_and_name _ (has_name name u) h).0 in cc
none_later name (later m f) (dead, rest) = none_later name f rest

-- `clear_dir_entry` looks at names alone, `find_in_dir` at entries in use: for a name that is in use
-- they stop at the same entry.
pub same_entry :
    (name : List ℕ) {es : List DirEntry} {i : ℕ} {a : DirEntry}
    → IsName name
    → Found (is_live_name name) es (some (i, a))
    → IsListing es
    → find_first (has_name name) es ≡ some (i, a)
same_entry name n (here {u} {us} h) (c, rest) =
    find_first-hit (has_name name) u us (live_and_name _ _ h).1
same_entry name n (later {u} {us} m f) (inl (live, alone), rest) =
    find_first-miss (has_name name) u us (rw live at m) ∙ ap shift (same_entry name n f rest)
same_entry name n (later {u} {us} m f) (inr (dead, inl e), rest) =
    find_first-miss (has_name name) u us (rw e (empty_ne_name name n.not_empty))
    ∙ ap shift (same_entry name n f rest)
same_entry name n (later m f) (inr (dead, inr dead_rest), rest) =
    absurd (none_later name f dead_rest)

pub and_false : {h : Bool} (b : Bool) → h ≡ false → (b && h) ≡ false
and_false b e = ground arith

-- Deleting the entry at which the search by name stops leaves no entry in use with that name.
pub erase-Absent :
    (name : List ℕ) {es : List DirEntry} {i : ℕ} {a : DirEntry}
    → IsName name
    → Found (has_name name) es (some (i, a))
    → IsListing es
    → Absent name (set es i blank)
erase-Absent name n (here {u} {us} h) (inl (live, alone), rest) =
    find_first-miss (is_live_name name) blank us refl
    ∙ ap shift (rw (bytes_eq→eq (c_string u.d_name) name h) at alone)
erase-Absent name n (here {u} {us} h) (inr (dead, inl e), rest) =
    let differ : bytes_eq [] name ≡ true = rw e at h in
    let no_match = empty_ne_name name n.not_empty in cc
erase-Absent name n (here {u} {us} h) (inr (dead, inr dead_rest), rest) =
    find_first-miss (is_live_name name) blank us refl ∙ ap shift (NoneLive-Absent name us dead_rest)
erase-Absent name n (later {u} {us} {i} m f) (c, rest) =
    find_first-miss (is_live_name name) u (set us i blank) (and_false (is_live u) m)
    ∙ ap shift (erase-Absent name n f rest)

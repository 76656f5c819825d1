-- ===== src/Fs/Entries.antt =====
-- A directory's block as an array of `dir_entry_t`: fs/state.h and the accesses of fs/state.c.
pub mod Layout
pub mod Names
pub mod Listing
pub mod WellFormed
pub mod Cleared
pub mod Lookup
use tecnico_fs_so.Prelude.{
  ℕ, zero, suc, ◌+◌, ◌-◌, ◌*◌, Bool, not, ◌&&◌, List, [], ◌∷◌, ◌++◌, take, drop, slice, put,
  replicate, Option, none, some, ◌==◌, if◌then◌else◌, bytes_eq, is_minus_one, read_int, int_bytes,
  minus_one,
}
use tecnico_fs_so.Fs.Types.{DirEntry, max_file_name, dir_entry_size}

-- The bytes before the first NUL.
unfoldable pub c_string : List ℕ → List ℕ
c_string [] = []
c_string (c ∷ cs) = if c == 0 then [] else c ∷ c_string cs

unfoldable pub entry_at : List ℕ → DirEntry
entry_at bytes = record {
  d_name = take max_file_name bytes;
  d_inumber = read_int (slice bytes max_file_name 4);
}

-- `(dir_entry_t *)block`, of `n` entries.
unfoldable pub entries : ℕ → List ℕ → List DirEntry
entries zero block = []
entries (suc n) block = entry_at block ∷ entries n (drop dir_entry_size block)

abbrev pub is_live : DirEntry → Bool
is_live e = not (is_minus_one e.d_inumber)

-- `strcmp(e.d_name, name) == 0`. A name has at most 39 bytes, so the comparison ends within the
-- array `d_name`.
abbrev pub has_name : List ℕ → DirEntry → Bool
has_name name e = bytes_eq (c_string e.d_name) name

abbrev pub is_live_name : List ℕ → DirEntry → Bool
is_live_name name e = is_live e && has_name name e

abbrev pub shift {ℓ} : {A : Type ℓ} → Option (ℕ × A) → Option (ℕ × A)
shift none = none
shift (some (i, a)) = some (suc i, a)

-- A loop over the entries that stops at the first with a property: its index and value.
unfoldable pub find_first {ℓ} : {A : Type ℓ} → (A → Bool) → List A → Option (ℕ × A)
find_first p [] = none
find_first p (a ∷ rest) = if p a then some (0, a) else shift (find_first p rest)

-- The address of `dir_entry[i].d_name`, and of `dir_entry[i].d_inumber`.
abbrev pub name_offset : ℕ → ℕ
name_offset i = i * dir_entry_size

abbrev pub inumber_offset : ℕ → ℕ
inumber_offset i = i * dir_entry_size + max_file_name

-- `strncpy(d_name, name, MAX_FILE_NAME - 1); d_name[MAX_FILE_NAME - 1] = '\0'`: what the array
-- holds afterwards.
unfoldable pub name_bytes : List ℕ → List ℕ
name_bytes name = take (max_file_name - 1) (name ++ replicate (max_file_name - 1) 0) ++ 0 ∷ []

-- `for (i = 0; i < n; i++) dir_entry[i].d_inumber = -1`, from entry `i` on.
unfoldable pub clear_inumbers : ℕ → ℕ → List ℕ → List ℕ
clear_inumbers zero i block = block
clear_inumbers (suc n) i block =
    clear_inumbers n (i + 1) (put block (inumber_offset i) (int_bytes minus_one))

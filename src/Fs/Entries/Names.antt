-- ===== src/Fs/Entries/Names.antt =====
-- Names in a directory of fs/state.c: what a name stores as, and searching by name.
use tecnico_fs_so.Prelude.{
  ℕ, refl, List, [], arith, length, length-append, length-replicate, length-take, replicate, suc,
  take, zero, ◌++◌, ◌<◌, ◌∷◌, ◌≡◌, ◌≢◌, ◌≤◌,
}
use tecnico_fs_so.Fs.Entries.{c_string, name_bytes}
use tecnico_fs_so.Fs.Types.{max_file_name}

-- A C string: none of its bytes is 0.
abbrev pub IsCString : List ℕ → Type 0
IsCString [] = Unit {0}
IsCString (c ∷ cs) = (c ≢ 0) × IsCString cs

-- A name that `add_dir_entry` accepts.
pub record IsName (name : List ℕ) : Type 0 where
  pub c_chars : IsCString name
  pub not_empty : 0 < length name
  pub short : length name < max_file_name

pub c_string-zeros : (n : ℕ) → c_string (replicate n 0) ≡ []
unfolding c_string
c_string-zeros zero = refl
c_string-zeros (suc n) = refl

c_string-padded :
    (n m : ℕ) (name : List ℕ)
    → IsCString name
    → length name ≤ n
    → c_string (take n (name ++ replicate m 0) ++ 0 ∷ []) ≡ name
unfolding c_string
c_string-padded zero m [] c h = refl
c_string-padded (suc n) zero [] c h = refl
c_string-padded (suc n) (suc m) [] c h = refl
c_string-padded zero m (x ∷ name) c h = absurd (omega arith)
c_string-padded (suc n) m (x ∷ name) c h =
    ground (arith, c_string-padded n m name c.1 (omega arith))

pub length-name_bytes :
    (name : List ℕ) → length name < max_file_name → length (name_bytes name) ≡ max_file_name
unfolding name_bytes
length-name_bytes name h = omega (
  arith,
  length-append (take 39 (name ++ replicate 39 0)) (0 ∷ []),
  length-take 39 (name ++ replicate 39 0),
  length-append name (replicate 39 0),
  length-replicate 39 (let zero_byte : ℕ = 0 in zero_byte),
)

-- The stored name reads as the name.
pub c_string-name_bytes : (name : List ℕ) → IsName name → c_string (name_bytes name) ≡ name
unfolding name_bytes
c_string-name_bytes name h = c_string-padded 39 39 name h.c_chars (omega (arith, h.short))

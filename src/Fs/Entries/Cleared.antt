-- ===== src/Fs/Entries/Cleared.antt =====
-- fs/state.c, the loop of `inode_create` that marks the entries of a new directory as empty.
use tecnico_fs_so.Prelude.{
  refl, ==→eq, Bool-cases, List, [], arith, drop, false, get_elem?, get_elem?-set_ne,
  get_elem?-set_self, inl, inr, int_bytes, length, length-drop, length-int_bytes, length-put,
  minus_one, put, read_int, read_int-minus_one, set, some, suc, sym, take, zero, ℕ, ◌*◌, ◌+◌, ◌<◌,
  ◌==◌, ◌∙◌, ◌∷◌, ◌≡◌, ◌≤◌, ap,
}
use tecnico_fs_so.Fs.Entries.{entries, clear_inumbers, inumber_offset, is_live}
use tecnico_fs_so.Fs.Types.{DirEntry, dir_entry_size, max_file_name}
use tecnico_fs_so.Fs.Entries.WellFormed.{NoneLive}
use tecnico_fs_so.Fs.Entries.Layout.{entries-put, length-entries, entry_at-put_inumber}

pub length-clear_inumbers :
    (n i : ℕ) (block : List ℕ) → length (clear_inumbers n i block) ≡ length block
unfolding clear_inumbers
length-clear_inumbers zero i block = refl
length-clear_inumbers (suc n) i block =
    length-clear_inumbers n (i + 1) (put block (inumber_offset i) (int_bytes minus_one))
    ∙ length-put block (inumber_offset i) (int_bytes minus_one)

-- None of the first `i` entries is in use.
abbrev FrontUnused : ℕ → List DirEntry → Type 0
FrontUnused i es = (j : ℕ) (e : DirEntry) → j < i → get_elem? es j ≡ some e → is_live e ≡ false

FrontUnused-NoneLive : (es : List DirEntry) (n : ℕ) → length es ≤ n → FrontUnused n es → NoneLive es
FrontUnused-NoneLive [] n h front = tt
FrontUnused-NoneLive (e ∷ es) zero h front = absurd (omega arith)
FrontUnused-NoneLive (e ∷ es) (suc n) h front = (
  front 0 e (omega arith) refl,
  FrontUnused-NoneLive es n (omega arith) (λ j u lt at. front (suc j) u (omega arith) at),
)

unused_is_live :
    {name : List ℕ} {e : DirEntry}
    → some (record { d_name = name; d_inumber = read_int (int_bytes minus_one) }) ≡ some e
    → is_live e ≡ false
unused_is_live {name} {e} same =
    let same_entry : record { d_name = name; d_inumber = read_int (int_bytes minus_one) } ≡ e =
      ground arith in
    rw (← same_entry, read_int-minus_one) refl

clear-FrontUnused :
    (n i count : ℕ) (block : List ℕ)
    → i + n ≡ count
    → count * dir_entry_size ≤ length block
    → FrontUnused i (entries count block)
    → FrontUnused count (entries count (clear_inumbers n i block))
unfolding clear_inumbers
clear-FrontUnused zero i count block total long front =
    let same : i ≡ count = omega arith in rw same at front
clear-FrontUnused (suc n) i count block total long front =
    let rest = drop (i * dir_entry_size) block in
    let unused : DirEntry = record {
      d_name = take max_file_name rest;
      d_inumber = read_int (int_bytes minus_one);
    } in
    let stored : entries count (put block (inumber_offset i) (int_bytes minus_one))
        ≡ set (entries count block) i unused =
      entries-put count i max_file_name block (int_bytes minus_one) (omega arith)
        (omega (arith, length-int_bytes minus_one)) refl
        (entry_at-put_inumber rest (omega (arith, length-drop (i * dir_entry_size) block))
          minus_one) in
    let next = put block (inumber_offset i) (int_bytes minus_one) in
    clear-FrontUnused n (i + 1) count next (omega arith)
      (omega (arith, length-put block (inumber_offset i) (int_bytes minus_one)))
      (rw stored (λ j e lt at. elim (Bool-cases (i == j)) [
        | inl same ↦
            let here : i ≡ j = ==→eq i j same in
            let self : get_elem? (set (entries count block) i unused) i ≡ some unused =
              get_elem?-set_self (entries count block) i unused
                (omega (arith, length-entries count block)) in
            let at_i : get_elem? (set (entries count block) i unused) i ≡ some e =
              ap (get_elem? (set (entries count block) i unused)) here ∙ at in
            unused_is_live (sym self ∙ at_i)
        | inr other ↦
            front j e (ground (arith, other))
              (sym (get_elem?-set_ne (entries count block) i j unused (λ q. ground arith)) ∙ at)
      ]))

-- Afterwards no entry is in use.
pub clear_inumbers-NoneLive :
    (count : ℕ) (block : List ℕ)
    → count * dir_entry_size ≤ length block
    → NoneLive (entries count (clear_inumbers count 0 block))
clear_inumbers-NoneLive count block long =
    FrontUnused-NoneLive (entries count (clear_inumbers count 0 block)) count
      (omega (arith, length-entries count (clear_inumbers count 0 block)))
      (clear-FrontUnused count 0 count block (omega arith) long (λ j e lt at. absurd (omega arith)))

-- ===== src/Fs/Ops/CopyLoop.antt =====
-- fs/operations.c: how the loop of `tfs_copy_from_external_fs` ends.
use tecnico_fs_so.Prelude.{
  refl, ==_refl, Bool, List, [], arith, drop, drop_all, false, get_elem?, int_eq, length,
  length-drop, length-take, pos, some, suc, take, take_all, true, ℕ, ℤ, ◌<◌, ◌==◌, ◌^◌, ◌≡◌, ◌≤◌,
  ap, sym, ◌∙◌, minus_one, Bool-cases, inl, inr, ltb, ltb→lt, ◌+◌, ◌-◌, ◌≢◌, ltb_false→le,
  take_zero_of,
}
use tecnico_fs_so.Fs.Ops.Copy.{
  OpenFile, WritesFirst, all_written, none_written, write_at_end, at_offset-OpenFile, first_write,
}
use tecnico_fs_so.Fs.Types.{State, taken}
use tecnico_fs_so.Fs.Ops.{copy_chunks, tfs_write}
use tecnico_fs_so.Fs.Run.{Run, ok}
use tecnico_fs_so.Fs.Files.Handles.{at_offset}

chunks_end : (fuel n : ℕ) (x : ℤ) (t : State) → copy_chunks (suc fuel) n x [] t ≡ ok true t
unfolding copy_chunks
chunks_end fuel n x t = rw (take_all {A = ℕ} [] n (omega arith)) refl

some_chunk : (us : List ℕ) → 0 < length us → (length us == 0) ≡ false
some_chunk us p = ground (arith, p)

module _ (fuel n : ℕ) (x : ℤ) (rest : List ℕ) (p : 0 < length (take n rest)) where
  chunks_step :
      (t : State) {u : State}
      → tfs_write x (some (take n rest)) (length (take n rest)) t
        ≡ ok (pos (length (take n rest))) u
      → copy_chunks (suc fuel) n x rest t ≡ copy_chunks fuel n x (drop n rest) u
  unfolding copy_chunks
  chunks_step t e =
      let same = ==_refl (length (take n rest)) in rw (some_chunk (take n rest) p, e, same) refl

  chunks_stop :
      (t : State) {u : State} (z : ℤ)
      → int_eq z (pos (length (take n rest))) ≡ false
      → tfs_write x (some (take n rest)) (length (take n rest)) t ≡ ok z u
      → copy_chunks (suc fuel) n x rest t ≡ ok false u
  unfolding copy_chunks
  chunks_stop t z other e = rw (some_chunk (take n rest) p, e, other) refl

-- The outcome of the loop, which leaves `stored` in the file.
pub data CopiesChunks (s t : State) (block block' name : List ℕ) (h k : ℕ) (content : List ℕ)
    : Run Bool → Type 0 where
  all_copied :
      {u : State} {offset : ℕ}
      → OpenFile s u block block' name h k offset content
      → length content ≤ s.fs_params.block_size
      → CopiesChunks s t block block' name h k content (ok true u)
  too_long :
      {u : State} {offset : ℕ} {stored : List ℕ}
      → OpenFile s u block block' name h k offset stored
      → s.fs_params.block_size < length content
      → CopiesChunks s t block block' name h k content (ok false u)
  no_block :
      {u : State} {offset : ℕ} {stored : List ℕ}
      → OpenFile s u block block' name h k offset stored
      → 0 < length content
      → ((j : ℕ) → j < t.fs_params.max_block_count → get_elem? t.free_blocks j ≡ some taken)
      → CopiesChunks s t block block' name h k content (ok false u)

module _ {s t : State} {block block' name : List ℕ} {h k : ℕ} where
  -- All bytes fit into one block.
  one_chunk :
      (fuel n : ℕ) {content : List ℕ} {r : Run ℤ}
      → n ≡ s.fs_params.block_size
      → 0 < length content
      → length content ≤ n
      → WritesFirst s t block block' name h k content r
      → tfs_write (pos h) (some content) (length content) t ≡ r
      → CopiesChunks s t block block' name h k content
          (copy_chunks (suc (suc fuel)) n (pos h) content t)
  one_chunk fuel n {content} size p fits (all_written {u = u} f) e =
      let whole = take_all content n fits in
      let step : copy_chunks (suc (suc fuel)) n (pos h) content t
          ≡ copy_chunks (suc fuel) n (pos h) (drop n content) u =
        chunks_step (suc fuel) n (pos h) content (rw whole p) t (rw whole e) in
      rw step (
        rw (drop_all content n fits)
          (rw (chunks_end fuel n (pos h) u) (all_copied f (omega arith))))
  one_chunk fuel n {content} size p fits (none_written {u = u} f all) e =
      let whole = take_all content n fits in
      let stop : copy_chunks (suc (suc fuel)) n (pos h) content t ≡ ok false u =
        chunks_stop (suc fuel) n (pos h) content (rw whole p) t minus_one refl (rw whole e) in
      rw stop (no_block f p all)

  -- The first block is full, and more bytes follow.
  two_chunks :
      (fuel n : ℕ) {content : List ℕ} {r : Run ℤ}
      → n ≡ s.fs_params.block_size
      → 0 < n
      → n < 2 ^ 63
      → n < length content
      → WritesFirst s t block block' name h k (take n content) r
      → tfs_write (pos h) (some (take n content)) (length (take n content)) t ≡ r
      → CopiesChunks s t block block' name h k content
          (copy_chunks (suc (suc fuel)) n (pos h) content t)
  two_chunks fuel n {content} size p small long (all_written {u = u} f) e =
      let first : length (take n content) ≡ n = omega (arith, length-take n content) in
      let rest : List ℕ = drop n content in
      let second : 0 < length (take n rest) =
        omega (arith, length-take n rest, length-drop n content) in
      let size_u : u.fs_params.block_size ≡ n = ap (λ p. p.block_size) f.params ∙ sym size in
      let at_end : tfs_write (pos h) (some (take n rest)) (length (take n rest)) u
          ≡ ok (pos 0) (at_offset u h k (length (take n content))) =
        write_at_end (take n rest) f (omega arith) (omega (arith, length-take n rest)) (omega arith)
          refl in
      rw (chunks_step (suc fuel) n (pos h) content (omega arith) t e) (
        rw (chunks_stop fuel n (pos h) rest second u (pos 0) (ground (arith, second)) at_end)
          (too_long (at_offset-OpenFile (length (take n content)) f) (omega arith)))
  two_chunks fuel n {content} size p small long (none_written {u = u} f all) e =
      let first : length (take n content) ≡ n = omega (arith, length-take n content) in
      rw (chunks_stop (suc fuel) n (pos h) content (omega arith) t minus_one refl e)
        (no_block f (omega arith) all)

  -- The rounds that the copy allows the loop are enough.
  pub copy_chunks-CopiesChunks :
      (content : List ℕ)
      → OpenFile s t block block' name h k 0 []
      → k ≢ 0
      → 0 < s.fs_params.block_size
      → s.fs_params.block_size < 2 ^ 63
      → CopiesChunks s t block block' name h k content
          (copy_chunks (length content + 1) t.fs_params.block_size (pos h) content t)
  copy_chunks-CopiesChunks content f not_root some_bytes small =
      let n : ℕ = t.fs_params.block_size in
      let size : n ≡ s.fs_params.block_size = ap (λ p. p.block_size) f.params in
      elim (Bool-cases (length content == 0)) [
        | inl empty ↦
            let none_left : content ≡ [] =
              sym (take_all content 0 (ground arith)) ∙ take_zero_of 0 content refl in
            rw none_left (rw (chunks_end 0 n (pos h) t) (all_copied f (omega arith)))
        | inr not_empty ↦
            let p : 0 < length content = ground arith in
            let rounds : length content + 1 ≡ suc (suc (length content - 1)) = omega arith in
            rw rounds (elim (Bool-cases (ltb n (length content))) [
              | inl long ↦
                  let first : length (take n content) ≡ n =
                    omega (arith, length-take n content, ltb→lt n (length content) long) in
                  two_chunks (length content - 1) n size (omega arith) (omega arith)
                    (ltb→lt _ _ long)
                    (first_write (take n content) f not_root (omega arith) (omega arith)
                      (omega arith))
                    refl
              | inr fits ↦
                  one_chunk (length content - 1) n size p (ltb_false→le n (length content) fits)
                    (first_write content f not_root (omega arith) p
                      (omega (arith, ltb_false→le n (length content) fits)))
                    refl
            ])
      ]

-- ===== src/Broker/Sessions/Shared.antt =====
-- mbroker/mbroker.c: the file of a box, which a publisher's session appends to and a subscriber's
-- session reads.
use tecnico_fs_so.Prelude.{
  List, false, get_elem?-set_ne, int_eq, length, length-set, pos, some, splice, ℕ, ℤ, ◌*◌, ◌++◌,
  ◌<◌, ◌^◌, ◌∙◌, ◌≡◌, ◌≢◌, ◌⊎◌, refl, Bool-cases, ap, arith, drop, inl, inr, leb, min, ◌-◌, take,
  ◌+◌, ◌≤◌, append_nil, length-append, drop_all, take_all,
}
use tecnico_fs_so.Fs.Run.{Run, ok}
use tecnico_fs_so.Fs.Types.{State, Inode}
use tecnico_fs_so.Fs.Files.WriteBack.{
  Writes, wrote, BlocksExist, Wrote, unchanged, no_space, Wrote-BlocksExist,
}
use tecnico_fs_so.Fs.Files.Handles.{at_offset, IsOpen}
use tecnico_fs_so.Fs.Ops.{tfs_write}
use tecnico_fs_so.Fs.Files.WriteLem.{at_offset-IsOpen, write_to_open_file-splice, at_offset-Holds}
use tecnico_fs_so.Fs.Files.Content.{Holds}
use tecnico_fs_so.Fs.Files.Write.{length-take_le}
use tecnico_fs_so.Fs.Files.RoundTrip.{handle_after}
use tecnico_fs_so.Protocol.Messages.{msg_max_len}

pub record Shared (s : State) (h g i q : ℕ) (content : List ℕ) (start : ℕ) : Type 0 where
  pub inode : Inode
  pub writer : IsOpen s h i (length content) inode
  pub reader : IsOpen s g i start inode
  pub holds : Holds s inode content
  pub exist : BlocksExist s
  pub small : s.fs_params.block_size < 2 ^ 63
  -- Whole messages fill the block.
  pub whole : s.fs_params.block_size ≡ q * msg_max_len

-- A handle of another number is not moved.
pub at_offset-other :
    {s : State} {h g i start : ℕ} {inode : Inode} (j k : ℕ)
    → IsOpen s g i start inode
    → h ≢ g
    → IsOpen (at_offset s h j k) g i start inode
at_offset-other {s} {h} {g} j k o ne = record {
  valid_handle = o.valid_handle;
  handle_taken = o.handle_taken;
  file = get_elem?-set_ne s.open_file_table h g _ ne ∙ o.file;
  in_table =
      rw (length-set s.open_file_table h (record { of_inumber = pos j; of_offset = k })) o.in_table;
  valid_inode = o.valid_inode;
  inode_at = o.inode_at;
}

splice_end : (content xs : List ℕ) → splice content (length content) xs ≡ content ++ xs
splice_end content xs =
    ap (λ ys. ys ++ (xs ++ drop (length content + length xs) content))
      (take_all content (length content) (omega arith))
    ∙ ap (λ ys. content ++ (xs ++ ys)) (drop_all content (length content + length xs) (omega arith))
    ∙ ap (λ ys. content ++ ys) (append_nil xs)

-- A block of whole messages has room for a whole message or for none.
room :
    (q m : ℕ)
    → (min msg_max_len (q * msg_max_len - m * msg_max_len) ≡ 0)
      ⊎ (min msg_max_len (q * msg_max_len - m * msg_max_len) ≡ msg_max_len)
room q m = elim (Bool-cases (leb q m)) [
  | inl full ↦ inl (ground arith)
  | inr more ↦ inr (ground arith)
]

take_whole : (message : List ℕ) → length message ≡ msg_max_len → take msg_max_len message ≡ message
take_whole message size = take_all message msg_max_len (omega (arith, size))

-- The outcome of appending a message.
pub data Appends (h g i q : ℕ) (content : List ℕ) (start : ℕ) (message : List ℕ)
    : Run ℤ → Type 0 where
  appended :
      {t : State}
      → Shared t h g i q (content ++ message) start
      → Appends h g i q content start message (ok (pos msg_max_len) t)
  full :
      {t : State} {r : ℤ}
      → int_eq r (pos msg_max_len) ≡ false
      → Shared t h g i q content start
      → Appends h g i q content start message (ok r t)

module _ {s : State} {h g i q start : ℕ} {content : List ℕ} (ne : h ≢ g)
    (shared : Shared s h g i q content start) where
  rewound : Shared (at_offset s h i (length content)) h g i q content start
  rewound = record {
    inode = shared.inode;
    writer = at_offset-IsOpen (length content) shared.writer;
    reader = at_offset-other i (length content) shared.reader ne;
    holds = at_offset-Holds s h i (length content) shared.holds;
    exist = record { marks = shared.exist.marks; block_of = shared.exist.block_of };
    small = shared.small;
    whole = shared.whole;
  }

  Wrote-Shared :
      {t : State} {b n : ℕ} (message : List ℕ)
      → n ≤ length message
      → Wrote s t h i (length content + n) b (splice content (length content) (take n message))
      → Shared t h g i q (content ++ take n message) start
  Wrote-Shared {n = n} message inside w = record {
    inode = w.after;
    writer = rw (length-append content (take n message), length-take_le n message inside) w.opened;
    reader = handle_after shared.reader ne w;
    holds = rw (splice_end content (take n message)) at w.holds;
    exist = Wrote-BlocksExist w shared.exist;
    small = rw w.params shared.small;
    whole = ap (λ p. p.block_size) w.params ∙ shared.whole;
  }

  Writes-Appends :
      {n : ℕ} {message : List ℕ} {r : Run ℤ}
      → Writes s h i (length content) n shared.inode content message r
      → (n ≡ 0) ⊎ (n ≡ msg_max_len)
      → length message ≡ msg_max_len
      → Appends h g i q content start message r
  Writes-Appends {n} {message} (wrote b source w) n_eq size =
      let after = Wrote-Shared message (omega (arith, n_eq, size)) w in
      elim n_eq [
        | inl none_written ↦
            full (rw none_written refl) (rw (none_written, append_nil content) at after)
        | inr all_written ↦
            rw all_written (appended (rw (all_written, take_whole message size) at after))
      ]
  Writes-Appends (unchanged z e) n_eq size = full (rw z refl) (rw e rewound)
  Writes-Appends (no_space z p all e) n_eq size = full refl (rw e rewound)

  pub tfs_write-Appends :
      (m : ℕ) (message : List ℕ)
      → length content ≡ m * msg_max_len
      → length message ≡ msg_max_len
      → Appends h g i q content start message (tfs_write (pos h) (some message) msg_max_len s)
  tfs_write-Appends m message e size =
      let outcome =
        write_to_open_file-splice message msg_max_len shared.writer shared.holds shared.exist
          shared.small (omega arith) (omega (arith, size)) in
      let at_end : min (length content) (length content) ≡ length content = omega arith in
      unfold tfs_write in
      Writes-Appends (rw at_end at outcome) (rw (shared.whole, e) (room q m)) size

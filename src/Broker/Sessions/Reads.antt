-- ===== src/Broker/Sessions/Reads.antt =====
-- mbroker/mbroker.c: how a subscriber's session reads the messages in the file of a box.
use tecnico_fs_so.Prelude.{
  refl, List, [], ap, arith, concat, length, length-append, pos, slice, sym, take, true, ℕ, ℤ, ◌*◌,
  ◌++◌, ◌+◌, ◌∙◌, ◌∷◌, ◌≡◌, ◌≢◌, min, ◌-◌,
}
use tecnico_fs_so.Protocol.RoundTrip.{take-append, drop-append}
use tecnico_fs_so.Fs.Run.{Run, ok}
use tecnico_fs_so.Fs.Types.{State}
use tecnico_fs_so.Protocol.Messages.{msg_max_len}
use tecnico_fs_so.Broker.Sessions.Shared.{Shared, at_offset-other}
use tecnico_fs_so.Fs.Ops.{tfs_read}
use tecnico_fs_so.Fs.Files.Handles.{at_offset}
use tecnico_fs_so.Fs.Files.WriteLem.{at_offset-IsOpen, at_offset-Holds}
use tecnico_fs_so.Fs.Files.Content.{read_from_open_file-slice}

-- Each is a whole array of MSG_MAX_LEN bytes.
abbrev pub AreMessages : List (List ℕ) → Type 0
AreMessages [] = Unit
AreMessages (m ∷ ms) = (length m ≡ msg_max_len) × AreMessages ms

pub AreMessages-append :
    (ms ns : List (List ℕ)) → AreMessages ms → AreMessages ns → AreMessages (ms ++ ns)
AreMessages-append [] ns p q = q
AreMessages-append (m ∷ ms) ns (size, p) q = (size, AreMessages-append ms ns p q)

pub AreMessages-rest : (ms ns : List (List ℕ)) → AreMessages (ms ++ ns) → AreMessages ns
AreMessages-rest [] ns p = p
AreMessages-rest (m ∷ ms) ns (size, p) = AreMessages-rest ms ns p

pub length-concat :
    (ms : List (List ℕ)) → AreMessages ms → length (concat ms) ≡ length ms * msg_max_len
length-concat [] p = refl
length-concat (m ∷ ms) (size, p) =
    omega (arith, length-append m (concat ms), size, length-concat ms p)

-- What a read of a message comes to: the next one, or nothing after the last.
pub data ReadsNext (h g i q : ℕ) (content : List ℕ) (start : ℕ)
    : List (List ℕ) → Run (ℤ × List ℕ) → Type 0 where
  next_message :
      {t : State} {m : List ℕ} {ms : List (List ℕ)}
      → Shared t h g i q content (start + msg_max_len)
      → ReadsNext h g i q content start (m ∷ ms) (ok (pos msg_max_len, m) t)
  no_message :
      {t : State}
      → Shared t h g i q content start
      → ReadsNext h g i q content start [] (ok (pos 0, []) t)

add_zero : (n : ℕ) → n + 0 ≡ n
add_zero n = omega arith

slice-middle :
    (xs m ys : List ℕ)
    → length m ≡ msg_max_len
    → slice (xs ++ (m ++ ys)) (length xs) msg_max_len ≡ m
slice-middle xs m ys size =
    rw (drop-append xs (m ++ ys)) (ap (λ n. take n (m ++ ys)) (sym size) ∙ take-append m ys)

read-Shared :
    (k : ℕ) {s : State} {h g i q : ℕ} {content : List ℕ} {start : ℕ}
    → h ≢ g
    → Shared s h g i q content start
    → Shared (at_offset s g i k) h g i q content k
read-Shared k {s} {h} {g} {i} ne shared = record {
  inode = shared.inode;
  writer = at_offset-other i k shared.writer (λ e. ne (sym e));
  reader = at_offset-IsOpen k shared.reader;
  holds = at_offset-Holds s g i k shared.holds;
  exist = record { marks = shared.exist.marks; block_of = shared.exist.block_of };
  small = shared.small;
  whole = shared.whole;
}

-- A read through the subscriber's handle, with the numbers worked out.
read_at_start :
    (xs ys : List ℕ) (n : ℕ) {s : State} {h g i q : ℕ}
    → Shared s h g i q (xs ++ ys) (length xs)
    → min msg_max_len (length ys) ≡ n
    → tfs_read (pos g) true msg_max_len s
      ≡ ok (pos n, slice (xs ++ ys) (length xs) n) (at_offset s g i (length xs + n))
unfolding tfs_read
read_at_start xs ys n shared e =
    let start : min (length xs) (length (xs ++ ys)) ≡ length xs =
      omega (arith, length-append xs ys) in
    let left : min msg_max_len (length (xs ++ ys) - length xs) ≡ n =
      omega (arith, length-append xs ys, e) in
    rw (start, left) at
      (read_from_open_file-slice msg_max_len shared.reader shared.holds shared.small)

-- The subscriber stands behind the bytes `xs`.
pub tfs_read-ReadsNext :
    (xs : List ℕ) (pending : List (List ℕ)) {s : State} {h g i q : ℕ}
    → h ≢ g
    → AreMessages pending
    → Shared s h g i q (xs ++ concat pending) (length xs)
    → ReadsNext h g i q
        (xs ++ concat pending)
        (length xs)
        pending
        (tfs_read (pos g) true msg_max_len s)
tfs_read-ReadsNext xs [] ne p shared =
    rw (read_at_start xs [] 0 shared refl)
      (no_message (rw (add_zero (length xs)) (read-Shared (length xs) ne shared)))
tfs_read-ReadsNext xs (m ∷ ms) ne (size, p) shared =
    let long : min msg_max_len (length (m ++ concat ms)) ≡ msg_max_len =
      omega (arith, length-append m (concat ms), size) in
    rw
      (
        read_at_start xs (m ++ concat ms) msg_max_len shared long,
        slice-middle xs m (concat ms) size,
      )
      (next_message (read-Shared (length xs + msg_max_len) ne shared))

-- ===== src/Clients/Lines.antt =====
-- publisher/pub.c and subscriber/sub.c: lines that are typed, and lines that are printed.

-- No NUL, newline or byte 255.
use tecnico_fs_so.Prelude.{
  refl, List, [], ap, arith, false, length, map, pos, suc, zero, ℕ, ◌++◌, ◌+◌, ◌<◌, ◌∷◌, ◌≡◌, ◌≢◌,
  true, ◌==◌, bytes_eq_refl, length-append, lt→ltb, none, ◌∙◌, ◌≤◌,
}
use tecnico_fs_so.Fs.Entries.Names.{IsCString}
use tecnico_fs_so.Protocol.Layout.{padded}
use tecnico_fs_so.Clients.{
  take_line, write_messages, returns, read_messages, then_written, with_char, prints,
  publisher_write_messages, subscriber_read_messages, print_first,
}
use tecnico_fs_so.Protocol.Messages.{msg_max_len, message_packet, message_packet-padded}
use tecnico_fs_so.Broker.Sessions.Delivery.{packets}
use tecnico_fs_so.Broker.Sessions.{protocol_code_message_receive, protocol_code_message_send}
use tecnico_fs_so.Fs.Entries.{c_string}
use tecnico_fs_so.Protocol.{ready, pipe_read}
use tecnico_fs_so.Protocol.RoundTrip.{length-padded, pipe_read-append, c_string-padded}

abbrev pub IsLine : List ℕ → Type 0
IsLine [] = Unit
IsLine (x ∷ xs) = (x ≢ 0) × (x ≢ 10) × (x ≢ 255) × IsLine xs

abbrev pub AreLines : List (List ℕ) → Type 0
AreLines [] = Unit
AreLines (l ∷ ls) = (IsLine l) × (length l < 1023) × AreLines ls

IsLine-IsCString : (l : List ℕ) → IsLine l → IsCString l
IsLine-IsCString [] p = p
IsLine-IsCString (x ∷ xs) (nz, nl, ne, p) = (nz, IsLine-IsCString xs p)

c_string_self : (l : List ℕ) → IsCString l → c_string l ≡ l
unfolding c_string
c_string_self [] c = refl
c_string_self (x ∷ l) (nz, c) = ground (arith, c_string_self l c)

ne→==_false : (a b : ℕ) → a ≢ b → (a == b) ≡ false
ne→==_false a b ne = ground arith

take_line-typed :
    (room : ℕ) (l rest : List ℕ)
    → IsLine l
    → length l < room
    → take_line room (l ++ (10 ∷ rest)) ≡ record { message = l; rest = rest; at_eof = false }
unfolding take_line
take_line-typed zero l rest p lt = absurd (omega arith)
take_line-typed (suc room) [] rest p lt = refl
take_line-typed (suc room) (x ∷ l) rest (nz, nl, ne, p) lt =
    rw (ne→==_false x 10 nl, ne→==_false x 255 ne)
      (ap (with_char x) (take_line-typed room l rest p (omega arith)))

-- The lines as they are typed.
abbrev pub typed : List (List ℕ) → List ℕ
typed [] = []
typed (l ∷ ls) = l ++ (10 ∷ typed ls)

-- The arrays of MSG_MAX_LEN bytes that carry them.
abbrev pub arrays : List (List ℕ) → List (List ℕ)
arrays ls = map (padded msg_max_len) ls

take_line-nil : take_line 1023 [] ≡ record { message = []; rest = []; at_eof = true }
unfolding take_line
take_line-nil = refl

suc_add : (n k : ℕ) → suc n + k ≡ suc (n + k)
suc_add n k = omega arith

line_packet :
    (code : ℕ) (l : List ℕ)
    → IsLine l
    → length l < 1023
    → message_packet code (c_string l) ≡ ready (code ∷ padded msg_max_len l)
line_packet code l line short =
    rw (c_string_self l (IsLine-IsCString l line)) (message_packet-padded code l (omega arith))

write_messages-typed :
    (fuel k : ℕ) (ls : List (List ℕ))
    → AreLines ls
    → length ls < fuel
    → write_messages fuel (length ls + k) (typed ls)
      ≡ returns (packets protocol_code_message_receive (arrays ls)) (pos 0)
unfolding write_messages
write_messages-typed zero k ls p lt = absurd (omega arith)
write_messages-typed (suc fuel) k [] p lt = rw take_line-nil refl
write_messages-typed (suc fuel) k (l ∷ ls) (line, short, p) lt =
    rw
      (
        take_line-typed 1023 l (typed ls) line short,
        line_packet protocol_code_message_receive l line short,
        suc_add (length ls) k,
      )
      (ap (then_written (protocol_code_message_receive ∷ padded msg_max_len l))
        (write_messages-typed fuel k ls p (omega arith)))

pipe_read_nil : (n : ℕ) → pipe_read (n + 1) [] ≡ none
unfolding pipe_read
pipe_read_nil n = ground arith

read_messages-typed :
    (fuel : ℕ) (ls : List (List ℕ))
    → AreLines ls
    → length ls < fuel
    → read_messages fuel (packets protocol_code_message_send (arrays ls)) ≡ prints ls (length ls)
unfolding read_messages
read_messages-typed zero ls p lt = absurd (omega arith)
read_messages-typed (suc fuel) [] p lt = rw (pipe_read_nil 0) refl
read_messages-typed (suc fuel) (l ∷ ls) (line, short, p) lt =
    let more = packets protocol_code_message_send (arrays ls) in
    let full = length-padded msg_max_len l (omega arith) in
    rw
      (
        pipe_read-append 1 (protocol_code_message_send ∷ []) (padded msg_max_len l ++ more) refl,
        bytes_eq_refl (protocol_code_message_send ∷ []),
        pipe_read-append msg_max_len (padded msg_max_len l) more full,
        c_string-padded msg_max_len l (IsLine-IsCString l line) (omega arith),
        lt→ltb (length l) msg_max_len (omega arith),
      )
      (ap (print_first l) (read_messages-typed fuel ls p (omega arith))
        ∙ ap (prints (l ∷ ls)) (omega arith))

length-typed : (ls : List (List ℕ)) → length ls ≤ length (typed ls)
length-typed [] = omega arith
length-typed (l ∷ ls) = omega (arith, length-append l (10 ∷ typed ls), length-typed ls)

length-packets : (code : ℕ) (ms : List (List ℕ)) → length ms ≤ length (packets code ms)
length-packets code [] = omega arith
length-packets code (m ∷ ms) =
    omega (arith, length-append m (packets code ms), length-packets code ms)

pub length-arrays : (ls : List (List ℕ)) → length (arrays ls) ≡ length ls
length-arrays [] = refl
length-arrays (l ∷ ls) = ap suc (length-arrays ls)

-- A publisher's client ends with 0 on an input of lines of less than 1023 characters, none of them
-- NUL or a byte 255, if its pipe takes at least as many packets as there are lines, and it has
-- written one packet for each line, in their order: the code and the line, filled up with zeros.
pub publisher_write_messages-typed :
    (k : ℕ) (ls : List (List ℕ))
    → AreLines ls
    → publisher_write_messages (length ls + k) (typed ls)
      ≡ returns (packets protocol_code_message_receive (arrays ls)) (pos 0)
publisher_write_messages-typed k ls p =
    write_messages-typed (length (typed ls) + 1) k ls p (omega (arith, length-typed ls))

-- A subscriber's client that gets the packets of these lines from the broker, for lines of less than
-- 1023 characters, none of them NUL, newline or a byte 255, prints just the lines, in their order,
-- and their number, and it ends.
pub subscriber_read_messages-typed :
    (ls : List (List ℕ))
    → AreLines ls
    → subscriber_read_messages (packets protocol_code_message_send (arrays ls))
      ≡ prints ls (length ls)
subscriber_read_messages-typed ls p =
    let bytes : List ℕ = packets protocol_code_message_send (arrays ls) in
    let enough = length-packets protocol_code_message_send (arrays ls) in
    read_messages-typed (length bytes + 1) ls p (omega (arith, enough, length-arrays ls))

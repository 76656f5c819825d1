-- ===== src/Protocol/RoundTrip.antt =====
-- protocol/protocol.c and mbroker/mbroker.c: the broker reads back the request that a client wrote.
use tecnico_fs_so.Prelude.{
  ℕ, refl, List, [], ap, append_nil, arith, drop, false, length, length-append, length-replicate,
  le→leb, lt→ltb, some, suc, take, ◌%◌, ◌++◌, ◌-◌, ◌<◌, ◌==◌, ◌∙◌, ◌∷◌, ◌≡◌, ◌≢◌, ◌≤◌, none, sym,
}
use tecnico_fs_so.Fs.Entries.Names.{IsCString}
use tecnico_fs_so.Fs.Entries.{c_string}
use tecnico_fs_so.Protocol.{
  packet_len, pipe_read, protocol_code_list_request, receive_connection, client_named_pipe_max_len,
  strcpy, box_name_max_len, request, request_packet, ready,
}
use tecnico_fs_so.Protocol.Layout.{padded, zeros, request_packet-layout}

c_string-append : (name rest : List ℕ) → IsCString name → c_string (name ++ 0 ∷ rest) ≡ name
unfolding c_string
c_string-append [] rest c = refl
c_string-append (x ∷ name) rest (ne, c) = ground (arith, c_string-append name rest c)

pub c_string-padded :
    (n : ℕ) (name : List ℕ) → IsCString name → length name < n → c_string (padded n name) ≡ name
c_string-padded n name c lt =
    let k : ℕ = n - length name - 1 in
    let some_zeros : n - length name ≡ suc k = omega arith in
    ap (λ m. c_string (name ++ zeros m)) some_zeros ∙ c_string-append name (zeros k) c

pub length-padded : (n : ℕ) (name : List ℕ) → length name ≤ n → length (padded n name) ≡ n
length-padded n name h = omega (
  arith,
  length-append name (zeros (n - length name)),
  length-replicate (n - length name) (let z : ℕ = 0 in z),
)

pub take-append : {A : Type 0} (xs ys : List A) → take (length xs) (xs ++ ys) ≡ xs
take-append [] [] = refl
take-append [] (y ∷ ys) = refl
take-append (x ∷ xs) ys = ap (◌∷◌ x) (take-append xs ys)

pub drop-append : (xs ys : List ℕ) → drop (length xs) (xs ++ ys) ≡ ys
drop-append [] ys = refl
drop-append (x ∷ xs) ys = drop-append xs ys

pub pipe_read-append :
    (n : ℕ) (xs ys : List ℕ) → length xs ≡ n → pipe_read n (xs ++ ys) ≡ some (xs, ys)
unfolding pipe_read
pipe_read-append n xs ys e = rw (← e) (
    rw
      (
        le→leb (length xs) (length (xs ++ ys)) (omega (arith, length-append xs ys)),
        take-append xs ys,
        drop-append xs ys,
      )
      refl)

strcpy-padded :
    (n : ℕ) (size : ℕ) (name : List ℕ)
    → IsCString name
    → length name < n
    → length name < size
    → strcpy size (padded n name) ≡ some name
unfolding strcpy
strcpy-padded n size name c lt room =
    rw (c_string-padded n name c lt, lt→ltb (length name) size room) refl

other_code : (code : ℕ) → code ≢ protocol_code_list_request → (code == 7) ≡ false
other_code code ne = ground arith

pub receive_bytes :
    (code : ℕ) (path name rest : List ℕ)
    → code ≢ protocol_code_list_request
    → IsCString path
    → length path < client_named_pipe_max_len
    → IsCString name
    → length name < box_name_max_len - 1
    → receive_connection code (padded 256 path ++ (padded 32 name ++ rest))
      ≡ request
          (record { code = code; client_named_pipe_path = path; box_name = some (b'/' ∷ name) })
unfolding receive_connection
receive_bytes code path name rest ne c lt c' lt' =
    rw
      (
        pipe_read-append 256 (padded 256 path) (padded 32 name ++ rest)
            (length-padded 256 path (omega arith)),
        strcpy-padded 256 256 path c lt lt,
        other_code code ne,
        pipe_read-append 32 (padded 32 name) rest (length-padded 32 name (omega arith)),
        strcpy-padded 32 31 name c' (omega arith) lt',
      )
      refl

pub receive_listing :
    (path rest : List ℕ)
    → IsCString path
    → length path < client_named_pipe_max_len
    → receive_connection 7 (padded 256 path ++ rest)
      ≡ request (record { code = 7; client_named_pipe_path = path; box_name = none })
unfolding receive_connection
receive_listing path rest c lt =
    rw
      (
        pipe_read-append 256 (padded 256 path) rest (length-padded 256 path (omega arith)),
        strcpy-padded 256 256 path c lt lt,
      )
      refl

-- The broker makes of the packet that a client wrote, behind its code, the request with the client's
-- pipe and the box name with a slash in front of it. The client's pipe name is a string of at most
-- 255 bytes, filled up with zeros, the box name one of at most 30 bytes, the code not that of a
-- listing, and the limit for packets not below their length.
pub receive_connection-request_packet :
    (pipe_buf code : ℕ) (path name bytes : List ℕ)
    → packet_len (some name) ≤ pipe_buf
    → code ≢ protocol_code_list_request
    → IsCString path
    → length path < client_named_pipe_max_len
    → IsCString name
    → length name < box_name_max_len - 1
    → request_packet pipe_buf code (padded client_named_pipe_max_len path) (some name) ≡ ready bytes
    → receive_connection code (drop 1 bytes)
      ≡ request
          (record { code = code; client_named_pipe_path = path; box_name = some (b'/' ∷ name) })
receive_connection-request_packet pipe_buf code path name bytes limit ne c lt c' lt' e =
    let layout =
      request_packet-layout pipe_buf code (padded 256 path) name limit
        (length-padded 256 path (omega arith)) (omega arith) in
    let same : bytes ≡ code % 256 ∷ padded 256 path ++ padded 32 name = cc in
    rw same (
      ap (λ xs. receive_connection code (padded 256 path ++ xs)) (sym (append_nil (padded 32 name)))
      ∙ receive_bytes code path name [] ne c lt c' lt')

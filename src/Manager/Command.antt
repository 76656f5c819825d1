-- ===== src/Manager/Command.antt =====
-- manager/manager.c, `main`: from the command line to the request that is written to the broker.
use tecnico_fs_so.Prelude.{
  Bool, List, Option, [], ap, arith, bytes_eq, if◌then◌else◌, length, ltb, lt→ltb, none, not, some,
  true, ℕ, ◌++◌, ◌-◌, ◌<◌, ◌==◌, ◌||◌, ◌∷◌, ◌≡◌, ◌≤◌,
}
use tecnico_fs_so.Protocol.{
  Packet, ready, request, request_packet, receive_connection, client_named_pipe_max_len, packet_len,
  protocol_code_list_request, box_name_max_len,
}
use tecnico_fs_so.Fs.Entries.Names.{IsCString}
use tecnico_fs_so.Protocol.Layout.{padded, request_packet-layout}
use tecnico_fs_so.Protocol.RoundTrip.{length-padded, receive_connection-request_packet}

-- "create", "remove" and "list".
abbrev pub create_word : List ℕ
create_word = b'c' ∷ b'r' ∷ b'e' ∷ b'a' ∷ b't' ∷ b'e' ∷ []

abbrev pub remove_word : List ℕ
remove_word = b'r' ∷ b'e' ∷ b'm' ∷ b'o' ∷ b'v' ∷ b'e' ∷ []

abbrev pub list_word : List ℕ
list_word = b'l' ∷ b'i' ∷ b's' ∷ b't' ∷ []

abbrev pub is_operation : List ℕ → Bool
is_operation operation =
    bytes_eq operation create_word
    || (bytes_eq operation remove_word || bytes_eq operation list_word)

-- What the command comes to: a failure before anything is sent, an access outside of the array of
-- the pipe's name, or the packet of a request.
pub data Asks : Type 0 where
  bad_usage name_overrun no_pipe : Asks
  sends_request : Packet → Asks

-- The `switch` on `operation[0]`. `box_name` is `argv[4]`, NULL if it is not given.
abbrev pub by_letter : ℕ → List ℕ → Option (List ℕ) → List ℕ → Asks
by_letter pipe_buf session_pipename box_name [] = bad_usage
by_letter pipe_buf session_pipename box_name (letter ∷ word) =
    if letter == b'c'
    then sends_request (request_packet pipe_buf 3 session_pipename box_name)
    else if letter == b'r'
    then sends_request (request_packet pipe_buf 5 session_pipename box_name)
    else if letter == b'l'
    then sends_request (request_packet pipe_buf protocol_code_list_request session_pipename none)
    else bad_usage

-- `made` says whether the session pipe can be created. The array of its name is cleared before.
abbrev pub with_operation : ℕ → Bool → List ℕ → List ℕ → Option (List ℕ) → Asks
with_operation pipe_buf made pipe operation box_name =
    if not (is_operation operation)
    then bad_usage
    else if not (ltb (length pipe) client_named_pipe_max_len)
    then name_overrun
    else if made
    then by_letter pipe_buf (padded client_named_pipe_max_len pipe) box_name operation
    else no_pipe

-- On the strings of `argv`.
unfoldable pub manager_main : ℕ → Bool → List (List ℕ) → Asks
manager_main pipe_buf made [] = bad_usage
manager_main pipe_buf made (program ∷ []) = bad_usage
manager_main pipe_buf made (program ∷ register ∷ []) = bad_usage
manager_main pipe_buf made (program ∷ register ∷ pipe ∷ []) = bad_usage
manager_main pipe_buf made (program ∷ register ∷ pipe ∷ operation ∷ []) =
    with_operation pipe_buf made pipe operation none
manager_main pipe_buf made (program ∷ register ∷ pipe ∷ operation ∷ box ∷ []) =
    with_operation pipe_buf made pipe operation (some box)
manager_main pipe_buf made (program ∷ register ∷ pipe ∷ operation ∷ box ∷ extra ∷ rest) = bad_usage

-- The code of a request for a box.
pub data CodeOf : List ℕ → ℕ → Type 0 where
  create_code : CodeOf create_word 3
  remove_code : CodeOf remove_word 5

-- The broker reads the request that the manager's command line asks for: for the operations "create"
-- and "remove" on a box, the manager sends one packet, and the broker makes of it the request with the
-- operation's code, the session pipe and the box name behind a slash. The pipe can be created, its
-- name is a string of at most 255 bytes, the box name one of at most 30, and the limit for packets
-- not below their length.
pub receive_connection-manager_main :
    (pipe_buf : ℕ) (program register path operation name : List ℕ) {code : ℕ}
    → packet_len (some name) ≤ pipe_buf
    → CodeOf operation code
    → IsCString path
    → length path < client_named_pipe_max_len
    → IsCString name
    → length name < box_name_max_len - 1
    → (bytes : List ℕ) × (manager_main pipe_buf true
          (program ∷ register ∷ path ∷ operation ∷ name ∷ [])
        ≡ sends_request (ready (code ∷ bytes)))
      × (receive_connection code bytes
          ≡ request (record {
            code = code;
            client_named_pipe_path = path;
            box_name = some (b'/' ∷ name);
          }))
unfolding manager_main bytes_eq
receive_connection-manager_main pipe_buf program register path operation name limit create_code c
      short c' short' =
    let layout =
      request_packet-layout pipe_buf 3 (padded 256 path) name limit
        (length-padded 256 path (omega (arith, short))) (omega (arith, short')) in
    (
      padded 256 path ++ padded 32 name,
      rw (lt→ltb (length path) 256 short) (ap sends_request layout),
      receive_connection-request_packet pipe_buf 3 path name (3 ∷ padded 256 path ++ padded 32 name)
          limit (λ e. ground arith) c short c' short' layout,
    )
receive_connection-manager_main pipe_buf program register path operation name limit remove_code c
      short c' short' =
    let layout =
      request_packet-layout pipe_buf 5 (padded 256 path) name limit
        (length-padded 256 path (omega (arith, short))) (omega (arith, short')) in
    (
      padded 256 path ++ padded 32 name,
      rw (lt→ltb (length path) 256 short) (ap sends_request layout),
      receive_connection-request_packet pipe_buf 5 path name (5 ∷ padded 256 path ++ padded 32 name)
          limit (λ e. ground arith) c short c' short' layout,
    )

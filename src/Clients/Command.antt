-- ===== src/Clients/Command.antt =====
-- publisher/pub.c and subscriber/sub.c, `main`: from the command line to the request for a session.
use tecnico_fs_so.Prelude.{
  Bool, List, [], ap, arith, if◌then◌else◌, length, ltb, lt→ltb, not, some, true, ℕ, ◌%◌, ◌++◌, ◌-◌,
  ◌<◌, ◌∷◌, ◌≡◌, ◌≢◌, ◌≤◌,
}
use tecnico_fs_so.Manager.Command.{Asks, bad_usage, name_overrun, no_pipe, sends_request}
use tecnico_fs_so.Protocol.{
  ready, request, request_packet, receive_connection, client_named_pipe_max_len, packet_len,
  box_name_max_len,
}
use tecnico_fs_so.Fs.Entries.Names.{IsCString}
use tecnico_fs_so.Protocol.Layout.{padded, request_packet-layout}
use tecnico_fs_so.Protocol.RoundTrip.{length-padded, receive_connection-request_packet}

-- `made` says whether the session pipe can be created. The array of its name is cleared before.
abbrev ask_for_session : ℕ → ℕ → Bool → List ℕ → List ℕ → Asks
ask_for_session code pipe_buf made pipe box =
    if not (ltb (length pipe) client_named_pipe_max_len)
    then name_overrun
    else if made
    then sends_request
        (request_packet pipe_buf code (padded client_named_pipe_max_len pipe) (some box))
    else no_pipe

-- The strings of `argv` are four; `code` is that of the request.
abbrev client_main : ℕ → ℕ → Bool → List (List ℕ) → Asks
client_main code pipe_buf made (program ∷ register ∷ pipe ∷ box ∷ []) =
    ask_for_session code pipe_buf made pipe box
client_main code pipe_buf made (program ∷ register ∷ pipe ∷ box ∷ extra ∷ rest) = bad_usage
client_main code pipe_buf made (program ∷ register ∷ pipe ∷ []) = bad_usage
client_main code pipe_buf made (program ∷ register ∷ []) = bad_usage
client_main code pipe_buf made (program ∷ []) = bad_usage
client_main code pipe_buf made [] = bad_usage

unfoldable pub_main : ℕ → Bool → List (List ℕ) → Asks
pub_main = client_main 1

unfoldable sub_main : ℕ → Bool → List (List ℕ) → Asks
sub_main = client_main 2

module _ (pipe_buf : ℕ) (program register path name : List ℕ)
    (limit : packet_len (some name) ≤ pipe_buf) (c : IsCString path)
    (short : length path < client_named_pipe_max_len) (c' : IsCString name)
    (short' : length name < box_name_max_len - 1) where
  -- The broker reads the request for a session that a client's command line asks for.
  abbrev Arrives : ℕ → Asks → Type 0
  Arrives code asks =
      (bytes : List ℕ) × (asks ≡ sends_request (ready (code ∷ bytes)))
      × (receive_connection code bytes
          ≡ request (record {
            code = code;
            client_named_pipe_path = path;
            box_name = some (b'/' ∷ name);
          }))

  client_main-Arrives :
      (code : ℕ)
      → code < 256
      → code ≢ 7
      → Arrives code (client_main code pipe_buf true (program ∷ register ∷ path ∷ name ∷ []))
  client_main-Arrives code byte other =
      let one_byte : code % 256 ≡ code = omega arith in
      let layout : request_packet pipe_buf code (padded 256 path) (some name)
          ≡ ready (code ∷ padded 256 path ++ padded 32 name) =
        rw one_byte at (
          request_packet-layout pipe_buf code (padded 256 path) name limit
            (length-padded 256 path (omega arith)) (omega arith)) in
      (
        padded 256 path ++ padded 32 name,
        rw (lt→ltb (length path) 256 short) (ap sends_request layout),
        receive_connection-request_packet pipe_buf code path name
            (code ∷ padded 256 path ++ padded 32 name) limit other c short c' short' layout,
      )

  pub_main-Arrives : Arrives 1 (pub_main pipe_buf true (program ∷ register ∷ path ∷ name ∷ []))
  unfolding pub_main
  pub_main-Arrives = client_main-Arrives 1 (omega arith) (omega arith)

  sub_main-Arrives : Arrives 2 (sub_main pipe_buf true (program ∷ register ∷ path ∷ name ∷ []))
  unfolding sub_main
  sub_main-Arrives = client_main-Arrives 2 (omega arith) (omega arith)

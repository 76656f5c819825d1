-- ===== src/Protocol.antt =====
-- protocol/protocol.c and, in mbroker/mbroker.c, `mbroker_receive_connection`: the request that a
-- client writes to the broker's pipe, and how the broker reads it.
pub mod Words
pub mod Messages
pub mod Layout
pub mod RoundTrip
mod Examples
use tecnico_fs_so.Prelude.{
  ℕ, List, Option, [], drop, if◌then◌else◌, leb, length, ltb, none, put, replicate, some, take, ◌%◌,
  ◌+◌, ◌-◌, ◌==◌, ◌∷◌,
}
use tecnico_fs_so.Fs.Entries.{c_string}

-- CLIENT_NAMED_PIPE_MAX_LEN, BOX_NAME_MAX_LEN and the code of a request for a listing.
abbrev pub client_named_pipe_max_len : ℕ
client_named_pipe_max_len = 256

abbrev pub box_name_max_len : ℕ
box_name_max_len = 32

abbrev pub protocol_code_list_request : ℕ
protocol_code_list_request = 7

-- A packet that is filled, and the offset behind what is written.
pub record Filling : Type 0 where
  pub packet : List ℕ
  pub packet_offset : ℕ

-- What a client's request comes to before it is written to the pipe: -1, a packet, or an access
-- outside of the packet.
pub data Packet : Type 0 where
  too_long overrun : Packet
  ready : List ℕ → Packet

abbrev pub fill_then : Option Filling → (Filling → Packet) → Packet
fill_then none rest = overrun
fill_then (some f) rest = rest f

-- `data` is the `data_len` bytes that are copied; `none` is an access outside of the packet.
unfoldable pub packet_write : Filling → List ℕ → Option Filling
packet_write f data_bytes =
    if leb (f.packet_offset + length data_bytes) (length f.packet)
    then some (record {
      packet = put f.packet f.packet_offset data_bytes;
      packet_offset = f.packet_offset + length data_bytes;
    })
    else none

abbrev pub packet_len : Option (List ℕ) → ℕ
packet_len none = 1 + client_named_pipe_max_len
packet_len (some box_name) = 1 + client_named_pipe_max_len + box_name_max_len

abbrev pub write_box_name : Option (List ℕ) → Filling → Packet
write_box_name none f = ready f.packet
write_box_name (some box_name) f = fill_then (packet_write f box_name) (λ g. ready g.packet)

-- The packet of `client_request_connection`. `session_pipename` is the array of 256 bytes,
-- `box_name` a string or NULL, `pipe_buf` the system's PIPE_BUF, and the byte of `code` that is
-- copied is the lowest.
unfoldable pub request_packet : ℕ → ℕ → List ℕ → Option (List ℕ) → Packet
request_packet pipe_buf code session_pipename box_name =
    if ltb pipe_buf (packet_len box_name)
    then too_long
    else fill_then
        (packet_write (record { packet = replicate (packet_len box_name) 0; packet_offset = 0 })
          (code % 256 ∷ []))
        (λ f.
          fill_then (packet_write f (take client_named_pipe_max_len session_pipename))
            (write_box_name box_name))

-- `request_t`, with its strings up to their NUL; `box_name` is `none` where it is not set.
pub record Request : Type 0 where
  pub code : ℕ
  pub client_named_pipe_path : List ℕ
  pub box_name : Option (List ℕ)

-- What the broker makes of the bytes in its pipe: a request for the queue, -1 after a read that
-- failed, or a `strcpy` beyond the end of an array.
pub data Received : Type 0 where
  request : Request → Received
  read_failed copy_overrun : Received

-- `pipe_read` of `n` bytes on a pipe with these bytes in it: what is read and what is left, or
-- `none` for a result of 0 or -1.
unfoldable pub pipe_read : ℕ → List ℕ → Option (List ℕ × List ℕ)
pipe_read n bytes = if leb n (length bytes) then some (take n bytes, drop n bytes) else none

-- `strcpy` to an array with `size` bytes, from one that is not longer than the string may be.
unfoldable pub strcpy : ℕ → List ℕ → Option (List ℕ)
strcpy size source = if ltb (length (c_string source)) size then some (c_string source) else none

abbrev pub copied_box_name : Request → Option (List ℕ) → Received
copied_box_name r none = copy_overrun
copied_box_name r (some name) = request (record r { box_name = some (b'/' ∷ name) })

-- The name is copied behind the slash.
abbrev pub with_box_name : Request → Option (List ℕ × List ℕ) → Received
with_box_name r none = read_failed
with_box_name r (some (box_name, rest)) = copied_box_name r (strcpy (box_name_max_len - 1) box_name)

abbrev pub copied_path : ℕ → List ℕ → Option (List ℕ) → Received
copied_path code rest none = copy_overrun
copied_path code rest (some name) =
    if code == protocol_code_list_request
    then request (record { code = code; client_named_pipe_path = name; box_name = none })
    else with_box_name (record { code = code; client_named_pipe_path = name; box_name = none })
        (pipe_read box_name_max_len rest)

abbrev pub with_path : ℕ → Option (List ℕ × List ℕ) → Received
with_path code none = read_failed
with_path code (some (path, rest)) = copied_path code rest (strcpy client_named_pipe_max_len path)

-- The request that `mbroker_receive_connection` hands to `pcq_enqueue`.
unfoldable pub receive_connection : ℕ → List ℕ → Received
receive_connection code bytes = with_path code (pipe_read client_named_pipe_max_len bytes)

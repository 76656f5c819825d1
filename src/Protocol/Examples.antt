-- ===== src/Protocol/Examples.antt =====
-- protocol/: instances of the theorems.
use tecnico_fs_so.Prelude.{ℕ, List, [], arith, some, ◌++◌, ◌∷◌, ◌≡◌}
use tecnico_fs_so.Fs.Entries.Names.{IsCString}
use tecnico_fs_so.Protocol.{receive_connection, request_packet, ready, request}
use tecnico_fs_so.Protocol.Layout.{padded, request_packet-layout}
use tecnico_fs_so.Protocol.RoundTrip.{receive_connection-request_packet, length-padded}

abbrev pipe_name : List ℕ
pipe_name = b'p' ∷ b'1' ∷ []

abbrev box : List ℕ
box = b'b' ∷ b'o' ∷ b'x' ∷ []

pipe_name-IsCString : IsCString pipe_name
pipe_name-IsCString = ((λ e. ground arith), ((λ e. ground arith), tt))

box-IsCString : IsCString box
box-IsCString = ((λ e. ground arith), ((λ e. ground arith), ((λ e. ground arith), tt)))

request_packet-layout_example :
    request_packet 4096 1 (padded 256 pipe_name) (some box)
    ≡ ready (1 ∷ padded 256 pipe_name ++ padded 32 box)
request_packet-layout_example =
    request_packet-layout 4096 1 (padded 256 pipe_name) box (omega arith)
      (length-padded 256 pipe_name (omega arith)) (omega arith)

sample_packet :
    request_packet 4096 1 (padded 256 pipe_name) (some box)
    ≡ ready (1 ∷ padded 256 pipe_name ++ padded 32 box)
sample_packet =
    request_packet-layout 4096 1 (padded 256 pipe_name) box (omega arith)
      (length-padded 256 pipe_name (omega arith)) (omega arith)

receive_connection-request_packet_example :
    receive_connection 1 (padded 256 pipe_name ++ padded 32 box)
    ≡ request
        (record { code = 1; client_named_pipe_path = pipe_name; box_name = some (b'/' ∷ box) })
receive_connection-request_packet_example =
    receive_connection-request_packet 4096 1 pipe_name box
      (1 ∷ padded 256 pipe_name ++ padded 32 box) (omega arith) (λ e. ground arith)
      pipe_name-IsCString (omega arith) box-IsCString (omega arith) sample_packet

-- ===== src/Protocol/Messages.antt =====
-- protocol/protocol.h, mbroker/mbroker.c and publisher/pub.c: the packets of messages.

use tecnico_fs_so.Prelude.{refl, List, [], arith, length, replicate, ℕ, ◌+◌, ◌∷◌, ◌≡◌, ◌≤◌}
use tecnico_fs_so.Protocol.{Packet, ready, fill_then, packet_write}
use tecnico_fs_so.Protocol.Layout.{padded, packet_write-zeros}

abbrev pub msg_max_len : ℕ
msg_max_len = 1024

-- code | message
unfoldable pub message_packet : ℕ → List ℕ → Packet
message_packet code message =
    fill_then
      (packet_write (record { packet = replicate (1 + msg_max_len) 0; packet_offset = 0 })
        (code ∷ []))
      (λ f. fill_then (packet_write f message) (λ f. ready f.packet))

-- The packet is the code and the message, filled up with zeros.
pub message_packet-padded :
    (code : ℕ) (message : List ℕ)
    → length message ≤ msg_max_len
    → message_packet code message ≡ ready (code ∷ padded msg_max_len message)
unfolding message_packet
message_packet-padded code message h =
    let head : List ℕ = code ∷ [] in
    let first = packet_write-zeros [] head 1025 (omega arith) in
    let second = packet_write-zeros head message 1024 h in rw (first, second) refl

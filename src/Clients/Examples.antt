-- ===== src/Clients/Examples.antt =====
-- publisher/pub.c and subscriber/sub.c: instances of the theorems.

use tecnico_fs_so.Prelude.{List, [], arith, pos, ℕ, ◌∷◌, ◌≡◌}
use tecnico_fs_so.Clients.Lines.{
  AreLines, typed, arrays, publisher_write_messages-typed, subscriber_read_messages-typed,
}
use tecnico_fs_so.Clients.{publisher_write_messages, subscriber_read_messages, returns, prints}
use tecnico_fs_so.Broker.Sessions.Delivery.{packets}
use tecnico_fs_so.Broker.Sessions.{protocol_code_message_send, protocol_code_message_receive}
use tecnico_fs_so.Clients.Relay.{PrintsFront, relayed-PrintsFront}
use tecnico_fs_so.Broker.Sessions.Samples.{later, at_first-Starts, packet, published}
use tecnico_fs_so.Broker.Sessions.Steps.{then_step, no_step, arrives}

abbrev hi : List ℕ
hi = b'h' ∷ b'i' ∷ []

abbrev bye : List ℕ
bye = b'b' ∷ b'y' ∷ b'e' ∷ []

abbrev two_lines : List (List ℕ)
two_lines = hi ∷ bye ∷ []

two_lines-AreLines : AreLines two_lines
two_lines-AreLines = (
  (omega arith, omega arith, omega arith, (omega arith, omega arith, omega arith, tt)),
  omega arith,
  (
    (
      omega arith,
      omega arith,
      omega arith,
      (omega arith, omega arith, omega arith, (omega arith, omega arith, omega arith, tt)),
    ),
    omega arith,
    tt,
  ),
)

publisher_write_messages-typed_example :
    publisher_write_messages 3 (typed two_lines)
    ≡ returns (packets protocol_code_message_receive (arrays two_lines)) (pos 0)
publisher_write_messages-typed_example =
    publisher_write_messages-typed 1 two_lines two_lines-AreLines

subscriber_read_messages-typed_example :
    subscriber_read_messages (packets protocol_code_message_send (arrays two_lines))
    ≡ prints two_lines 2
subscriber_read_messages-typed_example = subscriber_read_messages-typed two_lines two_lines-AreLines

one_line-AreLines : AreLines (hi ∷ [])
one_line-AreLines = (
  (omega arith, omega arith, omega arith, (omega arith, omega arith, omega arith, tt)),
  omega arith,
  tt,
)

relayed-PrintsFront_example : PrintsFront (hi ∷ []) later.output
relayed-PrintsFront_example =
    relayed-PrintsFront 0 (hi ∷ []) one_line-AreLines (omega arith) (at_first-Starts [])
      (published (then_step no_step (arrives packet)))
      (publisher_write_messages-typed 0 (hi ∷ []) one_line-AreLines)

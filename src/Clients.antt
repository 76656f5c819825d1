-- ===== src/Clients.antt =====
-- publisher/pub.c and subscriber/sub.c: what the clients of the sessions do with the bytes they read.
pub mod Command
pub mod Lines
pub mod Relay
mod Examples
use tecnico_fs_so.Prelude.{
  Bool, List, Option, [], bytes_eq, false, if◌then◌else◌, length, ltb, minus_one, none, pos, some,
  suc, true, zero, ℕ, ℤ, ◌++◌, ◌+◌, ◌-◌, ◌==◌, ◌∷◌,
}
use tecnico_fs_so.Protocol.{too_long, overrun, Packet, pipe_read, ready}
use tecnico_fs_so.Fs.Entries.{c_string}
use tecnico_fs_so.Protocol.Messages.{message_packet, msg_max_len}
use tecnico_fs_so.Broker.Sessions.{protocol_code_message_send, protocol_code_message_receive}

-- What the inner loop of `publisher_write_messages` takes from the standard input.
pub record Typed : Type 0 where
  pub message : List ℕ
  pub rest : List ℕ
  pub at_eof : Bool

abbrev pub with_char : ℕ → Typed → Typed
with_char c t = record t { message = c ∷ t.message }

-- `getchar` until a newline or EOF, for at most `room` characters. A byte 255 is EOF as a `char`.
unfoldable pub take_line : ℕ → List ℕ → Typed
take_line zero input = record { message = []; rest = input; at_eof = false }
take_line (suc room) [] = record { message = []; rest = []; at_eof = true }
take_line (suc room) (c ∷ input) =
    let more = take_line room input in
    if c == 10
    then record { message = []; rest = input; at_eof = false }
    else if c == 255
    then record { message = []; rest = input; at_eof = true }
    else with_char c more

-- The bytes written to the pipe and the result; or an access outside of the packet, or no fuel.
pub data Published : Type 0 where
  returns : List ℕ → ℤ → Published
  overruns no_fuel : Published

abbrev pub then_written : List ℕ → Published → Published
then_written packet (returns bytes result) = returns (packet ++ bytes) result
then_written packet overruns = overruns
then_written packet no_fuel = no_fuel

-- A packet is written if the pipe still takes one.
abbrev pub write_packet : (ℕ → Published) → ℕ → Packet → Published
write_packet next_round writable too_long = returns [] minus_one
write_packet next_round writable overrun = overruns
write_packet next_round zero (ready packet) = returns [] minus_one
write_packet next_round (suc writable) (ready packet) = then_written packet (next_round writable)

abbrev pub after_line : (ℕ → List ℕ → Published) → ℕ → Typed → Published
after_line next_round writable t =
    if t.at_eof
    then returns [] (pos 0)
    else write_packet (λ writable. next_round writable t.rest) writable
        (message_packet protocol_code_message_receive (c_string t.message))

-- The outer loop. `writable` is the number of packets after which the reader of the pipe is gone.
unfoldable pub write_messages : ℕ → ℕ → List ℕ → Published
write_messages zero writable input = no_fuel
write_messages (suc fuel) writable input =
    after_line (write_messages fuel) writable (take_line (msg_max_len - 1) input)

-- Each round but the last takes a character.
abbrev pub publisher_write_messages : ℕ → List ℕ → Published
publisher_write_messages writable input = write_messages (length input + 1) writable input

-- What a subscriber prints: a line for each message and the number of messages; or an access beyond
-- the end of the array, or no fuel.
pub data Printed : Type 0 where
  prints : List (List ℕ) → ℕ → Printed
  beyond out_of_fuel : Printed

abbrev pub print_first : List ℕ → Printed → Printed
print_first line (prints lines n) = prints (line ∷ lines) (n + 1)
print_first line beyond = beyond
print_first line out_of_fuel = out_of_fuel

-- `fprintf` of the array as a string.
abbrev pub print_message : (List ℕ → Printed) → Option (List ℕ × List ℕ) → Printed
print_message next_round none = prints [] 0
print_message next_round (some (message, rest)) =
    let later = next_round rest in
    if ltb (length (c_string message)) msg_max_len
    then print_first (c_string message) later
    else beyond

abbrev pub after_message_code : (List ℕ → Printed) → Option (List ℕ × List ℕ) → Printed
after_message_code next_round none = prints [] 0
after_message_code next_round (some (code, rest)) =
    if bytes_eq code (protocol_code_message_send ∷ [])
    then print_message next_round (pipe_read msg_max_len rest)
    else prints [] 0

unfoldable pub read_messages : ℕ → List ℕ → Printed
read_messages zero bytes = out_of_fuel
read_messages (suc fuel) bytes = after_message_code (read_messages fuel) (pipe_read 1 bytes)

-- On all the bytes that come before the pipe is closed, without a signal to end.
abbrev pub subscriber_read_messages : List ℕ → Printed
subscriber_read_messages bytes = read_messages (length bytes + 1) bytes

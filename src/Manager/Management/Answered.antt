-- ===== src/Manager/Management/Answered.antt =====
-- mbroker/mbroker.c and manager/manager.c: what the manager prints is what the broker did.
use tecnico_fs_so.Prelude.{
  ℕ, refl, Bool, List, [], ap, append_assoc, arith, false, int_bytes, length, length-int_bytes,
  minus_one, pos, read_int-int_bytes, read_int-minus_one, true, ℤ, ◌++◌, ◌-◌, ◌<◌, ◌∙◌, ◌∷◌, ◌≡◌,
  ◌≤◌, append_nil, some, sym,
}
use tecnico_fs_so.Manager.Management.{
  Reply, is_answer_code, manager_handle_box_management, ok_line, error_line,
}
use tecnico_fs_so.Broker.Handlers.{answer_packet, reply_packet}
use tecnico_fs_so.Fs.Entries.Names.{IsCString}
use tecnico_fs_so.Protocol.Layout.{padded, zeros}
use tecnico_fs_so.Protocol.RoundTrip.{pipe_read-append, length-padded, c_string-padded}
use tecnico_fs_so.Protocol.{ready, Filling, Packet, fill_then, packet_write, pipe_read}
use tecnico_fs_so.Broker.Listing.Answers.{fill_step}
use tecnico_fs_so.Protocol.Messages.{msg_max_len}

answer_packet-layout :
    (code : ℕ) (return_code : ℤ) (message : List ℕ)
    → length message ≤ msg_max_len
    → answer_packet code return_code message
      ≡ ready (code ∷ int_bytes return_code ++ padded msg_max_len message)
unfolding answer_packet
answer_packet-layout code return_code message h =
    let head : List ℕ = code ∷ [] in
    let bytes = int_bytes return_code in
    let last_step : Filling → Packet = λ f. ready f.packet in
    let second : Filling → Packet = λ f. fill_then (packet_write f message) last_step in
    let first : Filling → Packet = λ f. fill_then (packet_write f bytes) second in
    fill_step [] head 1029 1028 first (omega arith)
    ∙ fill_step head bytes 1028 1024 second (omega (arith, length-int_bytes return_code))
    ∙ fill_step (head ++ bytes) message 1024 (1024 - length message) last_step (omega arith)
    ∙ ap ready (append_assoc (head ++ bytes) message (zeros (1024 - length message)))

-- The manager's reply to a report.
abbrev pub reply_to : List ℕ → Bool → Reply
reply_to error_message true = ok_line
reply_to error_message false = error_line error_message

pipe_read-whole : (n : ℕ) (xs : List ℕ) → length xs ≡ n → pipe_read n xs ≡ some (xs, [])
pipe_read-whole n xs e = ap (pipe_read n) (sym (append_nil xs)) ∙ pipe_read-append n xs [] e

management_ok :
    (code : ℕ) (rest : List ℕ)
    → is_answer_code (code ∷ []) ≡ true
    → manager_handle_box_management (code ∷ int_bytes (pos 0) ++ rest) ≡ ok_line
unfolding manager_handle_box_management
management_ok code rest known =
    rw (pipe_read-append 1 (code ∷ []) (int_bytes (pos 0) ++ rest) refl) (
      rw known (
        rw (pipe_read-append 4 (int_bytes (pos 0)) rest (length-int_bytes (pos 0)))
          (rw (read_int-int_bytes 0 (omega arith)) refl)))

management_error :
    (code : ℕ) (message : List ℕ)
    → is_answer_code (code ∷ []) ≡ true
    → IsCString message
    → length message < msg_max_len
    → manager_handle_box_management (code ∷ int_bytes minus_one ++ padded msg_max_len message)
      ≡ error_line message
unfolding manager_handle_box_management
management_error code message known c short =
    let rest = padded msg_max_len message in
    rw (pipe_read-append 1 (code ∷ []) (int_bytes minus_one ++ rest) refl) (
      rw known (
        rw (pipe_read-append 4 (int_bytes minus_one) rest (length-int_bytes minus_one)) (
          rw read_int-minus_one (
            rw (pipe_read-whole msg_max_len rest (length-padded msg_max_len message (omega arith)))
              (ap error_line (c_string-padded msg_max_len message c short))))))

-- The manager prints "OK" for an answer that reports success, and else "ERROR" with the message of the
-- answer. The code is that of an answer, the message a string of less than 1024 bytes.
pub manager_handle_box_management-reply :
    (code : ℕ) (error_message : List ℕ) (success : Bool)
    → is_answer_code (code ∷ []) ≡ true
    → IsCString error_message
    → length error_message < msg_max_len
    → (packet : List ℕ) × (reply_packet code error_message success ≡ ready packet)
      × (manager_handle_box_management packet ≡ reply_to error_message success)
manager_handle_box_management-reply code error_message true known c short = (
  code ∷ int_bytes (pos 0) ++ padded msg_max_len [],
  answer_packet-layout code (pos 0) [] (omega arith),
  management_ok code (padded msg_max_len []) known,
)
manager_handle_box_management-reply code error_message false known c short = (
  code ∷ int_bytes minus_one ++ padded msg_max_len error_message,
  answer_packet-layout code minus_one error_message (omega arith),
  management_error code error_message known c short,
)

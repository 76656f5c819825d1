-- ===== src/Broker/Sessions/Sending.antt =====
-- mbroker/mbroker.c, `workers_handle_sub_register`: each step of a subscriber's session sends the
-- messages on in their order.

-- Where a step of the subscriber's session leads to.
use tecnico_fs_so.Prelude.{
  Bool, List, [], ap, append_nil, arith, false, length, pos, true, ℕ, ◌++◌, ◌-◌, ◌∙◌, ◌∷◌, ◌≡◌, ◌≢◌,
  sym, refl, inl,
}
use tecnico_fs_so.Broker.Sessions.Steps.{Config}
use tecnico_fs_so.Broker.Sessions.Subscriber.{
  Subscriber, Place, SubStep, tests, step_at, moves, checks, writes, asleep, sends_message, over,
  sub_step, dozing, reads_on,
}
use tecnico_fs_so.Protocol.Messages.{msg_max_len, message_packet, message_packet-padded}
use tecnico_fs_so.Broker.Sessions.Delivery.{
  Sharing, Held, Reads, Delivers, read_moves, testing, read_on, checking, sleeping, sending, ended,
  packets, packets_append, Waits, about_to_sleep, reading_on,
}
use tecnico_fs_so.Fs.Types.{State}
use tecnico_fs_so.Broker.Sessions.{protocol_code_message_send}
use tecnico_fs_so.Protocol.{ready}
use tecnico_fs_so.Protocol.Layout.{zeros}

pub data Continues (box_i h g i q : ℕ) (old : List (List ℕ)) (c : Config) : SubStep → Type 0 where
  moved :
      {sub : Subscriber} {files : State}
      → Delivers box_i h g i q old (record c { files = files; subscriber = sub })
      → Continues box_i h g i q old c (moves sub files)
  sent_on :
      {packet : List ℕ} {sub : Subscriber} {files : State}
      → Delivers box_i h g i q old
          (record c { files = files; subscriber = sub; output = c.output ++ packet })
      → Continues box_i h g i q old c (writes packet sub files)

packet_of_message :
    (message : List ℕ)
    → length message ≡ msg_max_len
    → message_packet protocol_code_message_send message
      ≡ ready (protocol_code_message_send ∷ message)
packet_of_message message size =
    let none_left : msg_max_len - length message ≡ 0 = omega (arith, size) in
    message_packet-padded protocol_code_message_send message (omega (arith, size))
    ∙ ap (λ n. ready (protocol_code_message_send ∷ (message ++ zeros n))) none_left
    ∙ ap (λ xs. ready (protocol_code_message_send ∷ xs)) (append_nil message)

module _ {box_i h g i q : ℕ} {old : List (List ℕ)} (ne : h ≢ g) where
  move_to :
      (sub : Subscriber) {c : Config} {held pending : List (List ℕ)}
      → Sharing box_i h g i q old c held pending
      → Held sub.message sub.place held
      → length sub.message ≡ msg_max_len
      → Waits sub.place c.publisher pending
      → Delivers box_i h g i q old (record c { subscriber = sub })
  move_to sub {held = held} {pending} d holds size waits = (
    held,
    (
      pending,
      record {
        new = d.new;
        delivered = d.delivered;
        in_order = d.in_order;
        sized = d.sized;
        shared = d.shared;
        box_taken = d.box_taken;
        from_pipe = d.from_pipe;
        sent = d.sent;
        holds = holds;
        array_size = size;
        whole = d.whole;
        waits = waits;
      },
    ),
  )

  -- The message that is held has been written to the pipe.
  delivered_one :
      {c : Config} {m : List ℕ} {pending : List (List ℕ)}
      → Sharing box_i h g i q old c (m ∷ []) pending
      → length c.subscriber.message ≡ msg_max_len
      → Sharing box_i h g i q old
          (record c {
            subscriber = record { place = reads_on; message = c.subscriber.message };
            output = c.output ++ (protocol_code_message_send ∷ m);
          })
          []
          pending
  delivered_one {c} {m} d size =
      let ds : List (List ℕ) = d.delivered ++ (m ∷ []) in
      record {
        new = d.new;
        delivered = ds;
        in_order = rw (append_nil ds) d.in_order;
        sized = d.sized;
        shared = rw (append_nil ds) d.shared;
        box_taken = d.box_taken;
        from_pipe = d.from_pipe;
        sent =
            ap (λ xs. xs ++ (protocol_code_message_send ∷ m)) d.sent
            ∙ ap
                (λ xs.
                  packets protocol_code_message_send d.delivered
                  ++ (protocol_code_message_send ∷ xs))
                (sym (append_nil m))
            ∙ sym (packets_append protocol_code_message_send d.delivered (m ∷ []));
        holds = reading_on;
        array_size = size;
        whole = d.whole;
        waits = tt;
      }

  Reads-Continues :
      {c : Config} {r : SubStep} → Reads box_i h g i q old c r → Continues box_i h g i q old c r
  Reads-Continues (read_moves d) = moved d

  at_place :
      (c : Config) (pipe_open : Bool) {place : Place} {message : List ℕ} {held : List (List ℕ)}
      (pending : List (List ℕ))
      → Held message place held
      → Sharing box_i h g i q old
          (record c { subscriber = record { place = place; message = message } })
          held
          pending
      → Continues box_i h g i q old
          (record c { subscriber = record { place = place; message = message } })
          (step_at place box_i (pos g) pipe_open message c.files c.broker)
  at_place c pipe_open pending testing d = rw d.box_taken (
      Reads-Continues
        (read_on ne checks dozing (λ m. checking) (λ m. about_to_sleep) (λ ms. tt) (inl refl) d))
  at_place c pipe_open {message = message} pending about_to_sleep d =
      moved (move_to (record { place = asleep; message = message }) d sleeping d.array_size d.waits)
  at_place c pipe_open {message = message} pending sleeping d =
      moved (move_to (record { place = tests; message = message }) d testing d.array_size tt)
  at_place c pipe_open {message = message} pending checking d = rw d.box_taken (
      moved
        (move_to (record { place = sends_message; message = message }) d sending d.array_size tt))
  at_place c true {message = message} pending sending d =
      rw (packet_of_message message d.array_size)
        (sent_on ([], (pending, delivered_one d d.array_size)))
  at_place c pipe_open pending reading_on d =
      Reads-Continues (read_on ne sends_message tests (λ m. sending) (λ m. testing) (λ ms. tt) tt d)
  at_place c false {message = message} pending sending d =
      rw (packet_of_message message d.array_size) (
        moved (
          move_to (record { place = over; message = message }) d (ended (message ∷ [])) d.array_size
            tt))
  at_place c pipe_open {message = message} pending (ended held) d =
      moved (move_to (record { place = over; message = message }) d (ended held) d.array_size tt)

  pub sub_step-Continues :
      {c : Config} (pipe_open : Bool)
      → Delivers box_i h g i q old c
      → Continues box_i h g i q old c
          (sub_step box_i (pos g) pipe_open c.subscriber c.files c.broker)
  unfolding sub_step
  sub_step-Continues {c} pipe_open (held, (pending, d)) = at_place c pipe_open pending d.holds d

-- ===== src/Broker/Sessions/Invariant.antt =====
-- mbroker/mbroker.c: each step of the sessions keeps the order of the messages.
use tecnico_fs_so.Prelude.{
  List, [], ap, append_assoc, append_nil, concat, concat_append, length, sym, ℕ, ◌++◌, ◌∙◌, ◌∷◌,
  ◌≡◌, ◌≢◌, inl, inr, ◌*◌, refl, some,
}
use tecnico_fs_so.Broker.Sessions.Shared.{Shared}
use tecnico_fs_so.Protocol.Messages.{msg_max_len}
use tecnico_fs_so.Broker.Sessions.Steps.{
  no_step, Config, Step, Reach, arrives, stops, moves_on, then_step, writes_out, takes, stores,
  gives_up, broadcasts,
}
use tecnico_fs_so.Broker.Sessions.Delivery.{
  packets, Delivers, Sharing, packets_append, Waits, in_hand, HoldsWhole, Held, testing,
  about_to_sleep, sleeping, checking, sending, ended, reading_on,
}
use tecnico_fs_so.Fs.Types.{State}
use tecnico_fs_so.Broker.Sessions.Subscriber.{
  Subscriber, moves, writes, Place, tests, dozing, asleep, checks, sends_message, over, woken, wake,
  reads_on,
}
use tecnico_fs_so.Broker.Sessions.{
  protocol_code_message_receive, PubPlace, takes_next, updates_box, stores_message, left_with,
  message_read, stored_whole, cut_short, update_box, add_message,
}
use tecnico_fs_so.Broker.Types.{Broker}
use tecnico_fs_so.Broker.Sessions.Sending.{Continues, moved, sent_on, sub_step-Continues}
use tecnico_fs_so.Broker.Sessions.Publishing.{
  message_taken, Takes, take_message-Takes, Stores, message_stored, not_stored,
  store_message-Stores, update_box-free_boxes,
}
use tecnico_fs_so.Broker.Sessions.Reads.{AreMessages, AreMessages-append, length-concat}

-- A new message is pending first.
order_new :
    (old new xs ys : List (List ℕ)) (m : List ℕ)
    → old ++ new ≡ xs ++ ys
    → old ++ (new ++ (m ∷ [])) ≡ xs ++ (ys ++ (m ∷ []))
order_new old new xs ys m e =
    sym (append_assoc old new (m ∷ [])) ∙ ap (λ zs. zs ++ (m ∷ [])) e ∙ append_assoc xs ys (m ∷ [])

concat-new :
    (xs : List ℕ) (ms : List (List ℕ)) (m : List ℕ)
    → (xs ++ concat ms) ++ m ≡ xs ++ concat (ms ++ (m ∷ []))
concat-new xs ms m =
    append_assoc xs (concat ms) m
    ∙ ap (λ ys. xs ++ (concat ms ++ ys)) (sym (append_nil m))
    ∙ ap (λ ys. xs ++ ys) (sym (concat_append ms (m ∷ [])))

packets-new :
    (new : List (List ℕ)) (m came input : List ℕ)
    → came
      ≡ packets protocol_code_message_receive new ++ ((protocol_code_message_receive ∷ m) ++ input)
    → came ≡ packets protocol_code_message_receive (new ++ (m ∷ [])) ++ input
packets-new new m came input e =
    let code : ℕ = protocol_code_message_receive in
    e
    ∙ sym (append_assoc (packets code new) (code ∷ m) input)
    ∙ ap (λ xs. (packets code new ++ (code ∷ xs)) ++ input) (sym (append_nil m))
    ∙ ap (λ xs. xs ++ input) (sym (packets_append code new (m ∷ [])))

-- A publisher that was not about to wake the subscriber may go anywhere.
busy-Waits :
    (place : Place) {publisher : PubPlace} (next : PubPlace) (pending : List (List ℕ))
    → publisher ≢ updates_box
    → Waits place publisher pending
    → Waits place next pending
busy-Waits tests next pending ne w = tt
busy-Waits dozing next pending ne (inl none_left) = inl none_left
busy-Waits dozing next pending ne (inr at) = absurd (ne at)
busy-Waits asleep next pending ne (inl none_left) = inl none_left
busy-Waits asleep next pending ne (inr at) = absurd (ne at)
busy-Waits checks next pending ne w = tt
busy-Waits sends_message next pending ne w = tt
busy-Waits reads_on next pending ne w = tt
busy-Waits over next pending ne w = tt

-- A publisher that is about to wake the subscriber may have left anything for it.
updates-Waits : (place : Place) (pending : List (List ℕ)) → Waits place updates_box pending
updates-Waits tests pending = tt
updates-Waits dozing pending = inr refl
updates-Waits asleep pending = inr refl
updates-Waits checks pending = tt
updates-Waits sends_message pending = tt
updates-Waits reads_on pending = tt
updates-Waits over pending = tt

woken-Waits :
    (place : Place) (publisher : PubPlace) (pending : List (List ℕ))
    → place ≢ dozing
    → Waits (woken place) publisher pending
woken-Waits tests publisher pending ne = tt
woken-Waits dozing publisher pending ne = absurd (ne refl)
woken-Waits asleep publisher pending ne = tt
woken-Waits checks publisher pending ne = tt
woken-Waits sends_message publisher pending ne = tt
woken-Waits reads_on publisher pending ne = tt
woken-Waits over publisher pending ne = tt

woken-Held :
    {message : List ℕ} {place : Place} {held : List (List ℕ)}
    → Held message place held
    → Held message (woken place) held
woken-Held testing = testing
woken-Held about_to_sleep = about_to_sleep
woken-Held sleeping = testing
woken-Held checking = checking
woken-Held sending = sending
woken-Held reading_on = reading_on
woken-Held (ended held) = ended held

module _ {box_i h g i q : ℕ} {old : List (List ℕ)} (ne : h ≢ g) where
  -- The publisher's session moves, and the bytes that it has not made into messages stay the same.
  goes_to :
      {c : Config} {held pending : List (List ℕ)} (next : PubPlace) {rest : List ℕ}
      → (d : Sharing box_i h g i q old c held pending) → c.publisher ≢ updates_box
      → in_hand c.publisher ++ c.input ≡ in_hand next ++ rest
      → HoldsWhole next
      → {files : State}
      → Shared files h g i q
          (concat (d.delivered ++ held) ++ concat pending)
          (length (concat (d.delivered ++ held)))
      → Delivers box_i h g i q old (record c { files = files; publisher = next; input = rest })
  goes_to {c} {held} {pending} next d busy e whole after = (
    held,
    (
      pending,
      record {
        new = d.new;
        delivered = d.delivered;
        in_order = d.in_order;
        sized = d.sized;
        shared = after;
        box_taken = d.box_taken;
        from_pipe = d.from_pipe ∙ ap (λ xs. packets protocol_code_message_receive d.new ++ xs) e;
        sent = d.sent;
        holds = d.holds;
        array_size = d.array_size;
        whole = whole;
        waits = busy-Waits c.subscriber.place next pending busy d.waits;
      },
    ),
  )

  taken_on :
      {c : Config} {held pending : List (List ℕ)} {message rest : List ℕ}
      → Sharing box_i h g i q old c held pending
      → c.publisher ≡ takes_next
      → Takes c.input (message_read message rest)
      → Delivers box_i h g i q old (record c { publisher = stores_message message; input = rest })
  taken_on d at (message_taken m e size) =
      goes_to (stores_message m) d (λ z. cc) (rw at e) size d.shared

  stopped :
      {c : Config} {held pending : List (List ℕ)}
      → Sharing box_i h g i q old c held pending
      → c.publisher ≡ takes_next
      → Delivers box_i h g i q old (record c { publisher = left_with [] })
  stopped d at = goes_to (left_with []) d (λ z. cc) (rw at refl) tt d.shared

  whole_file :
      {c : Config} {held pending : List (List ℕ)}
      → (d : Sharing box_i h g i q old c held pending)
      → length (concat (d.delivered ++ held) ++ concat pending)
        ≡ length ((d.delivered ++ held) ++ pending) * msg_max_len
  whole_file {held = held} {pending} d =
      let all : List (List ℕ) = (d.delivered ++ held) ++ pending in
      let sized : AreMessages all = rw d.in_order at d.sized in
      ap length (sym (concat_append (d.delivered ++ held) pending)) ∙ length-concat all sized

  stored :
      {c : Config} {held pending : List (List ℕ)} {m : List ℕ} {files : State}
      → (d : Sharing box_i h g i q old c held pending) → c.publisher ≡ stores_message m
      → length m ≡ msg_max_len
      → Stores h g i q
          (concat (d.delivered ++ held) ++ concat pending)
          (length (concat (d.delivered ++ held)))
          m
          (stored_whole files)
      → Delivers box_i h g i q old (record c { files = files; publisher = updates_box })
  stored {c} {held} {pending} {m} d at size (message_stored after) = (
    held,
    (
      pending ++ (m ∷ []),
      record {
        new = d.new ++ (m ∷ []);
        delivered = d.delivered;
        in_order = order_new old d.new (d.delivered ++ held) pending m d.in_order;
        sized =
            rw (← append_assoc old d.new (m ∷ []))
              (AreMessages-append (old ++ d.new) (m ∷ []) d.sized (size, tt));
        shared = rw (concat-new (concat (d.delivered ++ held)) pending m) at after;
        box_taken = d.box_taken;
        from_pipe = packets-new d.new m c.came c.input (rw at at d.from_pipe);
        sent = d.sent;
        holds = d.holds;
        array_size = d.array_size;
        whole = tt;
        waits = updates-Waits c.subscriber.place (pending ++ (m ∷ []));
      },
    ),
  )

  not_kept :
      {c : Config} {held pending : List (List ℕ)} {m : List ℕ} {files : State}
      → (d : Sharing box_i h g i q old c held pending) → c.publisher ≡ stores_message m
      → Stores h g i q
          (concat (d.delivered ++ held) ++ concat pending)
          (length (concat (d.delivered ++ held)))
          m
          (cut_short files)
      → Delivers box_i h g i q old
          (record c { files = files; publisher = left_with (protocol_code_message_receive ∷ m) })
  not_kept {m = m} d at (not_stored after) =
      goes_to (left_with (protocol_code_message_receive ∷ m)) d (λ z. cc) (rw at refl) tt after

  broadcast :
      {c : Config} {held pending : List (List ℕ)} {broker : Broker}
      → Sharing box_i h g i q old c held pending
      → c.publisher ≡ updates_box
      → c.subscriber.place ≢ dozing
      → update_box box_i add_message c.broker ≡ some broker
      → Delivers box_i h g i q old
          (record c { broker = broker; publisher = takes_next; subscriber = wake c.subscriber })
  broadcast {c} {held} {pending} d at awake e = (
    held,
    (
      pending,
      record {
        new = d.new;
        delivered = d.delivered;
        in_order = d.in_order;
        sized = d.sized;
        shared = d.shared;
        box_taken = rw (update_box-free_boxes box_i c.broker e) d.box_taken;
        from_pipe = rw at at d.from_pipe;
        sent = d.sent;
        holds = woken-Held d.holds;
        array_size = d.array_size;
        whole = tt;
        waits = woken-Waits c.subscriber.place takes_next pending awake;
      },
    ),
  )

  arrived :
      {c : Config} {held pending : List (List ℕ)} (bytes : List ℕ)
      → Sharing box_i h g i q old c held pending
      → Delivers box_i h g i q old (record c { came = c.came ++ bytes; input = c.input ++ bytes })
  arrived {c} {held} {pending} bytes d = (
    held,
    (
      pending,
      record {
        new = d.new;
        delivered = d.delivered;
        in_order = d.in_order;
        sized = d.sized;
        shared = d.shared;
        box_taken = d.box_taken;
        from_pipe =
            let before : List ℕ = packets protocol_code_message_receive d.new in
            ap (λ xs. xs ++ bytes) d.from_pipe
            ∙ append_assoc before (in_hand c.publisher ++ c.input) bytes
            ∙ ap (λ xs. before ++ xs) (append_assoc (in_hand c.publisher) c.input bytes);
        sent = d.sent;
        holds = d.holds;
        array_size = d.array_size;
        whole = d.whole;
        waits = d.waits;
      },
    ),
  )

  after_move :
      {c : Config} {sub : Subscriber} {files : State}
      → Continues box_i h g i q old c (moves sub files)
      → Delivers box_i h g i q old (record c { files = files; subscriber = sub })
  after_move (moved d) = d

  after_send :
      {c : Config} {packet : List ℕ} {sub : Subscriber} {files : State}
      → Continues box_i h g i q old c (writes packet sub files)
      → Delivers box_i h g i q old
          (record c { files = files; subscriber = sub; output = c.output ++ packet })
  after_send (sent_on d) = d

  Step-Delivers :
      {c d : Config}
      → Step box_i h g c d
      → Delivers box_i h g i q old c
      → Delivers box_i h g i q old d
  Step-Delivers (arrives bytes) (held, (pending, d)) = arrived bytes d
  Step-Delivers {c} (takes at e) (held, (pending, d)) =
      taken_on d at (rw e at (take_message-Takes box_i c.broker d.box_taken c.input))
  Step-Delivers (stops at e) (held, (pending, d)) = stopped d at
  Step-Delivers (stores {message = m} at e) (held, (pending, d)) =
      let size : length m ≡ msg_max_len = rw at at d.whole in
      stored d at size (
        rw e at (
          store_message-Stores (length ((d.delivered ++ held) ++ pending)) ne d.shared
            (whole_file d) m size))
  Step-Delivers (gives_up {message = m} at e) (held, (pending, d)) =
      let size : length m ≡ msg_max_len = rw at at d.whole in
      not_kept d at (
        rw e at (
          store_message-Stores (length ((d.delivered ++ held) ++ pending)) ne d.shared
            (whole_file d) m size))
  Step-Delivers (broadcasts at awake e) (held, (pending, d)) = broadcast d at awake e
  Step-Delivers (moves_on pipe_open e) d = after_move (rw e at (sub_step-Continues ne pipe_open d))
  Step-Delivers (writes_out pipe_open e) d =
      after_send (rw e at (sub_step-Continues ne pipe_open d))

  pub Reach-Delivers :
      {c d : Config}
      → Delivers box_i h g i q old c
      → Reach box_i h g c d
      → Delivers box_i h g i q old d
  Reach-Delivers p no_step = p
  Reach-Delivers p (then_step r s) = Step-Delivers s (Reach-Delivers p r)

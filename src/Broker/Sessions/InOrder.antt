-- ===== src/Broker/Sessions/InOrder.antt =====
-- mbroker/mbroker.c: whatever the order of their steps, a subscriber is sent the messages of the box
-- in the order in which they were published.
use tecnico_fs_so.Prelude.{
  List, [], append_assoc, append_nil, concat, get_elem?, length, some, ℕ, ◌++◌, ◌∙◌, ◌≡◌, ◌≢◌,
}
use tecnico_fs_so.Broker.Sessions.Delivery.{testing, Delivers, packets, in_hand}
use tecnico_fs_so.Broker.Sessions.Steps.{Config, Reach}
use tecnico_fs_so.Broker.Sessions.Reads.{AreMessages}
use tecnico_fs_so.Broker.Sessions.Invariant.{Reach-Delivers}
use tecnico_fs_so.Broker.Sessions.Shared.{Shared}
use tecnico_fs_so.Broker.Sessions.{
  protocol_code_message_receive, protocol_code_message_send, takes_next,
}
use tecnico_fs_so.Fs.Types.{taken}
use tecnico_fs_so.Broker.Sessions.Subscriber.{tests}
use tecnico_fs_so.Protocol.Messages.{msg_max_len}

-- How the sessions begin: both handles are open on the file of the box, which holds the messages
-- `old`, the publisher's behind them and the subscriber's at the start; the box is in use, and
-- nothing has been sent.
pub record Starts (box_i h g i q : ℕ) (old : List (List ℕ)) (c : Config) : Type 0 where
  pub sized : AreMessages old
  pub shared : Shared c.files h g i q (concat old) 0
  pub box_taken : get_elem? c.broker.free_boxes box_i ≡ some taken
  pub publisher_first : c.publisher ≡ takes_next
  pub unread : c.came ≡ c.input
  pub silent : c.output ≡ []
  pub testing_first : c.subscriber.place ≡ tests
  pub array_size : length c.subscriber.message ≡ msg_max_len

-- Of the messages in the box, the old ones and those that the publisher's session has taken from its
-- pipe and stored, in the order in which they came, the subscriber's pipe has got the first ones, each once and in the same order.
pub record IsInOrder (old : List (List ℕ)) (c : Config) : Type 0 where
  pub new : List (List ℕ)
  pub delivered : List (List ℕ)
  pub rest : List (List ℕ)
  pub taken_from_pipe :
      c.came ≡ packets protocol_code_message_receive new ++ (in_hand c.publisher ++ c.input)
  pub in_order : old ++ new ≡ delivered ++ rest
  pub sized : AreMessages (old ++ new)
  pub sent : c.output ≡ packets protocol_code_message_send delivered

pub Starts-Delivers :
    {box_i h g i q : ℕ} {old : List (List ℕ)} {c : Config}
    → Starts box_i h g i q old c
    → Delivers box_i h g i q old c
Starts-Delivers {old = old} s = (
  [],
  (
    old,
    record {
      new = [];
      delivered = [];
      in_order = append_nil old;
      sized = rw (append_nil old) s.sized;
      shared = s.shared;
      box_taken = s.box_taken;
      from_pipe = rw s.publisher_first s.unread;
      sent = s.silent;
      holds = rw s.testing_first testing;
      array_size = s.array_size;
      whole = rw s.publisher_first tt;
      waits = rw s.testing_first tt;
    },
  ),
)

Delivers-IsInOrder :
    {box_i h g i q : ℕ} {old : List (List ℕ)} {c : Config}
    → Delivers box_i h g i q old c
    → IsInOrder old c
Delivers-IsInOrder (held, (pending, d)) = record {
  new = d.new;
  delivered = d.delivered;
  rest = held ++ pending;
  taken_from_pipe = d.from_pipe;
  in_order = d.in_order ∙ append_assoc d.delivered held pending;
  sized = d.sized;
  sent = d.sent;
}

-- A publisher's and a subscriber's session are open on one box through two different handles, the
-- publisher's behind the messages in the file and the subscriber's at its start. Whatever the order
-- of their steps and of the bytes that the publisher's client writes, and whether the pipe of the
-- subscriber is open or not, at any time the subscriber's pipe has got the first ones of the
-- messages of the box, each once, in their order and whole: those that were there and then those
-- read from the publisher's pipe and stored. The box is not removed meanwhile.
pub Reach-IsInOrder :
    {box_i h g i q : ℕ} {old : List (List ℕ)} {c d : Config}
    → h ≢ g
    → Starts box_i h g i q old c
    → Reach box_i h g c d
    → IsInOrder old d
Reach-IsInOrder ne s r = Delivers-IsInOrder (Reach-Delivers ne (Starts-Delivers s) r)

-- ===== src/Broker/Sessions/Steps.antt =====
-- mbroker/mbroker.c: the session of a publisher and that of a subscriber of one box, in any order of
-- their steps.

use tecnico_fs_so.Prelude.{Bool, List, pos, ℕ, ◌++◌, ◌≡◌, ◌≢◌, some, [], ◌∷◌}
use tecnico_fs_so.Fs.Types.{State}
use tecnico_fs_so.Broker.Types.{Broker}
use tecnico_fs_so.Broker.Sessions.Subscriber.{Subscriber, sub_step, moves, writes, dozing, wake}
use tecnico_fs_so.Broker.Sessions.{
  PubPlace, take_message, message_read, loop_ends, takes_next, stores_message, updates_box,
  left_with, store_message, stored_whole, cut_short, update_box, add_message,
  protocol_code_message_receive,
}

-- `came` is all that the publisher's client has written to its pipe, of which `input` is not yet
-- made into messages; `output` is what was written to the subscriber's pipe.
pub record Config : Type 0 where
  pub files : State
  pub broker : Broker
  pub publisher : PubPlace
  pub came : List ℕ
  pub input : List ℕ
  pub subscriber : Subscriber
  pub output : List ℕ

-- One step: of the publisher's client, of the publisher's session on handle `h`, or of the
-- subscriber's session on handle `g`. The publisher writes to the file without the mutex of the box.
-- The update of the box and its broadcast are one step, since both run under that mutex; the step
-- waits while the subscriber holds the mutex, between its test and `cond_wait`.
pub data Step (box_i h g : ℕ) (c : Config) : Config → Type 0 where
  arrives :
      (bytes : List ℕ)
      → Step box_i h g c (record c { came = c.came ++ bytes; input = c.input ++ bytes })
  takes :
      {message rest : List ℕ}
      → c.publisher ≡ takes_next
      → take_message box_i c.input c.broker ≡ message_read message rest
      → Step box_i h g c (record c { publisher = stores_message message; input = rest })
  stops :
      c.publisher ≡ takes_next
      → take_message box_i c.input c.broker ≡ loop_ends
      → Step box_i h g c (record c { publisher = left_with [] })
  stores :
      {message : List ℕ} {files : State}
      → c.publisher ≡ stores_message message
      → store_message (pos h) message c.files ≡ stored_whole files
      → Step box_i h g c (record c { files = files; publisher = updates_box })
  gives_up :
      {message : List ℕ} {files : State}
      → c.publisher ≡ stores_message message
      → store_message (pos h) message c.files ≡ cut_short files
      → Step box_i h g c (record c {
        files = files;
        publisher = left_with (protocol_code_message_receive ∷ message);
      })
  broadcasts :
      {broker : Broker}
      → c.publisher ≡ updates_box
      → c.subscriber.place ≢ dozing
      → update_box box_i add_message c.broker ≡ some broker
      → Step box_i h g c
          (record c { broker = broker; publisher = takes_next; subscriber = wake c.subscriber })
  moves_on :
      {sub : Subscriber} {files : State} (pipe_open : Bool)
      → sub_step box_i (pos g) pipe_open c.subscriber c.files c.broker ≡ moves sub files
      → Step box_i h g c (record c { files = files; subscriber = sub })
  writes_out :
      {packet : List ℕ} {sub : Subscriber} {files : State} (pipe_open : Bool)
      → sub_step box_i (pos g) pipe_open c.subscriber c.files c.broker ≡ writes packet sub files
      → Step box_i h g c (record c { files = files; subscriber = sub; output = c.output ++ packet })

pub data Reach (box_i h g : ℕ) (c : Config) : Config → Type 0 where
  no_step : Reach box_i h g c c
  then_step : {d e : Config} → Reach box_i h g c d → Step box_i h g d e → Reach box_i h g c e

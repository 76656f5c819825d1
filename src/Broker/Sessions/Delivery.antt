-- ===== src/Broker/Sessions/Delivery.antt =====
-- mbroker/mbroker.c: what the sessions of a publisher and a subscriber keep.

-- The packets that carry these messages.
use tecnico_fs_so.Prelude.{
  refl, List, [], ap, append_assoc, concat, get_elem?, length, some, sym, ℕ, ◌++◌, ◌∙◌, ◌∷◌, ◌≡◌,
  length-put, put, ℤ, ◌≢◌, append_nil, arith, concat_append, length-append, pos, true, ◌+◌, ◌⊎◌,
}
use tecnico_fs_so.Broker.Sessions.Steps.{Config}
use tecnico_fs_so.Broker.Sessions.Subscriber.{
  Place, tests, asleep, checks, sends_message, over, SubStep, Subscriber, after_message, moves,
  dozing, reads_on,
}
use tecnico_fs_so.Broker.Sessions.Reads.{
  AreMessages, AreMessages-rest, ReadsNext, next_message, no_message, tfs_read-ReadsNext,
}
use tecnico_fs_so.Broker.Sessions.Shared.{Shared}
use tecnico_fs_so.Fs.Types.{taken, State}
use tecnico_fs_so.Broker.Sessions.{
  protocol_code_message_receive, protocol_code_message_send, PubPlace, takes_next, updates_box,
  stores_message, left_with,
}
use tecnico_fs_so.Protocol.Messages.{msg_max_len}
use tecnico_fs_so.Fs.Run.{Run}
use tecnico_fs_so.Fs.Ops.{tfs_read}

abbrev pub packets : ℕ → List (List ℕ) → List ℕ
packets code [] = []
packets code (m ∷ ms) = code ∷ (m ++ packets code ms)

pub packets_append :
    (code : ℕ) (ms ns : List (List ℕ))
    → packets code (ms ++ ns) ≡ packets code ms ++ packets code ns
packets_append code [] ns = refl
packets_append code (m ∷ ms) ns =
    ap (λ x. code ∷ (m ++ x)) (packets_append code ms ns)
    ∙ ap (◌∷◌ code) (sym (append_assoc m (packets code ms) (packets code ns)))

-- The bytes that the publisher's session has read from its pipe and not stored.
abbrev pub in_hand : PubPlace → List ℕ
in_hand takes_next = []
in_hand updates_box = []
in_hand (stores_message message) = protocol_code_message_receive ∷ message
in_hand (left_with bytes) = bytes

-- It holds a whole message.
abbrev pub HoldsWhole : PubPlace → Type 0
HoldsWhole takes_next = Unit
HoldsWhole updates_box = Unit
HoldsWhole (stores_message message) = length message ≡ msg_max_len
HoldsWhole (left_with bytes) = Unit

-- A subscriber that sleeps, or is about to, has no message pending, unless the publisher is about to
-- wake it.
abbrev pub Waits : Place → PubPlace → List (List ℕ) → Type 0
Waits tests publisher pending = Unit
Waits dozing publisher pending = (pending ≡ []) ⊎ (publisher ≡ updates_box)
Waits asleep publisher pending = (pending ≡ []) ⊎ (publisher ≡ updates_box)
Waits checks publisher pending = Unit
Waits sends_message publisher pending = Unit
Waits reads_on publisher pending = Unit
Waits over publisher pending = Unit

-- The messages that the subscriber has read and not yet sent.
pub data Held (message : List ℕ) : Place → List (List ℕ) → Type 0 where
  testing : Held message tests []
  about_to_sleep : Held message dozing []
  sleeping : Held message asleep []
  checking : Held message checks (message ∷ [])
  sending : Held message sends_message (message ∷ [])
  reading_on : Held message reads_on []
  ended : (held : List (List ℕ)) → Held message over held

-- The file holds the messages that were there before the session of the publisher and the new ones.
-- Of these the subscriber was sent some, holds those of `held`, and others are pending.
pub record Sharing (box_i h g i q : ℕ) (old : List (List ℕ)) (c : Config)
    (held pending : List (List ℕ)) : Type 0 where
  pub new : List (List ℕ)
  pub delivered : List (List ℕ)
  pub in_order : old ++ new ≡ (delivered ++ held) ++ pending
  pub sized : AreMessages (old ++ new)
  pub shared :
      Shared c.files h g i q
        (concat (delivered ++ held) ++ concat pending)
        (length (concat (delivered ++ held)))
  pub box_taken : get_elem? c.broker.free_boxes box_i ≡ some taken
  pub from_pipe :
      c.came ≡ packets protocol_code_message_receive new ++ (in_hand c.publisher ++ c.input)
  pub sent : c.output ≡ packets protocol_code_message_send delivered
  pub holds : Held c.subscriber.message c.subscriber.place held
  pub array_size : length c.subscriber.message ≡ msg_max_len
  pub whole : HoldsWhole c.publisher
  pub waits : Waits c.subscriber.place c.publisher pending

abbrev pub Delivers : (box_i h g i q : ℕ) → List (List ℕ) → Config → Type 0
Delivers box_i h g i q old c =
    (held : List (List ℕ)) × ((pending : List (List ℕ)) × Sharing box_i h g i q old c held pending)

put_whole : (message m : List ℕ) → length message ≡ length m → put message 0 m ≡ m
put_whole [] [] e = refl
put_whole [] (x ∷ m) e = absurd (omega arith)
put_whole (y ∷ message) [] e = absurd (omega arith)
put_whole (y ∷ message) (x ∷ m) e = ap (◌∷◌ x) (put_whole message m (omega arith))

-- A pending message becomes one that is held.
take_pending :
    (ds : List (List ℕ)) (m : List ℕ) (ms : List (List ℕ))
    → (ds ++ []) ++ (m ∷ ms) ≡ (ds ++ (m ∷ [])) ++ ms
take_pending [] m ms = refl
take_pending (d ∷ ds) m ms = ap (◌∷◌ d) (take_pending ds m ms)

concat-take_pending :
    (ds : List (List ℕ)) (m ys : List ℕ)
    → concat (ds ++ []) ++ (m ++ ys) ≡ concat (ds ++ (m ∷ [])) ++ ys
concat-take_pending [] m ys = ap (λ xs. xs ++ ys) (sym (append_nil m))
concat-take_pending (d ∷ ds) m ys =
    append_assoc d (concat (ds ++ [])) (m ++ ys)
    ∙ ap (λ xs. d ++ xs) (concat-take_pending ds m ys)
    ∙ sym (append_assoc d (concat (ds ++ (m ∷ []))) ys)

length-take_pending :
    (ds : List (List ℕ)) (m : List ℕ)
    → length m ≡ msg_max_len
    → length (concat (ds ++ [])) + msg_max_len ≡ length (concat (ds ++ (m ∷ [])))
length-take_pending ds m size =
    let same = ap length (append_nil m) in
    rw (concat_append ds [], concat_append ds (m ∷ []))
      (omega (arith, length-append (concat ds) [], length-append (concat ds) (m ++ []), same, size))

-- Where a read has led to.
pub data Reads (box_i h g i q : ℕ) (old : List (List ℕ)) (c : Config) : SubStep → Type 0 where
  read_moves :
      {sub : Subscriber} {files : State}
      → Delivers box_i h g i q old (record c { files = files; subscriber = sub })
      → Reads box_i h g i q old c (moves sub files)

module _ {box_i h g i q : ℕ} {old : List (List ℕ)} (ne : h ≢ g) where
  pending-sized :
      {c : Config} {held pending : List (List ℕ)}
      → Sharing box_i h g i q old c held pending
      → AreMessages pending
  pending-sized {held = held} {pending} d =
      AreMessages-rest (d.delivered ++ held) pending (rw d.in_order at d.sized)

  read_outcome :
      {c : Config} {pending : List (List ℕ)} {r : Run (ℤ × List ℕ)} (full short : Place)
      → ((m : List ℕ) → Held m full (m ∷ []))
      → ((m : List ℕ) → Held m short [])
      → ((ms : List (List ℕ)) → Waits full c.publisher ms)
      → Waits short c.publisher []
      → (d : Sharing box_i h g i q old c [] pending)
      → ReadsNext h g i q
          (concat (d.delivered ++ []) ++ concat pending)
          (length (concat (d.delivered ++ [])))
          pending
          r
      → AreMessages pending
      → Reads box_i h g i q old c (after_message full short c.subscriber.message r)
  read_outcome {c} full short holds_full holds_short waits_full waits_short d
        (next_message {m = m} {ms} after) (size, p) =
      rw (put_whole c.subscriber.message m (d.array_size ∙ sym size)) (
        read_moves (
          m ∷ [],
          (
            ms,
            record {
              new = d.new;
              delivered = d.delivered;
              in_order = d.in_order ∙ take_pending d.delivered m ms;
              sized = d.sized;
              shared =
                  rw
                    (
                      concat-take_pending d.delivered m (concat ms),
                      length-take_pending d.delivered m size,
                    )
                    at after;
              box_taken = d.box_taken;
              from_pipe = d.from_pipe;
              sent = d.sent;
              holds = holds_full m;
              array_size = size;
              whole = d.whole;
              waits = waits_full ms;
            },
          ),
        ))
  read_outcome {c} full short holds_full holds_short waits_full waits_short d (no_message after) p =
      read_moves (
        [],
        (
          [],
          record {
            new = d.new;
            delivered = d.delivered;
            in_order = d.in_order;
            sized = d.sized;
            shared = after;
            box_taken = d.box_taken;
            from_pipe = d.from_pipe;
            sent = d.sent;
            holds = holds_short (put c.subscriber.message 0 []);
            array_size = length-put c.subscriber.message 0 [] ∙ d.array_size;
            whole = d.whole;
            waits = waits_short;
          },
        ),
      )

  pub read_on :
      {c : Config} {pending : List (List ℕ)} (full short : Place)
      → ((m : List ℕ) → Held m full (m ∷ []))
      → ((m : List ℕ) → Held m short [])
      → ((ms : List (List ℕ)) → Waits full c.publisher ms)
      → Waits short c.publisher []
      → Sharing box_i h g i q old c [] pending
      → Reads box_i h g i q old c (
          after_message full short c.subscriber.message (tfs_read (pos g) true msg_max_len c.files))
  read_on {c} {pending} full short holds_full holds_short waits_full waits_short d =
      let sized = pending-sized d in
      read_outcome full short holds_full holds_short waits_full waits_short d
        (tfs_read-ReadsNext (concat (d.delivered ++ [])) pending ne sized d.shared) sized

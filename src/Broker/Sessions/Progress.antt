-- ===== src/Broker/Sessions/Progress.antt =====
-- mbroker/mbroker.c, `workers_handle_sub_register`: no message is left behind for a subscriber that
-- sleeps.

use tecnico_fs_so.Prelude.{
  refl, List, [], ap, append_nil, sym, ℕ, ◌++◌, ◌∙◌, ◌≡◌, ◌≢◌, ◌⊎◌, inl, inr,
}
use tecnico_fs_so.Broker.Sessions.Steps.{Config, Reach}
use tecnico_fs_so.Broker.Sessions.Subscriber.{Place, asleep}
use tecnico_fs_so.Broker.Sessions.Delivery.{
  Held, Sharing, packets, ended, testing, sleeping, checking, sending, about_to_sleep, in_hand,
  reading_on,
}
use tecnico_fs_so.Broker.Sessions.InOrder.{Starts, Starts-Delivers}
use tecnico_fs_so.Broker.Sessions.{
  protocol_code_message_receive, protocol_code_message_send, updates_box,
}
use tecnico_fs_so.Broker.Sessions.Invariant.{Reach-Delivers}

-- All the messages of the box, the old ones and those that were taken from the publisher's pipe and
-- stored, have been written to the subscriber's pipe.
pub record AllSent (old : List (List ℕ)) (c : Config) : Type 0 where
  pub new : List (List ℕ)
  pub taken_from_pipe :
      c.came ≡ packets protocol_code_message_receive new ++ (in_hand c.publisher ++ c.input)
  pub sent : c.output ≡ packets protocol_code_message_send (old ++ new)

asleep-Held :
    {message : List ℕ} {held : List (List ℕ)} {place : Place}
    → Held message place held
    → place ≡ asleep
    → held ≡ []
asleep-Held testing e = refl
asleep-Held about_to_sleep e = refl
asleep-Held sleeping e = refl
asleep-Held checking e = absurd (cc)
asleep-Held sending e = absurd (cc)
asleep-Held reading_on e = refl
asleep-Held (ended held) e = absurd (cc)

none_left-AllSent :
    {box_i h g i q : ℕ} {old : List (List ℕ)} {c : Config}
    → Sharing box_i h g i q old c [] []
    → AllSent old c
none_left-AllSent d =
    let all = d.in_order ∙ append_nil (d.delivered ++ []) ∙ append_nil d.delivered in
    record {
      new = d.new;
      taken_from_pipe = d.from_pipe;
      sent = d.sent ∙ ap (packets protocol_code_message_send) (sym all);
    }

asleep-AllSent :
    {box_i h g i q : ℕ} {old : List (List ℕ)} {c : Config} {pending : List (List ℕ)}
    → Sharing box_i h g i q old c [] pending
    → (pending ≡ []) ⊎ (c.publisher ≡ updates_box)
    → AllSent old c ⊎ (c.publisher ≡ updates_box)
asleep-AllSent d (inl none_left) = inl (none_left-AllSent (rw none_left at d))
asleep-AllSent d (inr at) = inr at

-- A publisher's and a subscriber's session are open on one box through two different handles, the
-- publisher's behind the messages in the file and the subscriber's at its start. Whenever, after any
-- steps of both, the subscriber's session sleeps in `cond_wait`, either all messages of the box,
-- those that were there and those that the publisher's session has taken from its pipe and stored,
-- have been written to the subscriber's pipe, or the publisher's session has stored a message and
-- has not yet sent the broadcast that wakes the subscriber. The box is not removed meanwhile.
pub Reach-AllSent :
    {box_i h g i q : ℕ} {old : List (List ℕ)} {c d : Config}
    → h ≢ g
    → Starts box_i h g i q old c
    → Reach box_i h g c d
    → d.subscriber.place ≡ asleep
    → AllSent old d ⊎ (d.publisher ≡ updates_box)
Reach-AllSent {d = d} ne s r p =
    let (held, (pending, x)) = Reach-Delivers ne (Starts-Delivers s) r in
    let none_held : held ≡ [] = asleep-Held x.holds p in
    asleep-AllSent (rw none_held at x) (rw p at x.waits)

-- ===== src/Clients/Relay.antt =====
-- publisher/pub.c, mbroker/mbroker.c and subscriber/sub.c: from the lines that a publisher's client
-- reads to the lines that a subscriber's client prints.

use tecnico_fs_so.Prelude.{
  refl, List, [], ap, append_assoc, arith, length, pos, sym, ℕ, ◌++◌, ◌+◌, ◌∙◌, ◌∷◌, ◌≡◌, ◌≢◌,
}
use tecnico_fs_so.Clients.Lines.{
  AreLines, arrays, subscriber_read_messages-typed, typed, publisher_write_messages-typed,
}
use tecnico_fs_so.Broker.Sessions.Reads.{AreMessages}
use tecnico_fs_so.Broker.Sessions.Steps.{Config, Reach}
use tecnico_fs_so.Clients.{subscriber_read_messages, prints, publisher_write_messages, returns}
use tecnico_fs_so.Broker.Sessions.InOrder.{IsInOrder, Starts, Reach-IsInOrder}
use tecnico_fs_so.Broker.Sessions.Delivery.{packets, in_hand}
use tecnico_fs_so.Protocol.Layout.{padded}
use tecnico_fs_so.Protocol.Messages.{msg_max_len}
use tecnico_fs_so.Broker.Sessions.{protocol_code_message_receive, protocol_code_message_send}
use tecnico_fs_so.Protocol.RoundTrip.{length-padded}

append-inj :
    (xs ys us vs : List ℕ) → length xs ≡ length us → xs ++ ys ≡ us ++ vs → (xs ≡ us) × (ys ≡ vs)
append-inj [] ys [] vs n e = (refl, e)
append-inj [] ys (u ∷ us) vs n e = absurd (omega arith)
append-inj (x ∷ xs) ys [] vs n e = absurd (omega arith)
append-inj (x ∷ xs) ys (u ∷ us) vs n e =
    let heads : x ≡ u = ground arith in
    let tails : xs ++ ys ≡ us ++ vs = ground arith in
    let (same, rest) = append-inj xs ys us vs (omega arith) tails in
    (ap (λ z. z ∷ xs) heads ∙ ap (◌∷◌ u) same, rest)

-- The first lines of `ls`, which these arrays carry.
abbrev Front : List (List ℕ) → List (List ℕ) → Type 0
Front arrays_of ls =
    (front : List (List ℕ)) × ((back : List (List ℕ)) × (front ++ back ≡ ls)
      × (arrays_of ≡ arrays front))

taken-Front :
    (code : ℕ) (new : List (List ℕ)) (input : List ℕ) (ls : List (List ℕ))
    → AreMessages new
    → AreLines ls
    → packets code new ++ input ≡ packets code (arrays ls)
    → Front new ls
taken-Front code [] input ls p q e = ([], (ls, refl, refl))
taken-Front code (m ∷ new) input [] p q e = absurd (ground arith)
taken-Front code (m ∷ new) input (l ∷ ls) (size, p) (line, short, q) e =
    let e' : (m ++ packets code new) ++ input ≡ padded msg_max_len l ++ packets code (arrays ls) =
      ground arith in
    let full = length-padded msg_max_len l (omega arith) in
    let (same, rest) =
      append-inj m (packets code new ++ input) (padded msg_max_len l) (packets code (arrays ls))
        (size ∙ sym full) (sym (append_assoc m (packets code new) input) ∙ e') in
    let (front, (back, whole, arr)) = taken-Front code new input ls p q rest in
    (
      l ∷ front,
      (back, ap (◌∷◌ l) whole, ap (λ x. x ∷ new) same ∙ ap (◌∷◌ (padded msg_max_len l)) arr),
    )

delivered-Front : (ds rest ls : List (List ℕ)) → ds ++ rest ≡ arrays ls → Front ds ls
delivered-Front [] rest ls e = ([], (ls, refl, refl))
delivered-Front (d ∷ ds) rest [] e = absurd (ground arith)
delivered-Front (d ∷ ds) rest (l ∷ ls) e =
    let head : d ≡ padded msg_max_len l = ground arith in
    let tail : ds ++ rest ≡ arrays ls = ground arith in
    let (front, (back, whole, arr)) = delivered-Front ds rest ls tail in
    (
      l ∷ front,
      (back, ap (◌∷◌ l) whole, ap (λ x. x ∷ ds) head ∙ ap (◌∷◌ (padded msg_max_len l)) arr),
    )

AreLines-front : (front back : List (List ℕ)) → AreLines (front ++ back) → AreLines front
AreLines-front [] back p = tt
AreLines-front (l ∷ front) back (line, short, p) = (line, short, AreLines-front front back p)

-- The lines that a subscriber's client prints are the first ones of those that were typed.
abbrev pub PrintsFront : List (List ℕ) → List ℕ → Type 0
PrintsFront ls output =
    (front : List (List ℕ)) × ((back : List (List ℕ)) × (front ++ back ≡ ls)
      × (subscriber_read_messages output ≡ prints front (length front)))

IsInOrder-PrintsFront :
    {d : Config} (ls : List (List ℕ))
    → AreLines ls
    → IsInOrder [] d
    → d.came ≡ packets protocol_code_message_receive (arrays ls)
    → PrintsFront ls d.output
IsInOrder-PrintsFront {d} ls p o e =
    let code : ℕ = protocol_code_message_receive in
    let (some_lines, (left, whole, arr)) =
      taken-Front code o.new (in_hand d.publisher ++ d.input) ls o.sized p
        (sym o.taken_from_pipe ∙ e) in
    let (front, (back, part, sent)) =
      delivered-Front o.delivered o.rest some_lines (sym o.in_order ∙ arr) in
    let split : front ++ (back ++ left) ≡ ls =
      sym (append_assoc front back left) ∙ ap (λ xs. xs ++ left) part ∙ whole in
    let lines : AreLines (front ++ (back ++ left)) = rw split p in
    let out : d.output ≡ packets protocol_code_message_send (arrays front) =
      o.sent ∙ ap (packets protocol_code_message_send) sent in
    (
      front,
      (
        back ++ left,
        split,
        ap subscriber_read_messages out
            ∙ subscriber_read_messages-typed front (AreLines-front front (back ++ left) lines),
      ),
    )

-- Lines are typed to a publisher's client, each of less than 1023 characters without NUL, newline or
-- a byte 255, and its pipe takes a packet for each. What it writes comes to the broker, which holds
-- the box's sessions of this publisher and of one subscriber, through two different handles, and the
-- file of the box is empty at first. Then at any time, whatever the order of the steps, a
-- subscriber's client that gets what was written to the subscriber's pipe prints the first ones of
-- the lines, in their order, none of them changed, and their number.
pub relayed-PrintsFront :
    {box_i h g i q : ℕ} {c d : Config} (k : ℕ) (ls : List (List ℕ))
    → AreLines ls
    → h ≢ g
    → Starts box_i h g i q [] c
    → Reach box_i h g c d
    → publisher_write_messages (length ls + k) (typed ls) ≡ returns d.came (pos 0)
    → PrintsFront ls d.output
relayed-PrintsFront {d = d} k ls p ne s r e =
    let same = sym e ∙ publisher_write_messages-typed k ls p in
    let bytes : d.came ≡ packets protocol_code_message_receive (arrays ls) = cc in
    IsInOrder-PrintsFront ls p (Reach-IsInOrder ne s r) bytes

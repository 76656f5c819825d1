-- ===== src/Broker/Listing/Answers.antt =====
-- mbroker/mbroker.c: the packets of a listing, and that there is one for each box in use.
use tecnico_fs_so.Prelude.{
  ℕ, List, [], ap, append_assoc, append_nil, arith, drop, false, length, length-append, length-drop,
  length-take, lt→ltb, pos, true, ◌++◌, ◌+◌, ◌-◌, ◌<◌, ◌∙◌, ◌∷◌, ◌≡◌,
}
use tecnico_fs_so.Broker.Types.{Box}
use tecnico_fs_so.Protocol.{Filling, Packet, box_name_max_len, ready, fill_then, packet_write}
use tecnico_fs_so.Broker.Listing.{list_packet, protocol_code_list_answer, shown_name, write_box}
use tecnico_fs_so.Protocol.Layout.{zeros, packet_write-zeros}
use tecnico_fs_so.Protocol.Words.{le_bytes, length-le_bytes}

-- The packet for a box.
abbrev pub answer : ℕ → Box → List ℕ
answer last box =
    protocol_code_list_answer ∷ last ∷ shown_name box
    ++ (le_bytes 8 box.size ++ (le_bytes 8 box.n_publishers ++ le_bytes 8 box.n_subscribers))

-- The packets for boxes, of which there is one at least: the last is marked.
abbrev pub answers_of : List Box → List (List ℕ)
answers_of [] = []
answers_of (box ∷ []) = answer 1 box ∷ []
answers_of (box ∷ next_box ∷ boxes) = answer 0 box ∷ answers_of (next_box ∷ boxes)

-- The packets of a listing: without boxes it is one marked packet that is empty.
abbrev pub answers : List Box → List (List ℕ)
answers [] = (protocol_code_list_answer ∷ 1 ∷ zeros 56) ∷ []
answers (box ∷ boxes) = answers_of (box ∷ boxes)

pub fill_step :
    (xs ys : List ℕ) (n m : ℕ) (rest : Filling → Packet)
    → n ≡ length ys + m
    → fill_then
        (packet_write (record { packet = xs ++ zeros n; packet_offset = length xs }) ys)
        rest
      ≡ rest (record { packet = (xs ++ ys) ++ zeros m; packet_offset = length (xs ++ ys) })
fill_step xs ys n m rest e =
    let left : n - length ys ≡ m = omega arith in
    ap (λ o. fill_then o rest) (packet_write-zeros xs ys n (omega arith))
    ∙ ap (λ k. rest (record { packet = (xs ++ ys) ++ zeros k; packet_offset = length (xs ++ ys) }))
        left

pub length-shown_name :
    (box : Box) → length box.name ≡ box_name_max_len → length (shown_name box) ≡ box_name_max_len
length-shown_name box e = omega (
  arith,
  length-take 32 (drop 1 (box.name ++ le_bytes 8 box.size)),
  length-drop 1 (box.name ++ le_bytes 8 box.size),
  length-append box.name (le_bytes 8 box.size),
  length-le_bytes 8 box.size,
)

write_box-answer :
    (last : ℕ) (box : Box)
    → length box.name ≡ box_name_max_len
    → write_box true box (record { packet = (8 ∷ last ∷ []) ++ zeros 56; packet_offset = 2 })
      ≡ ready (answer last box)
write_box-answer last box e =
    let head : List ℕ = 8 ∷ last ∷ [] in
    let size = le_bytes 8 box.size in
    let publishers = le_bytes 8 box.n_publishers in
    let subscribers = le_bytes 8 box.n_subscribers in
    let last_step : Filling → Packet = λ f. ready f.packet in
    let third : Filling → Packet = λ f. fill_then (packet_write f subscribers) last_step in
    let second : Filling → Packet = λ f. fill_then (packet_write f publishers) third in
    let first : Filling → Packet = λ f. fill_then (packet_write f size) second in
    fill_step head (shown_name box) 56 24 first (omega (arith, length-shown_name box e))
    ∙ fill_step (head ++ shown_name box) size 24 16 second
        (omega (arith, length-le_bytes 8 box.size))
    ∙ fill_step ((head ++ shown_name box) ++ size) publishers 16 8 third
        (omega (arith, length-le_bytes 8 box.n_publishers))
    ∙ fill_step (((head ++ shown_name box) ++ size) ++ publishers) subscribers 8 0 last_step
        (omega (arith, length-le_bytes 8 box.n_subscribers))
    ∙ ap ready (simp (append_assoc, append_nil))

two_bytes :
    (last : ℕ) (rest : Filling → Packet)
    → fill_then
        (packet_write (record { packet = zeros 58; packet_offset = 0 }) (8 ∷ []))
        (λ f. fill_then (packet_write f (last ∷ [])) rest)
      ≡ rest (record { packet = (8 ∷ last ∷ []) ++ zeros 56; packet_offset = 2 })
two_bytes last rest =
    fill_step [] (8 ∷ []) 58 57 (λ f. fill_then (packet_write f (last ∷ [])) rest) (omega arith)
    ∙ fill_step (8 ∷ []) (last ∷ []) 57 56 rest (omega arith)

pub list_packet-answer :
    (last m : ℕ) (box : Box)
    → 0 < m
    → length box.name ≡ box_name_max_len
    → list_packet last (pos m) box ≡ ready (answer last box)
unfolding list_packet
list_packet-answer last m box p e =
    rw (lt→ltb 0 m p) (two_bytes last (write_box true box) ∙ write_box-answer last box e)

pub list_packet-empty :
    (box : Box) → list_packet 1 (pos 0) box ≡ ready (protocol_code_list_answer ∷ 1 ∷ zeros 56)
unfolding list_packet
list_packet-empty box = two_bytes 1 (write_box false box)

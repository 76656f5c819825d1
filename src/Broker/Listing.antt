-- ===== src/Broker/Listing.antt =====
-- mbroker/mbroker.c: `workers_handle_manager_listing`.
pub mod Answers
pub mod Loop
use tecnico_fs_so.Prelude.{
  ℕ, Bool, List, [], drop, false, if◌then◌else◌, int_eq, leb, ltb, minus_one, negsuc, pos,
  replicate, suc, take, true, zero, ℤ, ◌&&◌, ◌++◌, ◌+◌, ◌||◌, ◌∷◌,
}
use tecnico_fs_so.Fs.Types.{AllocationState}
use tecnico_fs_so.Broker.Types.{Box, Broker}
use tecnico_fs_so.Protocol.{
  too_long, overrun, ready, Filling, Packet, box_name_max_len, fill_then, packet_write,
}
use tecnico_fs_so.Fs.Tables.{is_free}
use tecnico_fs_so.Protocol.Words.{le_bytes}

abbrev pub protocol_code_list_answer : ℕ
protocol_code_list_answer = 8

-- code | last | box_name | box_size | n_publishers | n_subscribers
abbrev pub list_packet_len : ℕ
list_packet_len = 58

-- The 32 bytes from `box.name + 1` on: in `box_t` the size follows the name.
abbrev pub shown_name : Box → List ℕ
shown_name box = take box_name_max_len (drop 1 (box.name ++ le_bytes 8 box.size))

-- `n > 0` on an `int`, and `k <= n` for a counter that starts at 0.
abbrev pub positive : ℤ → Bool
positive (pos n) = ltb 0 n
positive (negsuc n) = false

abbrev pub at_most : ℕ → ℤ → Bool
at_most k (pos n) = leb k n
at_most k (negsuc n) = false

-- What follows the code and the flag in a packet, if there is a box.
abbrev pub write_box : Bool → Box → Filling → Packet
write_box false box f = ready f.packet
write_box true box f = fill_then (packet_write f (shown_name box)) (λ f.
    fill_then (packet_write f (le_bytes 8 box.size)) (λ f.
      fill_then (packet_write f (le_bytes 8 box.n_publishers))
        (λ f. fill_then (packet_write f (le_bytes 8 box.n_subscribers)) (λ f. ready f.packet))))

unfoldable pub list_packet : ℕ → ℤ → Box → Packet
list_packet last n_boxes box =
    fill_then
      (packet_write (record { packet = replicate list_packet_len 0; packet_offset = 0 })
        (protocol_code_list_answer ∷ []))
      (λ f. fill_then (packet_write f (last ∷ [])) (write_box (positive n_boxes) box))

-- What one round of the loop does: it ends the loop, passes over the entry, or sends it with a flag.
pub data Round : Type 0 where
  stop skip : Round
  send : ℕ → Round

unfoldable pub round : ℤ → ℕ → ℕ → AllocationState → Round
round n_boxes n_boxes_listed last state =
    if at_most n_boxes_listed n_boxes
    then (if positive n_boxes && is_free state
        then skip
        else send (
            if int_eq n_boxes (pos 0) || int_eq (pos (n_boxes_listed + 1)) n_boxes
            then 1
            else last))
    else stop

-- The result of the handler, and the packets that it wrote; or an access out of range.
pub data Sent : Type 0 where
  sends : ℤ → List (List ℕ) → Sent
  bad_access : Sent

abbrev pub prepend : List ℕ → Sent → Sent
prepend p (sends r ps) = sends r (p ∷ ps)
prepend p bad_access = bad_access

-- The loop over the last `n` entries; `pipe_ok k` says whether the write of packet `k` succeeds.
unfoldable pub list_loop : (ℕ → Bool) → ℕ → List AllocationState → List Box → ℤ → ℕ → ℕ → Sent
list_loop pipe_ok zero states boxes n_boxes n_boxes_listed last = sends (pos 0) []
list_loop pipe_ok (suc n) [] boxes n_boxes n_boxes_listed last = bad_access
list_loop pipe_ok (suc n) (state ∷ states) [] n_boxes n_boxes_listed last = bad_access
list_loop pipe_ok (suc n) (state ∷ states) (box ∷ boxes) n_boxes n_boxes_listed last =
    elim (round n_boxes n_boxes_listed last state) [
      | stop ↦ sends (pos 0) []
      | skip ↦ list_loop pipe_ok n states boxes n_boxes n_boxes_listed last
      | send flag ↦ elim (list_packet flag n_boxes box) [
        | too_long ↦ bad_access
        | overrun ↦ bad_access
        | ready p ↦ elim (pipe_ok n_boxes_listed) [
          | false ↦ sends minus_one []
          | true ↦ prepend p (list_loop pipe_ok n states boxes n_boxes (n_boxes_listed + 1) flag)
        ]
      ]
    ]

-- `opens` says whether the client's pipe can be opened. The packet is below any system's PIPE_BUF.
unfoldable pub workers_handle_manager_listing : Bool → (ℕ → Bool) → Broker → Sent
workers_handle_manager_listing opens pipe_ok br =
    if opens
    then list_loop pipe_ok br.slots br.free_boxes br.boxes_table br.n_boxes 0 0
    else sends minus_one []

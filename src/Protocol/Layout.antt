-- ===== src/Protocol/Layout.antt =====
-- protocol/protocol.c: the bytes of a request, and that the broker reads back what was asked.
use tecnico_fs_so.Prelude.{
  ℕ, refl, List, [], ap, append_assoc, arith, length, length-append, length-replicate, le→leb,
  overwrite, put, replicate, some, suc, zero, ◌%◌, ◌++◌, ◌+◌, ◌-◌, ◌∷◌, ◌≡◌, ◌≤◌, take, ◌∙◌,
  le→ltb_false, take_all,
}
use tecnico_fs_so.Protocol.{
  packet_write, request_packet, packet_len, client_named_pipe_max_len, box_name_max_len, ready,
  Filling, fill_then, write_box_name,
}

abbrev pub zeros : ℕ → List ℕ
zeros n = replicate n 0

-- A string in an array of `n` bytes, the rest of which is 0.
abbrev pub padded : ℕ → List ℕ → List ℕ
padded n name = name ++ zeros (n - length name)

overwrite-zeros : (n : ℕ) (ys : List ℕ) → length ys ≤ n → overwrite (zeros n) ys ≡ padded n ys
overwrite-zeros zero [] h = refl
overwrite-zeros (suc n) [] h = let same : suc n ≡ suc n - 0 = omega arith in ap (λ k. zeros k) same
overwrite-zeros zero (y ∷ ys) h = absurd (omega arith)
overwrite-zeros (suc n) (y ∷ ys) h =
    let same : n - length ys ≡ suc n - suc (length ys) = omega arith in
    ap (◌∷◌ y) (overwrite-zeros n ys (omega arith)) ∙ ap (λ k. y ∷ ys ++ zeros k) same

put-zeros :
    (xs ys : List ℕ) (n : ℕ)
    → length ys ≤ n
    → put (xs ++ zeros n) (length xs) ys ≡ xs ++ padded n ys
put-zeros [] ys n h = overwrite-zeros n ys h
put-zeros (x ∷ xs) ys n h = ap (◌∷◌ x) (put-zeros xs ys n h)

-- A step of filling a packet behind what is already there.
pub packet_write-zeros :
    (xs ys : List ℕ) (n : ℕ)
    → length ys ≤ n
    → packet_write (record { packet = xs ++ zeros n; packet_offset = length xs }) ys
      ≡ some (record {
        packet = (xs ++ ys) ++ zeros (n - length ys);
        packet_offset = length (xs ++ ys);
      })
unfolding packet_write
packet_write-zeros xs ys n h =
    rw
      (
        le→leb (length xs + length ys) (length (xs ++ zeros n))
            (omega (arith, length-append xs (zeros n), length-replicate n (let z : ℕ = 0 in z))),
        put-zeros xs ys n h,
        append_assoc xs ys (zeros (n - length ys)),
        length-append xs ys,
      )
      refl

-- The packet of a request for a box consists of the code, the 256 bytes of the session pipe's name
-- and the box name, filled up with zeros to 32 bytes, for a box name of at most 32 bytes and a
-- limit for packets that is not below their length.
pub request_packet-layout :
    (pipe_buf code : ℕ) (session name : List ℕ)
    → packet_len (some name) ≤ pipe_buf
    → length session ≡ client_named_pipe_max_len
    → length name ≤ box_name_max_len
    → request_packet pipe_buf code session (some name)
      ≡ ready (code % 256 ∷ session ++ padded box_name_max_len name)
unfolding request_packet
request_packet-layout pipe_buf code session name limit full short =
    let head : List ℕ = code % 256 ∷ [] in
    let first = packet_write-zeros [] head 289 (omega arith) in
    let second = packet_write-zeros head session 288 (omega arith) in
    let third = packet_write-zeros (head ++ session) name 32 short in
    let left : 288 - length session ≡ 32 = omega (arith, full) in
    let begun : Filling = record { packet = head ++ zeros 288; packet_offset = length head } in
    let after : ℕ → Filling = λ k. record {
      packet = (head ++ session) ++ zeros k;
      packet_offset = length (head ++ session);
    } in
    rw (le→ltb_false pipe_buf 289 limit) (
      ap
        (λ o.
          fill_then o
            (λ f. fill_then (packet_write f (take 256 session)) (write_box_name (some name))))
        first
      ∙ ap (λ bs. fill_then (packet_write begun bs) (write_box_name (some name)))
          (take_all session 256 (omega (arith, full)))
      ∙ ap (λ o. fill_then o (write_box_name (some name))) (second ∙ ap (λ k. some (after k)) left)
      ∙ ap (λ o. fill_then o (λ g. ready g.packet)) third
      ∙ ap ready (append_assoc (head ++ session) name (zeros (32 - length name))))

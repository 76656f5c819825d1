-- ===== src/Manager/Listing/Ends.antt =====
-- manager/manager.c, `manager_handle_box_listing`: the loop ends.
use tecnico_fs_so.Prelude.{
  ℕ, Bool-cases, List, Option, [], arith, bytes_eq, drop, inl, inr, leb, length, length-drop, none,
  some, suc, take, zero, ℤ, ◌+◌, ◌<◌, ◌∷◌, ◌≢◌, ◌≤◌, refl, map, minus_one, negsuc, pos, true, ◌==◌,
  ◌≡◌,
}
use tecnico_fs_so.Manager.Listing.{
  failed, bad_access, shows, Answer, read_answer, receive_boxes, with_read, out_of_fuel, Listing,
  manager_handle_box_listing, after_insert, after_read, no_end, output_of, is_empty_answer, prints,
  line_of, crashes,
}
use tecnico_fs_so.Protocol.{pipe_read}
use tecnico_fs_so.Broker.Types.{Box, incr}
use tecnico_fs_so.Broker.Listing.{protocol_code_list_answer}
use tecnico_fs_so.Manager.Insert.{sorted_insert}

-- The rest of an answer is shorter than these bytes.
abbrev Shorter : List ℕ → Option Answer → Type 0
Shorter bytes none = Unit {0}
Shorter bytes (some a) = length a.rest < length bytes

le_of_leb : (a b : ℕ) → leb a b ≡ true → a ≤ b
le_of_leb a b h = ground arith

-- A read leaves what is not longer, and is shorter after a read of a byte at least.
with_read-Shorter :
    (n : ℕ) (whole bytes : List ℕ) (go : List ℕ → List ℕ → Option Answer)
    → ((read rest : List ℕ) → length rest + n ≤ length bytes → Shorter whole (go read rest))
    → Shorter whole (with_read (pipe_read n bytes) go)
unfolding pipe_read
with_read-Shorter n whole bytes go h = elim (Bool-cases (leb n (length bytes))) [
  | inl e ↦ rw e (
      h (take n bytes) (drop n bytes)
        (omega (arith, le_of_leb n (length bytes) e, length-drop n bytes)))
  | inr e ↦ rw e tt
]

read_answer-Shorter : (bytes : List ℕ) → Shorter bytes (read_answer bytes)
unfolding read_answer
read_answer-Shorter bytes = with_read-Shorter 1 bytes bytes _ (λ code r0 h0.
    elim (Bool-cases (bytes_eq code (protocol_code_list_answer ∷ []))) [
      | inr e ↦ rw e tt
      | inl e ↦ rw e (
          with_read-Shorter 1 bytes r0 _ (λ last r1 h1.
            with_read-Shorter 32 bytes r1 _ (λ name r2 h2.
              with_read-Shorter 8 bytes r2 _ (λ size r3 h3.
                with_read-Shorter 8 bytes r3 _ (λ publishers r4 h4.
                  with_read-Shorter 8 bytes r4 _ (λ subscribers r5 h5. omega arith))))))
    ])

after_insert-ends :
    (next_round : List ℕ → List Box → ℤ → Listing) (a : Answer) (size : ℤ) (o : Option (List Box))
    → ((boxes : List Box) (size : ℤ) → next_round a.rest boxes size ≢ out_of_fuel)
    → after_insert next_round a size o ≢ out_of_fuel
after_insert-ends next_round a size none h e = cc
after_insert-ends next_round a size (some boxes) h e = elim (Bool-cases (a.last == 0)) [
  | inl more ↦ h boxes (incr size) (rw (more, after_insert) at e)
  | inr done ↦
      let shown : shows boxes (incr size) ≡ out_of_fuel = rw (done, after_insert) at e in cc
]

after_read-ends :
    (next_round : List ℕ → List Box → ℤ → Listing) (boxes : List Box) (size : ℤ) (bytes : List ℕ)
    (o : Option Answer)
    → Shorter bytes o
    → ((rest : List ℕ) (boxes : List Box) (size : ℤ)
        → length rest < length bytes
        → next_round rest boxes size ≢ out_of_fuel)
    → after_read next_round boxes size o ≢ out_of_fuel
after_read-ends next_round boxes size bytes none s h e = cc
after_read-ends next_round boxes size bytes (some a) s h e = elim (Bool-cases (is_empty_answer a)) [
  | inl stops ↦ let shown : shows boxes size ≡ out_of_fuel = rw stops at e in cc
  | inr goes ↦
      after_insert-ends next_round a size (sorted_insert boxes size a.box)
        (λ boxes size. h a.rest boxes size s) (rw goes at e)
]

receive_boxes-ends :
    (fuel : ℕ) (bytes : List ℕ) (boxes : List Box) (size : ℤ)
    → length bytes < fuel
    → receive_boxes fuel bytes boxes size ≢ out_of_fuel
unfolding receive_boxes
receive_boxes-ends zero bytes boxes size h = absurd (omega arith)
receive_boxes-ends (suc fuel) bytes boxes size h =
    after_read-ends (receive_boxes fuel) boxes size bytes (read_answer bytes)
      (read_answer-Shorter bytes)
      (λ rest boxes size lt. receive_boxes-ends fuel rest boxes size (omega arith))

output_of-ends : (l : Listing) → l ≢ out_of_fuel → output_of l ≢ no_end
output_of-ends failed h e = cc
output_of-ends bad_access h e = cc
output_of-ends out_of_fuel h e = h refl
output_of-ends (shows boxes (negsuc n)) h e = cc
output_of-ends (shows boxes (pos n)) h e = elim (Bool-cases (leb (n + 1) (length boxes))) [
  | inl fits ↦ let lines : prints (map line_of (take (n + 1) boxes)) ≡ no_end = rw fits at e in cc
  | inr over ↦ let crash : crashes ≡ no_end = rw over at e in cc
]

-- Whatever comes through the session pipe, the loop of the listing ends: the fuel, which is one more
-- than the number of bytes, is never used up.
pub manager_handle_box_listing-ends :
    (boxes : List Box) (bytes : List ℕ) → manager_handle_box_listing boxes bytes ≢ no_end
unfolding manager_handle_box_listing
manager_handle_box_listing-ends boxes bytes =
    output_of-ends (receive_boxes (length bytes + 1) bytes boxes minus_one)
      (receive_boxes-ends (length bytes + 1) bytes boxes minus_one (omega arith))

-- ===== src/Manager/Listing/Receive.antt =====
-- manager/manager.c, `manager_handle_box_listing`: the packets of a broker's listing are shown sorted.
use tecnico_fs_so.Prelude.{
  ℕ, refl, List, [], ap, arith, bytes_eq, length, some, ◌++◌, ◌∙◌, ◌∷◌, ◌≡◌, append_assoc, drop,
  false, pos, suc, sym, take, zero, ◌+◌, ◌-◌, ◌<◌, ◌==◌, if◌then◌else◌, concat,
}
use tecnico_fs_so.Broker.Types.{Box, incr}
use tecnico_fs_so.Broker.Table.Laws.{IsBox, AllBoxes}
use tecnico_fs_so.Broker.Listing.{shown_name, protocol_code_list_answer}
use tecnico_fs_so.Protocol.Words.{le_bytes, length-le_bytes, read_le, read_le-le_bytes}
use tecnico_fs_so.Broker.Listing.Answers.{length-shown_name, answer, answers_of}
use tecnico_fs_so.Manager.Listing.{
  read_answer, Line, is_empty_answer, line_of, receive_boxes, starts_empty, after_insert, Answer,
  after_read, shows,
}
use tecnico_fs_so.Protocol.RoundTrip.{length-padded, pipe_read-append, c_string-padded}
use tecnico_fs_so.Fs.Entries.Names.{IsCString}
use tecnico_fs_so.Fs.Entries.{c_string}
use tecnico_fs_so.Manager.Insert.{insert_right, sorted_insert}
use tecnico_fs_so.Manager.Place.{last_of, sorted_insert-insert_right}
use tecnico_fs_so.Protocol.Layout.{padded, zeros}
use tecnico_fs_so.Fs.Entries.WellFormed.{and_false}

-- A box as the manager reads it.
abbrev pub shown : Box → Box
shown box = record box { name = shown_name box }

read_le-one : (x : ℕ) → read_le (x ∷ []) ≡ x
unfolding read_le
read_le-one x = omega arith

module _ (box : Box) (b : IsBox box) (last : ℕ) (rest : List ℕ) where
  abbrev after_pubs : List ℕ
  after_pubs = le_bytes 8 box.n_subscribers ++ rest

  abbrev after_size : List ℕ
  after_size = le_bytes 8 box.n_publishers ++ after_pubs

  abbrev after_name : List ℕ
  after_name = le_bytes 8 box.size ++ after_size

  abbrev after_last : List ℕ
  after_last = shown_name box ++ after_name

  full_name : length (shown_name box) ≡ 32
  full_name =
      length-shown_name box
        (ap length b.name_array ∙ length-padded 32 b.content (omega (arith, b.short)))

  -- The manager reads back the packet of a box.
  pub read_answer-answer :
      read_answer (protocol_code_list_answer ∷ last ∷ after_last)
      ≡ some (record { last = last; box = shown box; rest = rest })
  unfolding read_answer bytes_eq
  read_answer-answer = rw (pipe_read-append 1 (8 ∷ []) (last ∷ after_last) refl) (
      rw (pipe_read-append 1 (last ∷ []) after_last refl) (
        rw (pipe_read-append 32 (shown_name box) after_name full_name) (
          rw (pipe_read-append 8 (le_bytes 8 box.size) after_size (length-le_bytes 8 box.size)) (
            rw
              (pipe_read-append 8 (le_bytes 8 box.n_publishers) after_pubs
                (length-le_bytes 8 box.n_publishers))
              (rw
                (pipe_read-append 8 (le_bytes 8 box.n_subscribers) rest
                  (length-le_bytes 8 box.n_subscribers))
                (cc (
                  read_le-one last,
                  read_le-le_bytes 8 box.size b.size_word,
                  read_le-le_bytes 8 box.n_publishers b.publishers_word,
                  read_le-le_bytes 8 box.n_subscribers b.subscribers_word,
                )))))))

shown-not_empty :
    (content rest : List ℕ)
    → IsCString content
    → 1 < length content
    → starts_empty (take 32 (drop 1 (padded 32 content ++ rest))) ≡ false
shown-not_empty [] rest c h = absurd (omega arith)
shown-not_empty (x ∷ []) rest c h = absurd (omega arith)
shown-not_empty (x ∷ y ∷ content) rest (_, (ne, _)) h = ground arith

c_string-take :
    (n : ℕ) (name rest : List ℕ)
    → IsCString name
    → length name < n
    → c_string (take n (name ++ 0 ∷ rest)) ≡ name
unfolding c_string
c_string-take zero name rest c h = absurd (omega arith)
c_string-take (suc n) [] rest c h = refl
c_string-take (suc n) (x ∷ name) rest (ne, c) h = ground (arith, c_string-take n name rest c)

shown-content :
    (content rest : List ℕ)
    → IsCString content
    → 1 < length content
    → length content < 32
    → c_string (take 32 (drop 1 (padded 32 content ++ rest))) ≡ drop 1 content
shown-content [] rest c h short = absurd (omega arith)
shown-content (x ∷ content) rest (ne, c) h short =
    let k : ℕ = 31 - length content - 1 in
    let left : 32 - suc (length content) ≡ suc k = omega arith in
    ap (λ m. c_string (take 32 ((content ++ zeros m) ++ rest))) left
    ∙ ap (λ bs. c_string (take 32 bs)) (append_assoc content (zeros (suc k)) rest)
    ∙ c_string-take 32 content (zeros k ++ rest) c (omega arith)

-- The line for a box of the broker: its name without the slash.
abbrev pub box_line : Box → Line
box_line box = record {
  name = drop 1 (c_string box.name);
  size = box.size;
  n_publishers = box.n_publishers;
  n_subscribers = box.n_subscribers;
}

pub line_of-shown : (box : Box) → IsBox box → line_of (shown box) ≡ box_line box
line_of-shown box b =
    let same : c_string (shown_name box) ≡ drop 1 (c_string box.name) =
      ap (λ name. c_string (take 32 (drop 1 (name ++ le_bytes 8 box.size)))) b.name_array
      ∙ shown-content b.content (le_bytes 8 box.size) b.c_chars b.not_empty b.short
      ∙ ap (λ name. drop 1 name)
          (sym (ap c_string b.name_array ∙ c_string-padded 32 b.content b.c_chars b.short)) in
    ap
      (λ name. record {
        name = name;
        size = box.size;
        n_publishers = box.n_publishers;
        n_subscribers = box.n_subscribers;
      })
      same

not_empty_answer :
    (box : Box) (b : IsBox box) (last : ℕ) (rest : List ℕ)
    → is_empty_answer (record { last = last; box = shown box; rest = rest }) ≡ false
not_empty_answer box b last rest =
    let name =
      ap (λ name. starts_empty (take 32 (drop 1 (name ++ le_bytes 8 box.size)))) b.name_array
      ∙ shown-not_empty b.content (le_bytes 8 box.size) b.c_chars b.not_empty in
    and_false (last == 1) name

-- The boxes as they are inserted one after the other.
abbrev pub insert_all : List Box → List Box → List Box
insert_all xs [] = xs
insert_all xs (box ∷ boxes) = insert_all (insert_right xs (shown box)) boxes

incr-last_of : (n : ℕ) → incr (last_of n) ≡ last_of (suc n)
incr-last_of zero = refl
incr-last_of (suc n) = let one_more : n + 1 ≡ suc n = omega arith in ap pos one_more

pub length-insert_right : (xs : List Box) (b : Box) → length (insert_right xs b) ≡ suc (length xs)
unfolding insert_right
length-insert_right [] b = refl
length-insert_right (x ∷ xs) b = ground (arith, length-insert_right xs b)

-- One round of the loop, on the packet of a box.
receive-box :
    (fuel last : ℕ) (box : Box) (rest : List ℕ) (xs : List Box) (c : Box) (room : List Box)
    → IsBox box
    → receive_boxes (suc fuel) (answer last box ++ rest) (xs ++ c ∷ room) (last_of (length xs))
      ≡ after_insert
          (receive_boxes fuel)
          (record { last = last; box = shown box; rest = rest })
          (last_of (length xs))
          (some (insert_right xs (shown box) ++ room))
unfolding receive_boxes
receive-box fuel last box rest xs c room b =
    let a : Answer = record { last = last; box = shown box; rest = rest } in
    let go = receive_boxes fuel in
    let size = last_of (length xs) in
    let array : List Box = xs ++ c ∷ room in
    let subscribers = le_bytes 8 box.n_subscribers in
    let publishers = le_bytes 8 box.n_publishers in
    let regroup : answer last box ++ rest
        ≡ protocol_code_list_answer
          ∷ last
          ∷ (shown_name box ++ (le_bytes 8 box.size ++ (publishers ++ (subscribers ++ rest)))) =
      simp append_assoc in
    ap (λ o. after_read go array size o)
      (ap read_answer regroup ∙ read_answer-answer box b last rest)
    ∙ ap
        (λ t.
          if t then shows array size else after_insert go a size (sorted_insert array size a.box))
        (not_empty_answer box b last rest)
    ∙ ap (λ o. after_insert go a size o) (sorted_insert-insert_right xs c (shown box) room)

pub receive_boxes-answers :
    (fuel : ℕ) (box : Box) (boxes : List Box) (xs room : List Box)
    → AllBoxes (box ∷ boxes)
    → length boxes < length room
    → length boxes < fuel
    → receive_boxes fuel (concat (answers_of (box ∷ boxes))) (xs ++ room) (last_of (length xs))
      ≡ shows
          (insert_all xs (box ∷ boxes) ++ drop (suc (length boxes)) room)
          (last_of (length xs + suc (length boxes)))
receive_boxes-answers zero box boxes xs room all space h = absurd (omega arith)
receive_boxes-answers (suc fuel) box boxes xs [] all space h = absurd (omega arith)
receive_boxes-answers (suc fuel) box [] xs (c ∷ room) (b, rest) space h =
    let one_more : suc (length xs) ≡ length xs + 1 = omega arith in
    receive-box fuel 1 box [] xs c room b
    ∙ ap (λ n. shows (insert_right xs (shown box) ++ room) n)
        (incr-last_of (length xs) ∙ ap last_of one_more)
receive_boxes-answers (suc fuel) box (box' ∷ boxes) xs (c ∷ room) (b, rest) space h =
    let ys : List Box = insert_right xs (shown box) in
    let grown = length-insert_right xs (shown box) in
    let total : length ys + suc (length boxes) ≡ length xs + suc (suc (length boxes)) =
      omega (arith, grown) in
    receive-box fuel 0 box (concat (answers_of (box' ∷ boxes))) xs c room b
    ∙ ap (λ n. receive_boxes fuel (concat (answers_of (box' ∷ boxes))) (ys ++ room) n)
        (incr-last_of (length xs) ∙ ap last_of (sym grown))
    ∙ receive_boxes-answers fuel box' boxes ys room rest (omega arith) (omega arith)
    ∙ ap (λ n. shows (insert_all ys (box' ∷ boxes) ++ drop (suc (length boxes)) room) (last_of n))
        total

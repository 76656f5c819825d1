-- ===== src/Broker/Table/Laws.antt =====
-- mbroker/mbroker.c: what `box_create`, `box_delete` and `box_find` do to the boxes in use.
use tecnico_fs_so.Prelude.{
  ℕ, List, [], arith, get_elem?, length, length-append, minus_one, pos, set, some, suc, zero, ℤ,
  ◌++◌, ◌+◌, ◌<◌, ◌^◌, ◌∷◌, ◌≡◌, ◌≤◌, refl, ap, bytes_eq→eq, get_elem?-some, length-set, lt→ltb,
  sym, ◌∙◌,
}
use tecnico_fs_so.Broker.Types.{Box, Broker, Call, ends, decr, incr}
use tecnico_fs_so.Fs.Entries.Names.{IsCString}
use tecnico_fs_so.Fs.Tables.{Scan}
use tecnico_fs_so.Broker.Table.{
  box_create, box_delete, box_find, delete_at, index_of, create_at, fill_box, new_box,
}
use tecnico_fs_so.Broker.Table.View.{
  listed, Located, scan_boxes-Located, NoneNamed, here, listed-full, listed-take, unlisted,
}
use tecnico_fs_so.Protocol.Layout.{padded}
use tecnico_fs_so.Protocol.{box_name_max_len}
use tecnico_fs_so.Fs.Entries.{c_string}
use tecnico_fs_so.Fs.Types.{taken, free, AllocationState}
use tecnico_fs_so.Fs.Tables.Search.{First, first_free-First, hit, miss}
use tecnico_fs_so.Protocol.RoundTrip.{c_string-padded}

-- The boxes in use, in the order of the table.
abbrev pub boxes_of : Broker → List Box
boxes_of br = listed br.slots br.free_boxes br.boxes_table

-- A box as `box_create` makes it: its name is a string of 2 to 31 bytes.
pub record IsBox (box : Box) : Type 0 where
  pub content : List ℕ
  pub name_array : box.name ≡ padded box_name_max_len content
  pub c_chars : IsCString content
  pub not_empty : 1 < length content
  pub short : length content < box_name_max_len
  pub size_word : box.size < 2 ^ 64
  pub publishers_word : box.n_publishers < 2 ^ 64
  pub subscribers_word : box.n_subscribers < 2 ^ 64

abbrev pub AllBoxes : List Box → Type 0
AllBoxes [] = Unit {0}
AllBoxes (box ∷ boxes) = IsBox box × AllBoxes boxes

-- The table has its entries, the counter is the number of boxes in use, and these are well-formed.
-- What stands in the other entries is arbitrary.
pub record IsBroker (br : Broker) : Type 0 where
  pub states : br.slots ≤ length br.free_boxes
  pub entries : br.slots ≤ length br.boxes_table
  pub words :
      (i : ℕ) (box : Box) → get_elem? br.boxes_table i ≡ some box → box.n_publishers < 2 ^ 64
  pub counted : br.n_boxes ≡ pos (length (boxes_of br))
  pub boxes : AllBoxes (boxes_of br)

-- The outcome of `box_create`.
pub data Creates (br : Broker) (box_name : List ℕ) : Call ℤ → Type 0 where
  created :
      {t : Broker} (front back : List Box) (box : Box)
      → boxes_of br ≡ front ++ back
      → boxes_of t ≡ front ++ box ∷ back
      → c_string box.name ≡ box_name
      → box.size ≡ 0
      → box.n_subscribers ≡ 0
      → t.slots ≡ br.slots
      → IsBroker t
      → Creates br box_name (ends (pos 0) t)
  full : length (boxes_of br) ≡ br.slots → Creates br box_name (ends minus_one br)

-- The outcome of `box_delete`.
pub data Removes (br : Broker) (box_name : List ℕ) : Call ℤ → Type 0 where
  removed :
      {t : Broker} (front back : List Box) (box : Box)
      → boxes_of br ≡ front ++ box ∷ back
      → c_string box.name ≡ box_name
      → NoneNamed box_name front
      → boxes_of t ≡ front ++ back
      → t.slots ≡ br.slots
      → IsBroker t
      → Removes br box_name (ends (pos 0) t)
  not_there : NoneNamed box_name (boxes_of br) → Removes br box_name (ends minus_one br)

-- The outcome of `box_find`.
pub data Finds (br : Broker) (box_name : List ℕ) : Call ℤ → Type 0 where
  at_entry :
      {i : ℕ} (box : Box)
      → i < br.slots
      → get_elem? br.free_boxes i ≡ some taken
      → get_elem? br.boxes_table i ≡ some box
      → c_string box.name ≡ box_name
      → Finds br box_name (ends (pos i) br)
  nowhere : NoneNamed box_name (boxes_of br) → Finds br box_name (ends minus_one br)

AllBoxes-append :
    (front back : List Box) → AllBoxes front → AllBoxes back → AllBoxes (front ++ back)
AllBoxes-append [] back h h' = h'
AllBoxes-append (box ∷ front) back (h, rest) h' = (h, AllBoxes-append front back rest h')

AllBoxes-split : (front back : List Box) → AllBoxes (front ++ back) → AllBoxes front × AllBoxes back
AllBoxes-split [] back h = (tt, h)
AllBoxes-split (box ∷ front) back (h, rest) =
    let (h', h'') = AllBoxes-split front back rest in ((h, h'), h'')

length-middle :
    (front back : List Box) (box : Box) → length (front ++ box ∷ back) ≡ length (front ++ back) + 1
length-middle front back box =
    omega (arith, length-append front (box ∷ back), length-append front back)

words-set :
    (table : List Box) (i : ℕ) (new : Box)
    → ((j : ℕ) (box : Box) → get_elem? table j ≡ some box → box.n_publishers < 2 ^ 64)
    → new.n_publishers < 2 ^ 64
    → (j : ℕ) (box : Box) → get_elem? (set table i new) j ≡ some box
    → box.n_publishers < 2 ^ 64
words-set [] i new h lt j box e = cc
words-set (b ∷ table) zero new h lt zero box e = let same : box ≡ new = ground arith in rw same lt
words-set (b ∷ table) zero new h lt (suc j) box e = h (suc j) box e
words-set (b ∷ table) (suc i) new h lt zero box e = h zero box e
words-set (b ∷ table) (suc i) new h lt (suc j) box e =
    words-set table i new (λ j. h (suc j)) lt j box e

module _ {br : Broker} (w : IsBroker br) where
  created_broker :
      (box_name : List ℕ) (i : ℕ) (old : Box)
      → IsCString box_name
      → 1 < length box_name
      → length box_name < box_name_max_len
      → i < br.slots
      → get_elem? br.free_boxes i ≡ some free
      → get_elem? br.boxes_table i ≡ some old
      → Creates br box_name (fill_box box_name br i (some old))
  created_broker box_name i old c p short lt at e =
      let new = new_box box_name old in
      let table : List Box = set br.boxes_table i new in
      let states : List AllocationState = set br.free_boxes i taken in
      let (front, back, before, after) =
        listed-take br.slots i br.free_boxes br.boxes_table old new lt at e in
      let (in_front, behind) = AllBoxes-split front back (rw before at w.boxes) in
      let bound = w.words i old e in
      let is_box : IsBox new = record {
        content = box_name;
        name_array = refl;
        c_chars = c;
        not_empty = p;
        short = short;
        size_word = omega arith;
        publishers_word = bound;
        subscribers_word = omega arith;
      } in
      rw (lt→ltb (length box_name) box_name_max_len short) (
        created front back new before after (c_string-padded 32 box_name c short) refl refl refl
          (record {
            states = omega (arith, w.states, length-set br.free_boxes i taken);
            entries = omega (arith, w.entries, length-set br.boxes_table i new);
            words = words-set br.boxes_table i new w.words bound;
            counted =
                ap incr (w.counted ∙ ap (λ bs. pos (length bs)) before)
                ∙ ap pos (sym (length-middle front back new))
                ∙ ap (λ bs. pos (length bs)) (sym after);
            boxes = rw after (AllBoxes-append front (new ∷ back) in_front (is_box, behind));
          }))

  create_at-Creates :
      (box_name : List ℕ) {r : Scan}
      → IsCString box_name
      → 1 < length box_name
      → length box_name < box_name_max_len
      → First br.slots br.free_boxes r
      → Creates br box_name (create_at box_name br r)
  create_at-Creates box_name c p short (hit {i = i} lt at front) =
      let (old, e) = get_elem?-some br.boxes_table i (omega (arith, w.entries)) in
      rw e (created_broker box_name i old c p short lt at e)
  create_at-Creates box_name c p short (miss all) =
      full (listed-full br.slots br.free_boxes br.boxes_table w.entries all)

  -- Creating a box puts one with the name, without contents and subscribers, between the boxes in
  -- use, leaves these as they are and returns 0; it returns -1 and changes nothing just if every
  -- entry is in use. The table stays well-formed. The name is a string of 2 to 31 bytes.
  pub box_create-Creates :
      (box_name : List ℕ)
      → IsCString box_name
      → 1 < length box_name
      → length box_name < box_name_max_len
      → Creates br box_name (box_create box_name br)
  unfolding box_create
  box_create-Creates box_name c p short =
      create_at-Creates box_name c p short (first_free-First br.slots br.free_boxes w.states)

  delete_at-Removes :
      (box_name : List ℕ) {r : Scan}
      → Located box_name br.slots br.free_boxes br.boxes_table r
      → Removes br box_name (delete_at br r)
  delete_at-Removes box_name (here {i} {box} front back lt at e named before unnamed after) =
      let (in_front, (is_box, behind)) = AllBoxes-split front (box ∷ back) (rw before at w.boxes) in
      let counted = w.counted ∙ ap (λ bs. pos (length bs)) before in
      let one_more : length (front ++ box ∷ back) ≡ suc (length (front ++ back)) =
        omega (arith, length-middle front back box) in
      removed front back box before (bytes_eq→eq _ _ named) unnamed after refl (record {
        states = omega (arith, w.states, length-set br.free_boxes i free);
        entries = w.entries;
        words = w.words;
        counted = ap decr (counted ∙ ap pos one_more) ∙ ap (λ bs. pos (length bs)) (sym after);
        boxes = rw after (AllBoxes-append front back in_front behind);
      })
  delete_at-Removes box_name (unlisted unnamed) = not_there unnamed

  -- Deleting a box takes the first box in use that has the name out of the boxes in use, leaves the
  -- others as they are and returns 0; it returns -1 and changes nothing just if no box in use has
  -- the name. The table stays well-formed.
  pub box_delete-Removes : (box_name : List ℕ) → Removes br box_name (box_delete box_name br)
  unfolding box_delete
  box_delete-Removes box_name =
      delete_at-Removes box_name
        (scan_boxes-Located br.slots br.free_boxes br.boxes_table box_name w.states w.entries)

  index_of-Finds :
      (box_name : List ℕ) {r : Scan}
      → Located box_name br.slots br.free_boxes br.boxes_table r
      → Finds br box_name (index_of br r)
  index_of-Finds box_name (here {i} {box} front back lt at e named before unnamed after) =
      at_entry box lt at e (bytes_eq→eq _ _ named)
  index_of-Finds box_name (unlisted unnamed) = nowhere unnamed

  -- A search returns the index of an entry in use whose box has the name, or -1 just if no box in
  -- use has it, and changes nothing.
  pub box_find-Finds : (box_name : List ℕ) → Finds br box_name (box_find box_name br)
  unfolding box_find
  box_find-Finds box_name =
      index_of-Finds box_name
        (scan_boxes-Located br.slots br.free_boxes br.boxes_table box_name w.states w.entries)

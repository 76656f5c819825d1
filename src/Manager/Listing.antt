-- ===== src/Manager/Listing.antt =====
-- manager/manager.c: `manager_handle_box_listing`, on the bytes that come through the session pipe.
pub mod Receive
pub mod Ends
pub mod Sorted
use tecnico_fs_so.Prelude.{
  ℕ, Bool, List, Option, [], bytes_eq, false, if◌then◌else◌, leb, length, map, minus_one, negsuc,
  none, pos, some, suc, take, true, zero, ℤ, ◌&&◌, ◌+◌, ◌==◌, ◌∷◌,
}
use tecnico_fs_so.Broker.Types.{Box, incr}
use tecnico_fs_so.Protocol.{pipe_read, box_name_max_len}
use tecnico_fs_so.Fs.Entries.{c_string}
use tecnico_fs_so.Broker.Listing.{protocol_code_list_answer}
use tecnico_fs_so.Manager.Insert.{sorted_insert}
use tecnico_fs_so.Protocol.Words.{read_le}

-- MAX_BOX_AMOUNT.
abbrev pub max_box_amount : ℕ
max_box_amount = 64

-- One packet: the flag, the box, and the bytes behind the packet.
pub record Answer : Type 0 where
  pub last : ℕ
  pub box : Box
  pub rest : List ℕ

abbrev pub with_read : Option (List ℕ × List ℕ) → (List ℕ → List ℕ → Option Answer) → Option Answer
with_read none go = none
with_read (some (bytes, rest)) go = go bytes rest

-- The reads of one round: `none` after a read that fails, or another code.
unfoldable pub read_answer : List ℕ → Option Answer
read_answer bytes = with_read (pipe_read 1 bytes) (λ code rest.
    if bytes_eq code (protocol_code_list_answer ∷ [])
    then with_read (pipe_read 1 rest) (λ last rest.
      with_read (pipe_read box_name_max_len rest) (λ name rest.
        with_read (pipe_read 8 rest) (λ size rest.
          with_read (pipe_read 8 rest) (λ n_publishers rest.
            with_read (pipe_read 8 rest) (λ n_subscribers rest. some (record {
              last = read_le last;
              box = record {
                name = name;
                size = read_le size;
                n_publishers = read_le n_publishers;
                n_subscribers = read_le n_subscribers;
              };
              rest = rest;
            }))))))
    else none)

-- How the loop ends: with -1, with the boxes and the index of the last, by an access outside of the
-- array, or for lack of fuel.
pub data Listing : Type 0 where
  failed bad_access out_of_fuel : Listing
  shows : List Box → ℤ → Listing

abbrev pub starts_empty : List ℕ → Bool
starts_empty [] = false
starts_empty (c ∷ name) = c == 0

-- The packet without a box.
abbrev pub is_empty_answer : Answer → Bool
is_empty_answer a = a.last == 1 && starts_empty a.box.name

-- What follows the insertion; `next_round` is the next round of the loop.
abbrev pub after_insert :
    (List ℕ → List Box → ℤ → Listing) → Answer → ℤ → Option (List Box) → Listing
after_insert next_round a size none = bad_access
after_insert next_round a size (some boxes) = elim (a.last == 0) [
  | true ↦ next_round a.rest boxes (incr size)
  | false ↦ shows boxes (incr size)
]

abbrev pub after_read : (List ℕ → List Box → ℤ → Listing) → List Box → ℤ → Option Answer → Listing
after_read next_round boxes size none = failed
after_read next_round boxes size (some a) =
    if is_empty_answer a
    then shows boxes size
    else after_insert next_round a size (sorted_insert boxes size a.box)

-- `boxes` is the array of the function.
unfoldable pub receive_boxes : ℕ → List ℕ → List Box → ℤ → Listing
receive_boxes zero bytes boxes size = out_of_fuel
receive_boxes (suc fuel) bytes boxes size =
    after_read (receive_boxes fuel) boxes size (read_answer bytes)

-- A line of the output.
pub record Line : Type 0 where
  pub name : List ℕ
  pub size : ℕ
  pub n_publishers : ℕ
  pub n_subscribers : ℕ

abbrev pub line_of : Box → Line
line_of box = record {
  name = c_string box.name;
  size = box.size;
  n_publishers = box.n_publishers;
  n_subscribers = box.n_subscribers;
}

-- What the manager does in the end: it returns 0 after printing the lines, or "NO BOXES FOUND" if
-- there is none; it returns -1; or one of the faults above.
pub data Output : Type 0 where
  prints : List Line → Output
  fails crashes no_end : Output

-- `for (i = 0; i <= size; i++)`.
abbrev pub print_boxes : List Box → ℤ → Output
print_boxes boxes (negsuc n) = prints []
print_boxes boxes (pos n) =
    if leb (n + 1) (length boxes) then prints (map line_of (take (n + 1) boxes)) else crashes

abbrev pub output_of : Listing → Output
output_of failed = fails
output_of bad_access = crashes
output_of out_of_fuel = no_end
output_of (shows boxes size) = print_boxes boxes size

-- Each round but the last takes a byte at least. `boxes` is what the array holds at first.
unfoldable pub manager_handle_box_listing : List Box → List ℕ → Output
manager_handle_box_listing boxes bytes =
    output_of (receive_boxes (length bytes + 1) bytes boxes minus_one)

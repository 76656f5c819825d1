-- ===== src/Manager/Examples.antt =====
-- manager/: instances of the theorems.
use mathlib.Core.List.{Perm}
use tecnico_fs_so.Prelude.{
  ℕ, refl, List, [], pos, some, ◌++◌, ◌∷◌, ◌≡◌, ◌≢◌, arith, bytes_eq, false, true,
}
use tecnico_fs_so.Broker.Types.{Box}
use tecnico_fs_so.Fs.Entries.{c_string}
use tecnico_fs_so.Manager.Listing.{manager_handle_box_listing, no_end}
use tecnico_fs_so.Manager.Insert.{sorted_insert, shift_from, strcmp_gt, insert_right}
use tecnico_fs_so.Manager.Order.{IsSorted, sorted_insert-IsSorted}
use tecnico_fs_so.Manager.Listing.Ends.{manager_handle_box_listing-ends}
use tecnico_fs_so.Fs.Entries.Names.{IsCString}
use tecnico_fs_so.Manager.Management.{is_answer_code, manager_handle_box_management}
use tecnico_fs_so.Broker.Handlers.{reply_packet, create_error, protocol_code_create_answer}
use tecnico_fs_so.Protocol.{ready, receive_connection, request}
use tecnico_fs_so.Manager.Management.Answered.{reply_to, manager_handle_box_management-reply}
use tecnico_fs_so.Manager.Place.{sorted_insert-insert_right}
use tecnico_fs_so.Manager.Command.{
  manager_main, create_word, sends_request, receive_connection-manager_main, create_code,
}

abbrev box_named : ℕ → Box
box_named c = record { name = c ∷ 0 ∷ []; size = 0; n_publishers = 0; n_subscribers = 0 }

two-IsSorted : IsSorted (box_named 97 ∷ box_named 99 ∷ [])
unfolding c_string strcmp_gt
two-IsSorted = ((refl, tt), (tt, tt))

sorted_insert-IsSorted_example :
    (ys : List Box) × (sorted_insert
        (box_named 97 ∷ box_named 99 ∷ box_named 46 ∷ box_named 46 ∷ [])
        (pos 1)
        (box_named 98)
      ≡ some (ys ++ box_named 46 ∷ []))
    × IsSorted ys
    × Perm ys (box_named 98 ∷ box_named 97 ∷ box_named 99 ∷ [])
sorted_insert-IsSorted_example =
    sorted_insert-IsSorted (box_named 97 ∷ box_named 99 ∷ []) (box_named 46) (box_named 98)
      (box_named 46 ∷ []) two-IsSorted

manager_handle_box_listing-ends_example : manager_handle_box_listing [] (8 ∷ 0 ∷ 97 ∷ []) ≢ no_end
manager_handle_box_listing-ends_example = manager_handle_box_listing-ends [] (8 ∷ 0 ∷ 97 ∷ [])

inserts_between :
    sorted_insert (box_named 97 ∷ box_named 99 ∷ box_named 46 ∷ []) (pos 1) (box_named 98)
    ≡ some (box_named 97 ∷ box_named 98 ∷ box_named 99 ∷ [])
unfolding sorted_insert shift_from strcmp_gt c_string
inserts_between = refl

is_create_answer : is_answer_code (protocol_code_create_answer ∷ []) ≡ true
unfolding bytes_eq
is_create_answer = refl

create_error-IsCString : IsCString create_error
create_error-IsCString = ground arith

manager_handle_box_management-reply_example :
    (packet : List ℕ) × (reply_packet protocol_code_create_answer create_error false ≡ ready packet)
    × (manager_handle_box_management packet ≡ reply_to create_error false)
manager_handle_box_management-reply_example =
    manager_handle_box_management-reply protocol_code_create_answer create_error false
      is_create_answer create_error-IsCString (omega arith)

sorted_insert-insert_right_example :
    sorted_insert (box_named 97 ∷ box_named 99 ∷ box_named 46 ∷ []) (pos 1) (box_named 98)
    ≡ some (insert_right (box_named 97 ∷ box_named 99 ∷ []) (box_named 98) ++ [])
sorted_insert-insert_right_example =
    sorted_insert-insert_right (box_named 97 ∷ box_named 99 ∷ []) (box_named 46) (box_named 98) []

receive_connection-manager_main_example :
    (bytes : List ℕ) × (manager_main 4096 true
        ((b'm' ∷ []) ∷ (b'r' ∷ []) ∷ (b'p' ∷ []) ∷ create_word ∷ (b'a' ∷ []) ∷ [])
      ≡ sends_request (ready (3 ∷ bytes)))
    × (receive_connection 3 bytes
        ≡ request (record {
          code = 3;
          client_named_pipe_path = b'p' ∷ [];
          box_name = some (b'/' ∷ b'a' ∷ []);
        }))
receive_connection-manager_main_example =
    receive_connection-manager_main 4096 (b'm' ∷ []) (b'r' ∷ []) (b'p' ∷ []) create_word (b'a' ∷ [])
      (omega arith) create_code ((λ e. absurd (omega arith)), tt) (omega arith)
      ((λ e. absurd (omega arith)), tt) (omega arith)

-- ===== src/Broker/Listener.antt =====
-- mbroker/mbroker.c: the inner loop of `main`, which reads requests from the register pipe and queues
-- them, and the choice of a handler in `workers_reception`.
pub mod Requests
mod Examples
use tecnico_fs_so.Prelude.{Bool, List, [], drop, if◌then◌else◌, suc, zero, ℕ, ◌+◌, ◌==◌, ◌||◌, ◌∷◌}
use tecnico_fs_so.Protocol.{
  read_failed, copy_overrun, Received, Request, protocol_code_list_request, receive_connection,
  client_named_pipe_max_len, request, box_name_max_len,
}

-- How the loop is left: the pipe is empty and has no writer, a request is cut off, an access outside
-- of an array, or not at all; with the requests that it has queued before.
pub data Ending : Type 0 where
  waits fails overruns spins : Ending

pub record Listened : Type 0 where
  pub queued : List Request
  pub ending : Ending

abbrev pub is_known : ℕ → Bool
is_known code =
    code == 1 || (code == 2 || (code == 3 || (code == 5 || code == protocol_code_list_request)))

-- The bytes behind a request with this code.
abbrev pub behind : ℕ → List ℕ → List ℕ
behind code bytes =
    if code == protocol_code_list_request
    then drop client_named_pipe_max_len bytes
    else drop (client_named_pipe_max_len + box_name_max_len) bytes

abbrev pub after_receive : Received → Listened → Listened
after_receive (request r) later = record later { queued = r ∷ later.queued }
after_receive read_failed later = record { queued = []; ending = fails }
after_receive copy_overrun later = record { queued = []; ending = overruns }

-- On all the bytes that come while the pipe has a writer. After an unknown code nothing is read.
unfoldable pub listen : ℕ → List ℕ → Listened
listen zero bytes = record { queued = []; ending = spins }
listen (suc fuel) [] = record { queued = []; ending = waits }
listen (suc fuel) (code ∷ rest) =
    let same_again = listen fuel (code ∷ rest) in
    let later = listen fuel (behind code rest) in
    if is_known code then after_receive (receive_connection code rest) later else same_again

-- The cases of the `switch`.
pub data Handler : Type 0 where
  pub_register sub_register manager_create manager_remove manager_listing ignored : Handler

unfoldable pub handler_of : ℕ → Handler
handler_of code =
    if code == 1
    then pub_register
    else if code == 2
    then sub_register
    else if code == 3
    then manager_create
    else if code == 5
    then manager_remove
    else if code == protocol_code_list_request
    then manager_listing
    else ignored

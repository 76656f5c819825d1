-- ===== src/Broker/Listener/Requests.antt =====
-- mbroker/mbroker.c: the listener queues the requests that the clients have written.

use tecnico_fs_so.Prelude.{
  refl, List, [], ap, append_assoc, arith, drop, false, length, length-append, map, some, suc, sym,
  true, zero, ℕ, ◌++◌, ◌+◌, ◌-◌, ◌<◌, ◌==◌, ◌∙◌, ◌∷◌, ◌≡◌, ◌≢◌, none, ◌⊎◌, inl, inr, ◌↔◌,
}
use tecnico_fs_so.Protocol.{
  Request, protocol_code_list_request, client_named_pipe_max_len, box_name_max_len, request,
  read_failed, copy_overrun, Received, receive_connection,
}
use tecnico_fs_so.Protocol.RoundTrip.{drop-append, length-padded, receive_bytes, receive_listing}
use tecnico_fs_so.Broker.Listener.{
  is_known, listen, waits, after_receive, spins, Listened, fails, overruns, behind,
}
use tecnico_fs_so.Protocol.Layout.{padded}
use tecnico_fs_so.Fs.Entries.Names.{IsCString}

-- The codes of PROTOCOL.md for the requests that name a box: the registration of a publisher or of a
-- subscriber, the creation and the removal of a box.
abbrev pub IsBoxCode : ℕ → Type 0
IsBoxCode code = (code ≡ 1) ⊎ ((code ≡ 2) ⊎ ((code ≡ 3) ⊎ (code ≡ 5)))

-- What a client asks for: something with a box, by the code, the pipe and the name of the box, or a
-- listing, by the pipe.
pub data Asked : Type 0 where
  with_box : ℕ → List ℕ → List ℕ → Asked
  list_boxes : List ℕ → Asked

abbrev pub FitsPath : List ℕ → Type 0
FitsPath path = IsCString path × (length path < client_named_pipe_max_len)

abbrev pub FitsName : List ℕ → Type 0
FitsName name = IsCString name × (length name < box_name_max_len - 1)

-- The strings fit into the request.
abbrev pub IsAsked : Asked → Type 0
IsAsked (with_box code path name) = IsBoxCode code × FitsPath path × FitsName name
IsAsked (list_boxes path) = FitsPath path

abbrev pub AllAsked : List Asked → Type 0
AllAsked [] = Unit
AllAsked (a ∷ asked) = (IsAsked a) × AllAsked asked

-- The packets of the clients, one behind the other.
abbrev pub wire : List Asked → List ℕ
wire [] = []
wire (with_box code path name ∷ asked) = code ∷ (padded 256 path ++ (padded 32 name ++ wire asked))
wire (list_boxes path ∷ asked) = 7 ∷ (padded 256 path ++ wire asked)

abbrev pub request_of : Asked → Request
request_of (with_box code path name) = record {
  code = code;
  client_named_pipe_path = path;
  box_name = some (b'/' ∷ name);
}
request_of (list_boxes path) = record { code = 7; client_named_pipe_path = path; box_name = none }

box_code-known : (code : ℕ) → IsBoxCode code → is_known code ≡ true
box_code-known code (inl e) = rw e refl
box_code-known code (inr (inl e)) = rw e refl
box_code-known code (inr (inr (inl e))) = rw e refl
box_code-known code (inr (inr (inr e))) = rw e refl

box_code-not_listing : (code : ℕ) → IsBoxCode code → code ≢ protocol_code_list_request
box_code-not_listing code p = omega (arith, p)

not_listing : (code : ℕ) → code ≢ protocol_code_list_request → (code == 7) ≡ false
not_listing code ne = ground arith

drop-two :
    (xs ys rest : List ℕ) (n : ℕ) → length xs + length ys ≡ n → drop n (xs ++ (ys ++ rest)) ≡ rest
drop-two xs ys rest n e =
    ap (λ zs. drop n zs) (sym (append_assoc xs ys rest))
    ∙ ap (λ k. drop k ((xs ++ ys) ++ rest)) (omega (arith, e, length-append xs ys))
    ∙ drop-append (xs ++ ys) rest

drop-one : (xs rest : List ℕ) (n : ℕ) → length xs ≡ n → drop n (xs ++ rest) ≡ rest
drop-one xs rest n e = ap (λ k. drop k (xs ++ rest)) (sym e) ∙ drop-append xs rest

-- The broker's listener queues just the requests of the clients, in the order in which their packets
-- came, and then waits for more. The packets are those of any number of requests with code 1, 2, 3
-- or 5, each with a pipe name of at most 255 bytes and a box name of at most 30, and of requests for
-- a listing, with code 7 and such a pipe name, in any order; there is one round of the loop for each
-- request and one more.
pub listen-wire :
    (fuel : ℕ) (asked : List Asked)
    → AllAsked asked
    → length asked < fuel
    → listen fuel (wire asked) ≡ record { queued = map request_of asked; ending = waits }
unfolding listen
listen-wire zero asked p lt = absurd (omega arith)
listen-wire (suc fuel) [] p lt = refl
listen-wire (suc fuel) (with_box code path name ∷ asked) ((c, (q, q_lt), (n, n_lt)), p) lt =
    let path_full = length-padded 256 path (omega (arith, q_lt)) in
    let name_full = length-padded 32 name (omega (arith, n_lt)) in
    let ne = box_code-not_listing code c in
    rw
      (
        box_code-known code c,
        not_listing code ne,
        receive_bytes code path name (wire asked) ne q q_lt n n_lt,
        drop-two (padded 256 path) (padded 32 name) (wire asked) 288
            (omega (arith, path_full, name_full)),
      )
      (ap (λ l. after_receive (request (request_of (with_box code path name))) l)
        (listen-wire fuel asked p (omega arith)))
listen-wire (suc fuel) (list_boxes path ∷ asked) ((q, q_lt), p) lt =
    let path_full = length-padded 256 path (omega (arith, q_lt)) in
    rw
      (
        receive_listing path (wire asked) q q_lt,
        drop-one (padded 256 path) (wire asked) 256 path_full,
      )
      (ap (λ l. after_receive (request (request_of (list_boxes path))) l)
        (listen-wire fuel asked p (omega arith)))

-- The code of no request that a client makes.
abbrev pub IsUnknown : ℕ → Type 0
IsUnknown code = (code ≢ 1) × ((code ≢ 2) × ((code ≢ 3) × ((code ≢ 5) × (code ≢ 7))))

abbrev pub spinning : Listened
spinning = record { queued = []; ending = spins }

unknown-unread : (code : ℕ) → IsUnknown code → is_known code ≡ false
unknown-unread code (a, (b, (c, (d, e)))) = ground arith

spins-unknown :
    (code : ℕ) (rest : List ℕ) → IsUnknown code → (fuel : ℕ) → listen fuel (code ∷ rest) ≡ spinning
unfolding listen
spins-unknown code rest p zero = refl
spins-unknown code rest p (suc fuel) = rw (unknown-unread code p) (spins-unknown code rest p fuel)

received-ends : (r : Received) (later : Listened) → after_receive r later ≢ spinning
received-ends (request r) later e =
    absurd (let same : r ∷ later.queued ≡ [] = ap (λ l. l.queued) e in cc)
received-ends read_failed later e = absurd (let same : fails ≡ spins = ap (λ l. l.ending) e in cc)
received-ends copy_overrun later e =
    absurd (let same : overruns ≡ spins = ap (λ l. l.ending) e in cc)

known-ends : (code : ℕ) (rest : List ℕ) → is_known code ≡ true → listen 1 (code ∷ rest) ≢ spinning
unfolding listen
known-ends code rest known e =
    received-ends (receive_connection code rest) (listen 0 (behind code rest)) (rw known at e)

spins-IsUnknown : (code : ℕ) (rest : List ℕ) → listen 1 (code ∷ rest) ≡ spinning → IsUnknown code
spins-IsUnknown code rest e = (
  λ z. known-ends code rest (rw z refl) e,
  (
    λ z. known-ends code rest (rw z refl) e,
    (
      λ z. known-ends code rest (rw z refl) e,
      (λ z. known-ends code rest (rw z refl) e, λ z. known-ends code rest (rw z refl) e),
    ),
  ),
)

-- Where a code is read, the loop of the listener neither ends nor queues anything, whatever the
-- number of its rounds, just if the code is none of 1, 2, 3, 5 and 7; whatever bytes follow.
pub listen-IsUnknown :
    (code : ℕ) (rest : List ℕ)
    → ((fuel : ℕ) → listen fuel (code ∷ rest) ≡ spinning) ↔ IsUnknown code
listen-IsUnknown code rest = (λ all. spins-IsUnknown code rest (all 1), spins-unknown code rest)

-- ===== src/Broker/Listener/Examples.antt =====
-- mbroker/mbroker.c: instances of the theorems on the listener.

use tecnico_fs_so.Prelude.{refl, [], arith, map, ℕ, ◌∷◌, ◌≡◌, ◌≢◌, List, inl, inr, ◌↔◌}
use tecnico_fs_so.Broker.Listener.Requests.{
  AllAsked, Asked, FitsName, FitsPath, IsUnknown, list_boxes, listen-IsUnknown, listen-wire,
  request_of, spinning, wire, with_box,
}
use tecnico_fs_so.Fs.Entries.Names.{IsCString}
use tecnico_fs_so.Broker.Listener.{listen, waits}

abbrev asked : List Asked
asked =
    with_box 3 (b'p' ∷ []) (b'b' ∷ [])
    ∷ list_boxes (b'q' ∷ [])
    ∷ with_box 1 (b'r' ∷ []) (b'b' ∷ [])
    ∷ []

one_byte : (c : ℕ) → c ≢ 0 → IsCString (c ∷ [])
one_byte c ne = (ne, tt)

fits_path : (c : ℕ) → c ≢ 0 → FitsPath (c ∷ [])
fits_path c ne = (one_byte c ne, omega arith)

asked-AllAsked : AllAsked asked
asked-AllAsked =
    let name : FitsName (b'b' ∷ []) = (one_byte b'b' (omega arith), omega arith) in
    (
      (inr (inr (inl refl)), fits_path b'p' (omega arith), name),
      (fits_path b'q' (omega arith), ((inl refl, fits_path b'r' (omega arith), name), tt)),
    )

listen-wire_example :
    listen 4 (wire asked) ≡ record { queued = map request_of asked; ending = waits }
listen-wire_example = listen-wire 4 asked asked-AllAsked (omega arith)

listen-IsUnknown_example : ((fuel : ℕ) → listen fuel (4 ∷ 1 ∷ []) ≡ spinning) ↔ IsUnknown 4
listen-IsUnknown_example = listen-IsUnknown 4 (1 ∷ [])

-- ===== src/Prelude/Bytes.antt =====
-- `memcpy` into and out of an array: overwriting a stretch of a list and reading one back.
use Prim.Native.Nat.{ℕ, zero, suc, ◌+◌, ◌≤◌, max}
use Prim.Native.Nat.add
use mathlib.Core.Path.{◌≡◌, refl, ap}
use mathlib.Core.List.{List, [], ◌∷◌, ◌++◌}
use native.Mathlib.Nat.{add-zero, zero-add}
use native.Mathlib.Omega.{arith}
use tecnico_fs_so.Prelude.Lists.{length, take, drop, length-append, length-take}

module _ {ℓ} {A : Type ℓ} where
  abbrev pub overwrite : List A → List A → List A
  overwrite us [] = us
  overwrite [] (x ∷ xs) = []
  overwrite (a ∷ us) (x ∷ xs) = x ∷ overwrite us xs

  -- `memcpy(us + off, xs, length xs)`.
  abbrev pub put : List A → ℕ → List A → List A
  put us zero xs = overwrite us xs
  put [] (suc off) xs = []
  put (a ∷ us) (suc off) xs = a ∷ put us off xs

  -- `n` elements from `us + off`.
  abbrev pub slice : List A → ℕ → ℕ → List A
  slice us off n = take n (drop off us)

  pub length-overwrite : (us xs : List A) → length (overwrite us xs) ≡ length us
  length-overwrite us [] = refl
  length-overwrite [] (x ∷ xs) = refl
  length-overwrite (a ∷ us) (x ∷ xs) = ap suc (length-overwrite us xs)

  pub length-put : (us : List A) (off : ℕ) (xs : List A) → length (put us off xs) ≡ length us
  length-put us zero xs = length-overwrite us xs
  length-put [] (suc off) xs = refl
  length-put (a ∷ us) (suc off) xs = ap suc (length-put us off xs)

  pub take-overwrite :
      (us xs : List A) → length xs ≤ length us → take (length xs) (overwrite us xs) ≡ xs
  take-overwrite us [] h = refl
  take-overwrite [] (x ∷ xs) h = absurd (omega arith)
  take-overwrite (a ∷ us) (x ∷ xs) h = ap (◌∷◌ x) (take-overwrite us xs (omega arith))

  pub drop-overwrite :
      (k : ℕ) (us xs : List A) → length xs ≤ k → drop k (overwrite us xs) ≡ drop k us
  drop-overwrite k us [] h = refl
  drop-overwrite zero us (x ∷ xs) h = absurd (omega arith)
  drop-overwrite (suc k) [] (x ∷ xs) h = refl
  drop-overwrite (suc k) (a ∷ us) (x ∷ xs) h = drop-overwrite k us xs (omega arith)

  pub drop-put : (off : ℕ) (us xs : List A) → drop off (put us off xs) ≡ overwrite (drop off us) xs
  drop-put zero us xs = refl
  drop-put (suc off) [] [] = refl
  drop-put (suc off) [] (x ∷ xs) = refl
  drop-put (suc off) (a ∷ us) xs = drop-put off us xs

  -- Reading back the stretch that was written.
  pub slice-put_self :
      (us : List A) (off : ℕ) (xs : List A)
      → off + length xs ≤ length us
      → slice (put us off xs) off (length xs) ≡ xs
  slice-put_self us zero xs h = take-overwrite us xs (omega arith)
  slice-put_self [] (suc off) [] h = refl
  slice-put_self [] (suc off) (x ∷ xs) h = absurd (omega arith)
  slice-put_self (a ∷ us) (suc off) xs h = slice-put_self us off xs (omega arith)

  -- What lies before the stretch stays.
  pub take-put_le :
      (k : ℕ) (us : List A) (off : ℕ) (xs : List A) → k ≤ off → take k (put us off xs) ≡ take k us
  take-put_le zero us off xs h = refl
  take-put_le (suc k) us zero xs h = absurd (omega arith)
  take-put_le (suc k) [] (suc off) xs h = refl
  take-put_le (suc k) (a ∷ us) (suc off) xs h = ap (◌∷◌ a) (take-put_le k us off xs (omega arith))

  -- What lies behind it stays.
  pub drop-put_le :
      (k : ℕ) (us : List A) (off : ℕ) (xs : List A)
      → off + length xs ≤ k
      → drop k (put us off xs) ≡ drop k us
  drop-put_le k us zero xs h = drop-overwrite k us xs (omega arith)
  drop-put_le zero us (suc off) xs h = absurd (omega arith)
  drop-put_le (suc k) [] (suc off) xs h = refl
  drop-put_le (suc k) (a ∷ us) (suc off) xs h = drop-put_le k us off xs (omega arith)

  pub drop-put_shift :
      (k : ℕ) (us : List A) (off : ℕ) (xs : List A) {pt : ℕ}
      → pt ≡ k + off
      → drop k (put us pt xs) ≡ put (drop k us) off xs
  drop-put_shift zero us off xs {pt} h = ap (λ o. put us o xs) (omega arith)
  drop-put_shift (suc k) us off xs {pt = zero} h = absurd (omega arith)
  drop-put_shift (suc k) [] zero [] {pt = suc pt} h = refl
  drop-put_shift (suc k) [] zero (x ∷ xs) {pt = suc pt} h = refl
  drop-put_shift (suc k) [] (suc off) xs {pt = suc pt} h = refl
  drop-put_shift (suc k) (a ∷ us) off xs {pt = suc pt} h =
      drop-put_shift k us off xs {pt = pt} (omega arith)

  -- Two neighbouring stretches make one.
  pub take-append-slice :
      (m n : ℕ) (us : List A) {k : ℕ} → k ≡ m + n → take k us ≡ take m us ++ slice us m n
  take-append-slice zero n us {k} h = ap (λ j. take j us) (omega arith)
  take-append-slice (suc m) n us {k = zero} h = absurd (omega arith)
  take-append-slice (suc m) zero [] {k = suc k} h = refl
  take-append-slice (suc m) (suc n) [] {k = suc k} h = refl
  take-append-slice (suc m) n (a ∷ us) {k = suc k} h =
      ap (◌∷◌ a) (take-append-slice m n us {k = k} (omega arith))

  -- The bytes `xs` over those of `us` from `off` on, which may go on behind the end of `us`.
  abbrev pub splice : List A → ℕ → List A → List A
  splice us off xs = take off us ++ (xs ++ drop (off + length xs) us)

  pub put-nil : (us : List A) (off : ℕ) → put us off [] ≡ us
  put-nil us zero = refl
  put-nil [] (suc off) = refl
  put-nil (a ∷ us) (suc off) = ap (◌∷◌ a) (put-nil us off)

  drop-take : (k m : ℕ) (us : List A) → m ≤ k → drop k (take m us) ≡ []
  drop-take zero zero us h = refl
  drop-take (suc k) zero us h = refl
  drop-take zero (suc m) us h = absurd (omega arith)
  drop-take (suc k) (suc m) [] h = refl
  drop-take (suc k) (suc m) (a ∷ us) h = drop-take k m us (omega arith)

  drop-nil : (k : ℕ) → drop {A = A} k [] ≡ []
  drop-nil zero = refl
  drop-nil (suc k) = refl

  pub drop-drop : (k j : ℕ) (us : List A) {m : ℕ} → m ≡ j + k → drop k (drop j us) ≡ drop m us
  drop-drop k zero us h = ap (λ n. drop n us) (omega arith)
  drop-drop k (suc j) us {m = zero} h = absurd (omega arith)
  drop-drop k (suc j) [] {m = suc m} h = drop-nil k
  drop-drop k (suc j) (a ∷ us) {m = suc m} h = drop-drop k j us (omega arith)

  take-overwrite_splice :
      (m size : ℕ) (us xs : List A)
      → m ≡ max size (length xs)
      → length xs ≤ length us
      → take m (overwrite us xs) ≡ xs ++ drop (length xs) (take size us)
  take-overwrite_splice m size us [] e h = ap (λ k. take k us) (omega arith)
  take-overwrite_splice m size [] (x ∷ xs) e h = absurd (omega arith)
  take-overwrite_splice zero size (a ∷ us) (x ∷ xs) e h = absurd (omega arith)
  take-overwrite_splice (suc m) zero (a ∷ us) (x ∷ xs) e h = ap (◌∷◌ x) (
      rw (drop-nil (length xs)) at (take-overwrite_splice m zero us xs (omega arith) (omega arith)))
  take-overwrite_splice (suc m) (suc size) (a ∷ us) (x ∷ xs) e h =
      ap (◌∷◌ x) (take-overwrite_splice m size us xs (omega arith) (omega arith))

  -- Writing into an array of which the first `size` elements count.
  pub take-put-splice :
      (m size off : ℕ) (us xs : List A)
      → m ≡ max size (off + length xs)
      → off ≤ size
      → off + length xs ≤ length us
      → take m (put us off xs) ≡ splice (take size us) off xs
  take-put-splice m size zero us xs e l h =
      rw zero-add (take-overwrite_splice m size us xs (omega arith) (omega arith))
  take-put-splice m size (suc off) [] xs e l h = absurd (omega arith)
  take-put-splice zero size (suc off) (a ∷ us) xs e l h = absurd (omega arith)
  take-put-splice (suc m) zero (suc off) (a ∷ us) xs e l h = absurd (omega arith)
  take-put-splice (suc m) (suc size) (suc off) (a ∷ us) xs e l h =
      rw (add.suc off (length xs))
        (ap (◌∷◌ a) (take-put-splice m size off us xs (omega arith) (omega arith) (omega arith)))

  -- A stretch that lies within the first `size` elements.
  pub slice-take :
      (size off n : ℕ) (us : List A) → off + n ≤ size → slice (take size us) off n ≡ slice us off n
  slice-take zero zero zero us h = refl
  slice-take (suc size) zero zero us h = refl
  slice-take zero zero (suc n) us h = absurd (omega arith)
  slice-take (suc size) zero (suc n) [] h = refl
  slice-take (suc size) zero (suc n) (a ∷ us) h =
      ap (◌∷◌ a) (slice-take size zero n us (omega arith))
  slice-take zero (suc off) n us h = absurd (omega arith)
  slice-take (suc size) (suc off) n [] h = refl
  slice-take (suc size) (suc off) n (a ∷ us) h = slice-take size off n us (omega arith)

  pub length-splice_ge :
      (us : List A) (off : ℕ) (xs : List A)
      → off ≤ length us
      → off + length xs ≤ length (splice us off xs)
  length-splice_ge us off xs h = omega (
    arith,
    length-append (take off us) (xs ++ drop (off + length xs) us),
    length-append xs (drop (off + length xs) us),
    length-take off us,
  )

  take-append_self : (xs ys : List A) → take (length xs) (xs ++ ys) ≡ xs
  take-append_self [] ys = refl
  take-append_self (x ∷ xs) ys = ap (◌∷◌ x) (take-append_self xs ys)

  drop-append_take :
      (off : ℕ) (us ys : List A) → off ≤ length us → drop off (take off us ++ ys) ≡ ys
  drop-append_take zero us ys h = refl
  drop-append_take (suc off) [] ys h = absurd (omega arith)
  drop-append_take (suc off) (a ∷ us) ys h = drop-append_take off us ys (omega arith)

  -- The stretch that was spliced in reads back.
  pub slice-splice :
      (us : List A) (off : ℕ) (xs : List A) (n : ℕ)
      → n ≡ length xs
      → off ≤ length us
      → slice (splice us off xs) off n ≡ xs
  slice-splice us off xs n e h =
      rw (drop-append_take off us (xs ++ drop (off + length xs) us) h, e) (take-append_self xs _)

pub slice-nil {ℓ} : (A : Type ℓ) (off n : ℕ) → slice {A = A} [] off n ≡ []
slice-nil A zero zero = refl
slice-nil A zero (suc n) = refl
slice-nil A (suc off) zero = refl
slice-nil A (suc off) (suc n) = refl

module _ {ℓ} {A : Type ℓ} where
  take-append-drop : (k : ℕ) (us : List A) → take k us ++ drop k us ≡ us
  take-append-drop zero us = refl
  take-append-drop (suc k) [] = refl
  take-append-drop (suc k) (a ∷ us) = ap (◌∷◌ a) (take-append-drop k us)

  -- Splicing in nothing changes nothing.
  pub splice-nil : (us : List A) (off : ℕ) → splice us off [] ≡ us
  splice-nil us off = rw add-zero (take-append-drop off us)

-- ===== src/Prelude/Lists.antt =====
-- Arrays as lists with native indices, and their laws.
use Prim.Native.Nat.{◌≤◌, ℕ, zero, suc, ◌+◌, ◌-◌, ◌<◌, min}
use mathlib.Core.Path.{◌≡◌, refl, ap, sym, ◌∙◌}
use mathlib.Core.Logic.{◌≢◌}
use mathlib.Core.List.{List, [], ◌∷◌, ◌++◌}
use mathlib.Core.Option.{Option, none, some}
use native.Mathlib.Omega.{arith}

module _ {ℓ} {A : Type ℓ} where
  abbrev pub length : List A → ℕ
  length [] = 0
  length (_ ∷ us) = suc (length us)

  abbrev pub get_elem? : List A → ℕ → Option A
  get_elem? [] _ = none
  get_elem? (a ∷ _) zero = some a
  get_elem? (_ ∷ us) (suc k) = get_elem? us k

  -- Out of range nothing is written.
  abbrev pub set : List A → ℕ → A → List A
  set [] _ _ = []
  set (_ ∷ us) zero b = b ∷ us
  set (a ∷ us) (suc k) b = a ∷ set us k b

  abbrev pub take : ℕ → List A → List A
  take zero _ = []
  take (suc k) [] = []
  take (suc k) (a ∷ us) = a ∷ take k us

  abbrev pub drop : ℕ → List A → List A
  drop zero us = us
  drop (suc k) [] = []
  drop (suc k) (_ ∷ us) = drop k us

  abbrev pub replicate : ℕ → A → List A
  replicate zero a = []
  replicate (suc k) a = a ∷ replicate k a

  pub length-set : (us : List A) (k : ℕ) (b : A) → length (set us k b) ≡ length us
  length-set [] k b = refl
  length-set (a ∷ us) zero b = refl
  length-set (a ∷ us) (suc k) b = ap suc (length-set us k b)

  pub get_elem?-set_self :
      (us : List A) (k : ℕ) (b : A) → k < length us → get_elem? (set us k b) k ≡ some b
  get_elem?-set_self [] k b h = absurd (omega arith)
  get_elem?-set_self (a ∷ us) zero b h = refl
  get_elem?-set_self (a ∷ us) (suc k) b h = get_elem?-set_self us k b (omega arith)

  pub get_elem?-set_ne :
      (us : List A) (k j : ℕ) (b : A) → k ≢ j → get_elem? (set us k b) j ≡ get_elem? us j
  get_elem?-set_ne [] k j b h = refl
  get_elem?-set_ne (a ∷ us) zero zero b h = absurd (h refl)
  get_elem?-set_ne (a ∷ us) zero (suc j) b h = refl
  get_elem?-set_ne (a ∷ us) (suc k) zero b h = refl
  get_elem?-set_ne (a ∷ us) (suc k) (suc j) b h = get_elem?-set_ne us k j b (λ e. h (ap suc e))

  pub get_elem?-some : (us : List A) (k : ℕ) → k < length us → (a : A) × (get_elem? us k ≡ some a)
  get_elem?-some [] k h = absurd (omega arith)
  get_elem?-some (a ∷ us) zero h = (a, refl)
  get_elem?-some (a ∷ us) (suc k) h = get_elem?-some us k (omega arith)

  pub lt_of_get_elem? : (us : List A) (k : ℕ) (a : A) → get_elem? us k ≡ some a → k < length us
  lt_of_get_elem? [] k a h = cc
  lt_of_get_elem? (b ∷ us) zero a h = omega arith
  lt_of_get_elem? (b ∷ us) (suc k) a h = omega (arith, lt_of_get_elem? us k a h)

  pub length-take : (n : ℕ) (us : List A) → length (take n us) ≡ min n (length us)
  length-take zero us = omega arith
  length-take (suc n) [] = omega arith
  length-take (suc n) (a ∷ us) = omega (arith, length-take n us)

  pub length-drop : (n : ℕ) (us : List A) → length (drop n us) ≡ length us - n
  length-drop zero us = omega arith
  length-drop (suc n) [] = omega arith
  length-drop (suc n) (a ∷ us) = omega (arith, length-drop n us)

  pub length-append : (us bs : List A) → length (us ++ bs) ≡ length us + length bs
  length-append [] bs = omega arith
  length-append (a ∷ us) bs = omega (arith, length-append us bs)

  pub length-replicate : (n : ℕ) (a : A) → length (replicate n a) ≡ n
  length-replicate zero a = refl
  length-replicate (suc n) a = ap suc (length-replicate n a)

  pub set-set : (us : List A) (k : ℕ) (a b : A) → set (set us k a) k b ≡ set us k b
  set-set [] k a b = refl
  set-set (u ∷ us) zero a b = refl
  set-set (u ∷ us) (suc k) a b = ap (◌∷◌ u) (set-set us k a b)

  pub take_zero_of : (n : ℕ) (us : List A) → n ≡ 0 → take n us ≡ []
  take_zero_of zero us h = refl
  take_zero_of (suc n) us h = absurd (omega arith)

  -- Writing what is there.
  pub set_self : (us : List A) (k : ℕ) (a : A) → get_elem? us k ≡ some a → set us k a ≡ us
  set_self [] k a e = refl
  set_self (u ∷ us) zero a e = ground arith
  set_self (u ∷ us) (suc k) a e = ap (◌∷◌ u) (set_self us k a e)

  pub append_assoc : (us bs cs : List A) → (us ++ bs) ++ cs ≡ us ++ (bs ++ cs)
  append_assoc [] bs cs = refl
  append_assoc (a ∷ us) bs cs = ap (◌∷◌ a) (append_assoc us bs cs)

  pub append_nil : (us : List A) → us ++ [] ≡ us
  append_nil [] = refl
  append_nil (a ∷ us) = ap (◌∷◌ a) (append_nil us)

  pub take_all : (us : List A) (n : ℕ) → length us ≤ n → take n us ≡ us
  take_all [] zero h = refl
  take_all [] (suc n) h = refl
  take_all (a ∷ us) zero h = absurd (omega arith)
  take_all (a ∷ us) (suc n) h = ap (◌∷◌ a) (take_all us n (omega arith))

  pub drop_all : (us : List A) (n : ℕ) → length us ≤ n → drop n us ≡ []
  drop_all [] zero h = refl
  drop_all [] (suc n) h = refl
  drop_all (a ∷ us) zero h = absurd (omega arith)
  drop_all (a ∷ us) (suc n) h = drop_all us n (omega arith)

  abbrev pub concat : List (List A) → List A
  concat [] = []
  concat (us ∷ uss) = us ++ concat uss

  pub concat_append : (uss bss : List (List A)) → concat (uss ++ bss) ≡ concat uss ++ concat bss
  concat_append [] bss = refl
  concat_append (us ∷ uss) bss =
      ap (λ x. us ++ x) (concat_append uss bss) ∙ sym (append_assoc us (concat uss) (concat bss))

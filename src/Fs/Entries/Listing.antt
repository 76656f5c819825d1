-- ===== src/Fs/Entries/Listing.antt =====
-- Searching the entries of a directory, fs/state.c: which entry a loop stops at, and what a change
-- of one entry does to later searches.
use tecnico_fs_so.Prelude.{
  ℕ, refl, Bool, Bool-cases, List, Option, [], ap, arith, false, get_elem?, inl, inr, length, none,
  set, some, suc, sym, true, zero, ◌<◌, ◌∙◌, ◌∷◌, ◌≡◌,
}
use tecnico_fs_so.Fs.Entries.{find_first, shift}

-- The entry at which a search stops.
pub record Hit {ℓ} {A : Type ℓ} (p : A → Bool) (us : List A) (i : ℕ) (a : A) : Type ℓ where
  pub at_index : get_elem? us i ≡ some a
  pub passes : p a ≡ true

module _ {ℓ} {A : Type ℓ} (p : A → Bool) where
  pub find_first-hit : (u : A) (us : List A) → p u ≡ true → find_first p (u ∷ us) ≡ some (0, u)
  unfolding find_first
  find_first-hit u us h = rw h

  pub find_first-miss :
      (u : A) (us : List A) → p u ≡ false → find_first p (u ∷ us) ≡ shift (find_first p us)
  unfolding find_first
  find_first-miss u us h = rw h

  shift-none : (o : Option (ℕ × A)) → shift o ≡ none → o ≡ none
  shift-none none e = refl
  shift-none (some (i, a)) e = cc

  -- No entry passes: the first does not, and no later one does.
  pub find_first-none :
      (u : A) (us : List A)
      → find_first p (u ∷ us) ≡ none
      → (p u ≡ false) × (find_first p us ≡ none)
  find_first-none u us e = elim (Bool-cases (p u)) [
    | inl hit ↦ let wrong = sym (find_first-hit u us hit) ∙ e in cc
    | inr miss ↦ (miss, shift-none (find_first p us) (sym (find_first-miss u us miss) ∙ e))
  ]

  pub find_first-set_fresh :
      (us : List A) (i : ℕ) (a : A)
      → find_first p us ≡ none
      → i < length us
      → p a ≡ true
      → find_first p (set us i a) ≡ some (i, a)
  find_first-set_fresh [] i a e lt h = absurd (omega arith)
  find_first-set_fresh (u ∷ us) zero a e lt h = find_first-hit a us h
  find_first-set_fresh (u ∷ us) (suc i) a e lt h =
      let (miss, rest) = find_first-none u us e in
      find_first-miss u (set us i a) miss
      ∙ ap shift (find_first-set_fresh us i a rest (omega arith) h)

  pub find_first-set_other :
      (us : List A) (i : ℕ) (a old : A)
      → get_elem? us i ≡ some old
      → p old ≡ false
      → p a ≡ false
      → find_first p (set us i a) ≡ find_first p us
  find_first-set_other [] i a old e h k = refl
  find_first-set_other (u ∷ us) zero a old e h k =
      let same : u ≡ old = ground arith in
      find_first-miss a us k ∙ sym (find_first-miss u us (rw same h))
  find_first-set_other (u ∷ us) (suc i) a old e h k =
      let later = find_first-set_other us i a old e h k in
      elim (Bool-cases (p u)) [
        | inl hit ↦ find_first-hit u (set us i a) hit ∙ sym (find_first-hit u us hit)
        | inr miss ↦
            find_first-miss u (set us i a) miss ∙ (ap shift later ∙ sym (find_first-miss u us miss))
      ]

  -- What a search that stops has found.
  pub data Found : List A → Option (ℕ × A) → Type ℓ where
    here : {u : A} {us : List A} → p u ≡ true → Found (u ∷ us) (some (0, u))
    later :
        {u : A} {us : List A} {i : ℕ} {a : A}
        → p u ≡ false
        → Found us (some (i, a))
        → Found (u ∷ us) (some (suc i, a))
    nowhere : {us : List A} → find_first p us ≡ none → Found us none

  shift-Found :
      {u : A} {us : List A} {o : Option (ℕ × A)}
      → p u ≡ false
      → find_first p us ≡ o
      → Found us o
      → Found (u ∷ us) (shift o)
  shift-Found {u} {us} {o = none} miss e f = nowhere (find_first-miss u us miss ∙ ap shift e)
  shift-Found {u} {us} {o = some (i, a)} miss e f = later miss f

  pub find_first-Found : (us : List A) → Found us (find_first p us)
  unfolding find_first
  find_first-Found [] = nowhere refl
  find_first-Found (u ∷ us) = elim (Bool-cases (p u)) [
    | inl hit ↦ rw hit (here hit)
    | inr miss ↦ rw miss (shift-Found miss refl (find_first-Found us))
  ]

  pub Found-Hit : {us : List A} {i : ℕ} {a : A} → Found us (some (i, a)) → Hit p us i a
  Found-Hit (here h) = record { at_index = refl; passes = h }
  Found-Hit (later miss f) =
      let hit = Found-Hit f in record { at_index = hit.at_index; passes = hit.passes }

-- ===== src/Pcq/Segment.antt =====
-- producer-consumer/: the elements in the circular buffer, from a place onwards.
use native.Mathlib.Nat.{mod_self, mod-eq_of_lt}
use tecnico_fs_so.Prelude.{
  ℕ, List, [], arith, get_elem?, get_elem?-set_ne, inl, inr, length, set, some, suc, ◌%◌, ◌++◌, ◌+◌,
  ◌<◌, ◌∙◌, ◌∷◌, ◌≡◌, ◌≤◌, ◌⊎◌, Bool-cases, ltb, ltb_false→le, ltb→lt,
}

-- The place behind `i`.
abbrev pub next : ℕ → ℕ → ℕ
next cap i = (i + 1) % cap

-- These elements stand in the buffer from place `i` on.
abbrev pub Segment : {A : Type 0} → List A → ℕ → ℕ → List A → Type 0
Segment buffer cap i [] = Unit {0}
Segment buffer cap i (x ∷ xs) = (get_elem? buffer i ≡ some x) × Segment buffer cap (next cap i) xs

-- Place `j` is `n` places behind `i`.
abbrev pub Behind : ℕ → ℕ → ℕ → ℕ → Type 0
Behind cap i n j = (j ≡ i + n) ⊎ (j + cap ≡ i + n)

pub next_cases :
    (cap i : ℕ)
    → i < cap
    → ((i + 1 < cap) × (next cap i ≡ i + 1)) ⊎ ((i + 1 ≡ cap) × (next cap i ≡ 0))
next_cases cap i lt = elim (Bool-cases (ltb (i + 1) cap)) [
  | inl e ↦ let a = ltb→lt (i + 1) cap e in inl (a, mod-eq_of_lt a)
  | inr e ↦
      let a : i + 1 ≡ cap = omega (arith, ltb_false→le (i + 1) cap e) in
      inr (a, rw a (mod_self cap))
]

pub next_lt : (cap i : ℕ) → i < cap → next cap i < cap
next_lt cap i lt = elim (next_cases cap i lt) [
  | inl (a, e) ↦ omega arith
  | inr (a, e) ↦ omega arith
]

pub Behind-step :
    (cap i n j : ℕ)
    → i < cap
    → j < cap
    → suc n ≤ cap
    → Behind cap i (suc n) j
    → Behind cap (next cap i) n j
Behind-step cap i n j lt lt' le b = elim (next_cases cap i lt) [
  | inl (a, e) ↦ ground arith
  | inr (a, e) ↦ ground arith
]

pub Behind-next :
    (cap i n j : ℕ)
    → i < cap
    → j < cap
    → n < cap
    → Behind cap i n j
    → Behind cap i (n + 1) (next cap j)
Behind-next cap i n j lt lt' le b = elim (next_cases cap j lt') [
  | inl (a, e) ↦ ground arith
  | inr (a, e) ↦ ground arith
]

-- Storing an element behind a segment that leaves room changes nothing in it.
pub Segment-set :
    {A : Type 0} (buffer : List A) (cap i j : ℕ) (xs : List A) (a : A)
    → i < cap
    → j < cap
    → length xs < cap
    → Behind cap i (length xs) j
    → Segment buffer cap i xs
    → Segment (set buffer j a) cap i xs
Segment-set buffer cap i j [] a lt lt' room b s = tt
Segment-set buffer cap i j (x ∷ xs) a lt lt' room b (e, s) = (
  get_elem?-set_ne buffer j i a (λ same. ground arith) ∙ e,
  Segment-set buffer cap (next cap i) j xs a (next_lt cap i lt) lt' (omega arith)
      (Behind-step cap i (length xs) j lt lt' (omega arith) b) s,
)

pub Segment-append :
    {A : Type 0} (buffer : List A) (cap i j : ℕ) (xs : List A) (a : A)
    → i < cap
    → j < cap
    → length xs < cap
    → Behind cap i (length xs) j
    → get_elem? buffer j ≡ some a
    → Segment buffer cap i xs
    → Segment buffer cap i (xs ++ a ∷ [])
Segment-append buffer cap i j [] a lt lt' room b e s =
    let same : j ≡ i = ground arith in (rw same at e, tt)
Segment-append buffer cap i j (x ∷ xs) a lt lt' room b e (h, s) = (
  h,
  Segment-append buffer cap (next cap i) j xs a (next_lt cap i lt) lt' (omega arith)
      (Behind-step cap i (length xs) j lt lt' (omega arith) b) e s,
)

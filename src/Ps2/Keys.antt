-- ===== src/Ps2/Keys.antt =====
-- Which scan codes `find_key` of src/drivers/ps2.cpp knows, and where it reads past its table.
use littlevisor.Base.{
  ℕ, zero, suc, ◌+◌, ◌-◌, ◌≤◌, ◌<◌, ◌≡◌, refl, sym, ap, ◌∙◌, ◌≢◌, ◌⊎◌, inl, inr, false, Option,
  none, some, List, [], ◌∷◌, length, get_elem?, ◌==◌, arith, Bool-cases, ==_iff,
}
use native.Mathlib.Decide.{ℕ_discrete}
use mathlib.Core.Logic.{◌↔◌}
use littlevisor.Ps2.{scan_codes, keys, find_code, find_key}

-- Index `i` is the first place of a code in the table, from place `from` on.
abbrev pub FirstAt : List ℕ → ℕ → ℕ → Type 0
FirstAt codes code i =
    (get_elem? codes i ≡ some code) × ((k : ℕ) → k < i → get_elem? codes k ≢ some code)

-- What the search answers, `from` being the index of the first code that is left.
Search : List ℕ → ℕ → ℕ → Option ℕ → Type 0
Search codes from code none = (k : ℕ) → get_elem? codes k ≢ some code
Search codes from code (some i) = (j : ℕ) × (i ≡ from + j) × FirstAt codes code j

some-injective : (a b : ℕ) → some a ≡ some b → a ≡ b
some-injective a b e = ground arith

absent :
    (c : ℕ) (codes : List ℕ) (code k : ℕ)
    → (c == code) ≡ false
    → (0 < k → get_elem? codes (k - 1) ≢ some code)
    → get_elem? (c ∷ codes) k ≢ some code
absent c codes code zero ne rest = λ e. ground (arith, some-injective c code e)
absent c codes code (suc k) ne rest =
    λ e. rest (omega arith) (ap (get_elem? codes) {x = suc k - 1} {y = k} (omega arith) ∙ e)

find_code-Search :
    (codes : List ℕ) (from code : ℕ) → Search codes from code (find_code codes from code)
unfolding find_code Search
find_code-Search [] from code = λ k e. ground arith
find_code-Search (c ∷ codes) from code = elim (Bool-cases (c == code)) [
  | inl e ↦ rw e (0, omega arith, (ap some ((==_iff c code).0 e), λ k h. absurd (omega arith)))
  | inr ne ↦
      rw ne (step ne (find_code codes (from + 1) code) (find_code-Search codes (from + 1) code))
]
  where
    step :
        (c == code) ≡ false
        → (r : Option ℕ) → Search codes (from + 1) code r
        → Search (c ∷ codes) from code r
    step ne none all = λ k. absent c codes code k ne (λ h. all (k - 1))
    step ne (some i) (j, at, (here, before)) = (
      suc j,
      omega arith,
      (here, λ k h. absent c codes code k ne (λ p. before (k - 1) (omega arith))),
    )

get_elem?-none : (xs : List ℕ) (i : ℕ) → get_elem? xs i ≡ none → length xs ≤ i
get_elem?-none [] i e = omega arith
get_elem?-none (x ∷ xs) zero e = absurd (ground arith)
get_elem?-none (x ∷ xs) (suc i) e = omega (arith, get_elem?-none xs i e)

get_elem?-some : (xs : List ℕ) (i x : ℕ) → get_elem? xs i ≡ some x → i < length xs
get_elem?-some [] i x e = absurd (ground arith)
get_elem?-some (y ∷ xs) zero x e = omega arith
get_elem?-some (y ∷ xs) (suc i) x e = omega (arith, get_elem?-some xs i x e)

-- What `find_key` answers: the key at the first place of the code, which is a read past the table for
-- a place that has no key, and 0 for a code with no place.
pub Lookup : ℕ → Option ℕ → Type 0
Lookup code r =
    ((i : ℕ) × (FirstAt scan_codes code i × (r ≡ get_elem? keys i)))
    ⊎ ((r ≡ some 0) × ((k : ℕ) → get_elem? scan_codes k ≢ some code))

-- `find_key` answers the key at the first place of the code in the table, and 0 for a code that the
-- table does not hold.
pub find_key-Lookup : (code : ℕ) → Lookup code (find_key code)
unfolding find_key Lookup Search
find_key-Lookup code = answer (find_code scan_codes 0 code) (find_code-Search scan_codes 0 code)
  where
    answer :
        (r : Option ℕ)
        → Search scan_codes 0 code r
        → Lookup code (elim r [ some i ↦ get_elem? keys i | none ↦ some 0 ])
    answer none all = inr (refl, all)
    answer (some i) (j, at, first) =
        inl (
          j,
          (first, ap (get_elem? keys) at ∙ ap (get_elem? keys) {x = 0 + j} {y = j} (omega arith)),
        )

-- `find_key` reads past the end of `keys` for the scan codes 0x5E, 0x5F and 0x62, and for no other.
pub find_key_overrun :
    (code : ℕ) → (find_key code ≡ none) ↔ ((code ≡ 0x5E) ⊎ (code ≡ 0x5F) ⊎ (code ≡ 0x62))
unfolding Lookup find_key find_code
find_key_overrun code = (to (find_key-Lookup code), back)
  where
    no_key : ◌≢◌ {A = Option ℕ} none (some 0)
    no_key e = ground arith

    place :
        (i : ℕ)
        → 100 ≤ i
        → i < 103
        → get_elem? scan_codes i ≡ some code
        → (code ≡ 0x5E) ⊎ (code ≡ 0x5F) ⊎ (code ≡ 0x62)
    place i lo hi at = elim (ℕ_discrete i 100) [
      | yes e ↦ inl (some-injective code 94 (sym at ∙ ap (get_elem? scan_codes) e))
      | no a ↦ elim (ℕ_discrete i 101) [
        | yes e ↦ inr (inl (some-injective code 95 (sym at ∙ ap (get_elem? scan_codes) e)))
        | no b ↦ inr (
            inr (
              some-injective code 0x62
                (sym at ∙ ap (get_elem? scan_codes) {x = i} {y = 102} (omega arith))))
      ]
    ]

    to :
        Lookup code (find_key code)
        → find_key code ≡ none
        → (code ≡ 0x5E) ⊎ (code ≡ 0x5F) ⊎ (code ≡ 0x62)
    to (inl (i, (first, r))) e =
        place i (get_elem?-none keys i (sym r ∙ e)) (get_elem?-some scan_codes i code first.0)
          first.0
    to (inr (r, all)) e = absurd (no_key (sym e ∙ r))

    back : (code ≡ 0x5E) ⊎ (code ≡ 0x5F) ⊎ (code ≡ 0x62) → find_key code ≡ none
    back (inl e) = ap find_key e ∙ refl
    back (inr (inl e)) = ap find_key e ∙ refl
    back (inr (inr e)) = ap find_key e ∙ refl

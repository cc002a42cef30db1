-- ===== src/Page/Child.antt =====
-- The search for a child in a page with ascending separators.
use prehnite_db.Prelude.{
  ℕ, zero, suc, ◌+◌, ◌-◌, ◌/◌, ◌≤◌, ◌<◌, ◌≡◌, ◌⊎◌, inl, inr, refl, Bool, true, false, List, some,
  Ordering, ltb, length, arith, Bool-cases,
}
use mathlib.Core.Path.{subst}
use prehnite_db.Bytes.{Bytes, cmp}
use prehnite_db.Page.{key_at, child_search, find_child}
use prehnite_db.Page.Search.{IsAscending, Above, Above-mid, Ordering-cases}

abbrev pub at_most : Bytes → Bytes → Bool
at_most a b = elim (cmp a b) [ Ordering.gt ↦ false | _ ↦ true ]

-- The last cell whose separator is at most the key; cell 0 if there is none.
abbrev pub IsChild : List Bytes → Bytes → ℕ → Type 0
IsChild keys key i =
    (((i < length keys) × (at_most (key_at i keys) key ≡ true)) ⊎ ((i ≡ 0) × Above 0 keys key))
    × Above (i + 1) keys key

-- What is known of the cell in front of `lo`.
abbrev InFront : ℕ → List Bytes → Bytes → Type 0
InFront zero keys key = Unit
InFront (suc i) keys key = (i < length keys) × (at_most (key_at i keys) key ≡ true)

end_IsChild :
    (lo : ℕ) (keys : List Bytes) (key : Bytes)
    → InFront lo keys key
    → Above lo keys key
    → IsChild keys key (lo - 1)
end_IsChild zero keys key front above = (inr (refl, above), λ j le less. above j (omega arith) less)
end_IsChild (suc i) keys key front above =
    let at : suc i - 1 ≡ i = omega arith in
    rw at (inl front, λ j le less. above j (omega (arith, le)) less)

child_search-IsChild :
    (fuel lo hi : ℕ) (keys : List Bytes) (key : Bytes)
    → IsAscending keys
    → lo ≤ hi
    → hi ≤ length keys
    → hi - lo < fuel
    → InFront lo keys key
    → Above hi keys key
    → (i : ℕ) × ((child_search fuel lo hi keys key ≡ some i) × IsChild keys key i)
unfolding child_search
child_search-IsChild zero lo hi keys key h order inside enough front above =
    absurd (omega (arith, enough))
child_search-IsChild (suc fuel) lo hi keys key h order inside enough front above =
    elim (Bool-cases (ltb lo hi)) [
      | inr empty ↦
          let at : hi ≡ lo = ground arith in
          rw (empty, child_search) (lo - 1, (refl, end_IsChild lo keys key front (rw at at above)))
      | inl some_left ↦
          let mid = (lo + hi) / 2 in
          let lt : lo < hi = ground arith in
          let next : suc mid ≡ mid + 1 = omega arith in
          let right = λ (le : at_most (key_at mid keys) key ≡ true).
            child_search-IsChild fuel (mid + 1) hi keys key h (omega (arith, lt)) inside
              (omega (arith, lt))
              (subst (λ (n : ℕ). InFront n keys key) next (omega (arith, lt, inside), le)) above in
          elim (Ordering-cases (cmp (key_at mid keys) key)) [
            | inl less ↦ rw (some_left, less, child_search) (right (rw (at_most, less) refl))
            | inr (inl same) ↦ rw (some_left, same, child_search) (right (rw (at_most, same) refl))
            | inr (inr more) ↦
                rw (some_left, more, child_search)
                  (child_search-IsChild fuel lo mid keys key h (omega (arith, lt))
                    (omega (arith, inside, lt)) (omega (arith, lt)) front
                    (Above-mid keys key mid h more))
          ]
    ]

-- In an interior node with ascending separators the search ends with the last cell of the node whose
-- separator is at most the key, or with cell 0 if the key precedes every separator.
pub find_child-IsChild :
    (keys : List Bytes) (key : Bytes)
    → IsAscending keys
    → (i : ℕ) × ((find_child keys key ≡ some i) × IsChild keys key i)
unfolding find_child
find_child-IsChild keys key h =
    child_search-IsChild (suc (length keys)) 0 (length keys) keys key h (omega arith) (omega arith)
      (omega arith) tt (λ j most less. absurd (omega (arith, most, less)))

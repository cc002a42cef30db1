-- ===== src/Page/Search.antt =====
-- The searches in a page with ascending keys.
use prehnite_db.Prelude.{
  ℕ, zero, suc, ◌+◌, ◌-◌, ◌/◌, ◌≤◌, ◌<◌, ◌≡◌, ◌⊎◌, inl, inr, refl, List, [], ◌∷◌, some, Ordering,
  ltb, length, arith, Bool-cases,
}
use prehnite_db.Bytes.{Bytes, cmp}
use prehnite_db.Ssi.Locks.{cmp→eq}
use prehnite_db.Page.{Slot, found, absent, key_at, leaf_search, find_leaf_slot}

cmp-lt_trans :
    (a b c : Bytes) → cmp a b ≡ Ordering.lt → cmp b c ≡ Ordering.lt → cmp a c ≡ Ordering.lt
unfolding cmp
cmp-lt_trans [] [] c h k = ground arith
cmp-lt_trans [] (b ∷ y) [] h k = ground arith
cmp-lt_trans [] (b ∷ y) (c ∷ z) h k = refl
cmp-lt_trans (a ∷ x) [] c h k = ground arith
cmp-lt_trans (a ∷ x) (b ∷ y) [] h k = ground arith
cmp-lt_trans (a ∷ x) (b ∷ y) (c ∷ z) h k = ground (arith, cmp-lt_trans x y z)

cmp-gt_trans :
    (a b c : Bytes) → cmp a c ≡ Ordering.gt → cmp a b ≡ Ordering.lt → cmp b c ≡ Ordering.gt
unfolding cmp
cmp-gt_trans [] b [] h k = ground arith
cmp-gt_trans [] b (c ∷ z) h k = ground arith
cmp-gt_trans (a ∷ x) [] c h k = ground arith
cmp-gt_trans (a ∷ x) (b ∷ y) [] h k = refl
cmp-gt_trans (a ∷ x) (b ∷ y) (c ∷ z) h k = ground (arith, cmp-gt_trans x y z)

-- The keys ascend.
abbrev pub IsAscending : List Bytes → Type 0
IsAscending keys =
    (i j : ℕ) → i < j → j < length keys → cmp (key_at i keys) (key_at j keys) ≡ Ordering.lt

-- The cells before a place have smaller keys, the cells from a place on greater ones.
abbrev pub Below : ℕ → List Bytes → Bytes → Type 0
Below lo keys key = (j : ℕ) → j < lo → cmp (key_at j keys) key ≡ Ordering.lt

abbrev pub Above : ℕ → List Bytes → Bytes → Type 0
Above hi keys key = (j : ℕ) → hi ≤ j → j < length keys → cmp (key_at j keys) key ≡ Ordering.gt

abbrev pub IsPlace : List Bytes → Bytes → Slot → Type 0
IsPlace keys key (found i) = (i < length keys) × (key_at i keys ≡ key)
IsPlace keys key (absent i) = (i ≤ length keys) × (Below i keys key × Above i keys key)

Below-mid :
    (keys : List Bytes) (key : Bytes) (mid : ℕ)
    → IsAscending keys
    → mid < length keys
    → cmp (key_at mid keys) key ≡ Ordering.lt
    → Below (mid + 1) keys key
Below-mid keys key mid h k e j le = elim (Bool-cases (ltb j mid)) [
  | inl less ↦ cmp-lt_trans (key_at j keys) (key_at mid keys) key (h j mid (ground arith) k) e
  | inr same ↦ let at : j ≡ mid = ground arith in rw at e
]

pub Above-mid :
    (keys : List Bytes) (key : Bytes) (mid : ℕ)
    → IsAscending keys
    → cmp (key_at mid keys) key ≡ Ordering.gt
    → Above mid keys key
Above-mid keys key mid h e j le k = elim (Bool-cases (ltb mid j)) [
  | inl more ↦ cmp-gt_trans (key_at mid keys) (key_at j keys) key e (h mid j (ground arith) k)
  | inr same ↦ let at : j ≡ mid = ground arith in rw at e
]

pub Ordering-cases : (o : Ordering) → (o ≡ Ordering.lt) ⊎ ((o ≡ Ordering.eq) ⊎ (o ≡ Ordering.gt))
Ordering-cases Ordering.lt = inl refl
Ordering-cases Ordering.eq = inr (inl refl)
Ordering-cases Ordering.gt = inr (inr refl)

leaf_search-IsPlace :
    (fuel lo hi : ℕ) (keys : List Bytes) (key : Bytes)
    → IsAscending keys
    → lo ≤ hi
    → hi ≤ length keys
    → hi - lo < fuel
    → Below lo keys key
    → Above hi keys key
    → (slot : Slot) × ((leaf_search fuel lo hi keys key ≡ some slot) × IsPlace keys key slot)
unfolding leaf_search
leaf_search-IsPlace zero lo hi keys key h order inside enough below above =
    absurd (omega (arith, enough))
leaf_search-IsPlace (suc fuel) lo hi keys key h order inside enough below above =
    elim (Bool-cases (ltb lo hi)) [
      | inr empty ↦
          let at : lo ≡ hi = ground arith in
          rw (empty, leaf_search) (absent lo, (refl, (omega (arith, at), (below, rw at above))))
      | inl some_left ↦
          let mid = (lo + hi) / 2 in
          let lt : lo < hi = ground arith in
          let k : mid < length keys = omega (arith, lt) in
          elim (Ordering-cases (cmp (key_at mid keys) key)) [
            | inl less ↦
                rw (some_left, less, leaf_search)
                  (leaf_search-IsPlace fuel (mid + 1) hi keys key h (omega (arith, lt)) inside
                    (omega (arith, lt)) (Below-mid keys key mid h k less) above)
            | inr (inl same) ↦
                rw (some_left, same, leaf_search)
                  (found mid, (refl, (k, cmp→eq (key_at mid keys) key same)))
            | inr (inr more) ↦
                rw (some_left, more, leaf_search)
                  (leaf_search-IsPlace fuel lo mid keys key h (omega (arith, lt)) (omega (arith, k))
                    (omega (arith, lt)) below (Above-mid keys key mid h more))
          ]
    ]

-- In a leaf with ascending keys the search ends: with a slot that has the key, or with the place
-- before which all keys are smaller and from which on all are greater.
pub find_leaf_slot-IsPlace :
    (keys : List Bytes) (key : Bytes)
    → IsAscending keys
    → (slot : Slot) × ((find_leaf_slot keys key ≡ some slot) × IsPlace keys key slot)
unfolding find_leaf_slot
find_leaf_slot-IsPlace keys key h =
    leaf_search-IsPlace (suc (length keys)) 0 (length keys) keys key h (omega arith) (omega arith)
      (omega arith) (λ j less. absurd (omega (arith, less)))
      (λ j most less. absurd (omega (arith, most, less)))

-- ===== src/Examples/Trees.antt =====
-- The B+tree at work: a node with skewed cells is split, and pages are searched.
use prehnite_db.Prelude.{ℕ, zero, suc, ◌≤◌, some, ◌≡◌, refl, List, ◌∷◌, [], arith}
use prehnite_db.Bytes.{Bytes, cmp}
use prehnite_db.Page.{Slot, absent, find_leaf_slot, find_child}
use prehnite_db.Page.Search.{IsAscending, IsPlace, find_leaf_slot-IsPlace}
use prehnite_db.Page.Child.{IsChild, find_child-IsChild}
use prehnite_db.Btree.{split_index, sum}
use prehnite_db.Btree.Split.{IsSplit, split_index-IsSplit}

-- The balanced cut leaves too much on the right, so the largest prefix that fits is taken.
abbrev skewed : List ℕ
skewed = 20 ∷ 2040 ∷ 2030 ∷ 2020 ∷ []

split_index-skewed : split_index skewed ≡ 2
unfolding split_index
split_index-skewed = refl

split_index_uniform : split_index (100 ∷ 100 ∷ 100 ∷ 100 ∷ []) ≡ 2
unfolding split_index
split_index_uniform = refl

skewed_total : sum skewed ≤ 6120
unfolding sum
skewed_total = omega arith

split_index-IsSplit_example : IsSplit skewed (split_index skewed)
split_index-IsSplit_example =
    split_index-IsSplit skewed (omega arith, (omega arith, (omega arith, (omega arith, tt))))
      (omega arith) skewed_total

abbrev two_keys : List Bytes
two_keys = (1 ∷ []) ∷ (3 ∷ []) ∷ []

two_keys-IsAscending : IsAscending two_keys
unfolding cmp
two_keys-IsAscending zero zero h k = absurd (omega (arith, h))
two_keys-IsAscending zero (suc zero) h k = refl
two_keys-IsAscending zero (suc (suc j)) h k = absurd (omega (arith, k))
two_keys-IsAscending (suc i) zero h k = absurd (omega (arith, h))
two_keys-IsAscending (suc i) (suc zero) h k = absurd (omega (arith, h))
two_keys-IsAscending (suc i) (suc (suc j)) h k = absurd (omega (arith, k))

find_leaf_slot_between : find_leaf_slot two_keys (2 ∷ []) ≡ some (absent 1)
unfolding find_leaf_slot cmp
find_leaf_slot_between = refl

find_leaf_slot-IsPlace_example :
    (slot : Slot) × ((find_leaf_slot two_keys (3 ∷ []) ≡ some slot)
      × IsPlace two_keys (3 ∷ []) slot)
find_leaf_slot-IsPlace_example = find_leaf_slot-IsPlace two_keys (3 ∷ []) two_keys-IsAscending

find_child-IsChild_example :
    (i : ℕ) × ((find_child two_keys (2 ∷ []) ≡ some i) × IsChild two_keys (2 ∷ []) i)
find_child-IsChild_example = find_child-IsChild two_keys (2 ∷ []) two_keys-IsAscending

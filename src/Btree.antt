-- ===== src/Btree.antt =====
-- crates/prehnitedb/src/storage/btree.rs and page.rs: the sizes of cells, and where a node that has
-- overflown is split.
pub mod Split
use prehnite_db.Prelude.{
  ℕ, zero, suc, ◌+◌, ◌-◌, ◌*◌, ◌/◌, Bool, ◌&&◌, List, [], ◌∷◌, Option, none, some, ltb, leb,
  if◌then◌else◌, length, max,
}
use prehnite_db.Bytes.{Bytes}

-- `PAGE_SIZE - HEADER_SIZE`
abbrev pub usable : ℕ
usable = 4096 - 16

abbrev pub max_cell : ℕ
max_cell = usable / 2 - 2

abbrev pub slot_size : ℕ
slot_size = 2

abbrev pub leaf_cell_overhead : ℕ
leaf_cell_overhead = 6

abbrev pub internal_cell_header : ℕ
internal_cell_header = 6

unfoldable pub leaf_footprint : Bytes → Bytes → ℕ
leaf_footprint key value = slot_size + leaf_cell_overhead + length key + length value

unfoldable pub internal_footprint : Bytes → ℕ
internal_footprint key = slot_size + internal_cell_header + length key

-- `iter().sum()`
unfoldable pub sum : List ℕ → ℕ
sum [] = 0
sum (fp ∷ footprints) = fp + sum footprints

-- The first loop: the smallest prefix with half of the bytes, as its length and its bytes.
balanced_cut : ℕ → ℕ → ℕ → List ℕ → Option (ℕ × ℕ)
balanced_cut total i acc [] = none
balanced_cut total i acc (fp ∷ footprints) =
    let rest = balanced_cut total (i + 1) (acc + fp) footprints in
    if leb total ((acc + fp) * 2) then some (i + 1, acc + fp) else rest

-- The second loop: the largest prefix that fits.
fitting_cut : ℕ → ℕ → ℕ → List ℕ → ℕ
fitting_cut i acc s [] = s
fitting_cut i acc s (fp ∷ footprints) =
    let rest = fitting_cut (i + 1) (acc + fp) (i + 1) footprints in
    if ltb usable (acc + fp) then s else rest

-- `s.clamp(1, n - 1)`
abbrev pub clamped : ℕ → ℕ → ℕ
clamped s n = if ltb s 1 then 1 else if ltb (n - 1) s then n - 1 else s

unfoldable pub split_index : List ℕ → ℕ
unfolding sum balanced_cut fitting_cut
split_index footprints =
    let total = sum footprints in
    let n = length footprints in
    let fallback = clamped (fitting_cut 0 0 0 footprints) n in
    elim (balanced_cut total 0 0 footprints) [
      | none ↦ fallback
      | some (balanced, acc) ↦
          if ltb balanced n && (leb acc usable && leb (total - acc) usable)
          then balanced
          else fallback
    ]

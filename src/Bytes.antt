-- ===== src/Bytes.antt =====
-- Byte strings: `to_le_bytes`, `to_be_bytes` and their inverses at every width, and the order of
-- byte slices, which is the order of the B+tree's keys (crates/prehnitedb/src/storage/page.rs).
pub mod Laws
pub mod Order
use prehnite_db.Prelude.{
  ℕ, zero, suc, ◌+◌, ◌*◌, ◌/◌, ◌%◌, ◌^◌, ◌<◌, compare, Ordering, List, [], ◌∷◌, All, Bool, true,
  false,
}

abbrev pub Bytes : Type 0
Bytes = List ℕ

abbrev pub IsByte : ℕ → Type 0
IsByte b = b < 256

abbrev pub IsBytes : Bytes → Type 0
IsBytes = All IsByte

-- The `w` bytes of `n`, least significant first; what does not fit is cut off.
unfoldable pub le_bytes : ℕ → ℕ → Bytes
le_bytes zero n = []
le_bytes (suc w) n = n % 256 ∷ le_bytes w (n / 256)

unfoldable pub from_le : Bytes → ℕ
from_le [] = 0
from_le (b ∷ bs) = b + 256 * from_le bs

-- The `w` bytes of `n`, most significant first, for an `n` of that width.
unfoldable pub be_bytes : ℕ → ℕ → Bytes
be_bytes zero n = []
be_bytes (suc w) n = n / 256 ^ w ∷ be_bytes w (n % 256 ^ w)

unfoldable pub from_be_acc : ℕ → Bytes → ℕ
from_be_acc acc [] = acc
from_be_acc acc (b ∷ bs) = from_be_acc (acc * 256 + b) bs

unfoldable pub from_be : Bytes → ℕ
unfolding from_be_acc
from_be bs = from_be_acc 0 bs

-- `Ord for [u8]`: lexicographic, a proper prefix first.
unfoldable pub cmp : Bytes → Bytes → Ordering
cmp [] [] = Ordering.eq
cmp [] (b ∷ bs) = Ordering.lt
cmp (a ∷ x) [] = Ordering.gt
cmp (a ∷ x) (b ∷ y) =
    let rest = cmp x y in
    elim (compare a b) [
      | Ordering.eq ↦ rest
      | Ordering.lt ↦ Ordering.lt
      | Ordering.gt ↦ Ordering.gt
    ]

-- `==` on byte strings.
abbrev pub bytes_eq : Bytes → Bytes → Bool
bytes_eq x y = elim (cmp x y) [ Ordering.eq ↦ true | _ ↦ false ]

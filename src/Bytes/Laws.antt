-- ===== src/Bytes/Laws.antt =====
-- The byte encodings of numbers: their lengths, their digits and their inverses.
use prehnite_db.Prelude.{ℕ, zero, suc, ◌+◌, ◌*◌, ◌/◌, ◌%◌, ◌^◌, ◌<◌, ◌≡◌, refl, ap, arith, length}
use prehnite_db.Bytes.{IsBytes, le_bytes, from_le, be_bytes, from_be_acc, from_be}
use native.Mathlib.Nat.{pow-suc, div-add-mod, mod-lt}

pub length-le_bytes : (w n : ℕ) → length (le_bytes w n) ≡ w
unfolding le_bytes
length-le_bytes zero n = refl
length-le_bytes (suc w) n = ap suc (length-le_bytes w (n / 256))

pub length-be_bytes : (w n : ℕ) → length (be_bytes w n) ≡ w
unfolding be_bytes
length-be_bytes zero n = refl
length-be_bytes (suc w) n = ap suc (length-be_bytes w (n % 256 ^ w))

pub le_bytes-IsBytes : (w n : ℕ) → IsBytes (le_bytes w n)
unfolding le_bytes
le_bytes-IsBytes zero n = tt
le_bytes-IsBytes (suc w) n = (omega arith, le_bytes-IsBytes w (n / 256))

pub from_le-le_bytes : (w n : ℕ) → n < 256 ^ w → from_le (le_bytes w n) ≡ n
unfolding le_bytes from_le
from_le-le_bytes zero n h = omega arith
from_le-le_bytes (suc w) n h =
    omega (arith, pow-suc 256 w, from_le-le_bytes w (n / 256) (omega (arith, pow-suc 256 w)))

pub pow-pos : (w : ℕ) → 0 < 256 ^ w
pow-pos zero = omega arith
pow-pos (suc w) = omega (arith, pow-suc 256 w, pow-pos w)

pub from_be_acc-be_bytes :
    (w acc n : ℕ) → n < 256 ^ w → from_be_acc acc (be_bytes w n) ≡ acc * 256 ^ w + n
unfolding be_bytes from_be_acc
from_be_acc-be_bytes zero acc n h = omega arith
from_be_acc-be_bytes (suc w) acc n h = rw pow-suc (
    omega (
      arith,
      from_be_acc-be_bytes w (acc * 256 + n / 256 ^ w) (n % 256 ^ w) (mod-lt n (pow-pos w)),
      div-add-mod n (256 ^ w),
    ))

pub from_be-be_bytes : (w n : ℕ) → n < 256 ^ w → from_be (be_bytes w n) ≡ n
unfolding from_be
from_be-be_bytes w n h = omega (arith, from_be_acc-be_bytes w 0 n h)

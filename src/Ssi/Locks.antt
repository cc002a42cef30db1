-- ===== src/Ssi/Locks.antt =====
-- The equality of read locks, and which accesses overlap.
use prehnite_db.Prelude.{
  ℕ, ◌≡◌, refl, sym, ap, Bool, true, List, [], ◌∷◌, Option, none, some, arith, Bool-cases, inl, inr,
  any, Ordering,
}
use prehnite_db.Bytes.{Bytes, cmp, bytes_eq}
use prehnite_db.Bytes.Order.{cmp_refl}
use prehnite_db.Transaction.{ReadLock, tuple, relation, index_range, SsiTxState}
use prehnite_db.Ssi.{upper_eq, lock_eq, holds, lock_read, index_touched, range_touched}

pub cmp→eq : (x y : Bytes) → cmp x y ≡ Ordering.eq → x ≡ y
unfolding cmp
cmp→eq [] [] h = refl
cmp→eq [] (b ∷ y) h = ground arith
cmp→eq (a ∷ x) [] h = ground arith
cmp→eq (a ∷ x) (b ∷ y) h = ground (arith, cmp→eq x y)

pub bytes_eq→eq : (x y : Bytes) → bytes_eq x y ≡ true → x ≡ y
bytes_eq→eq x y h = ground (arith, cmp→eq x y)

pub bytes_eq_refl : (x : Bytes) → bytes_eq x x ≡ true
bytes_eq_refl x = rw (bytes_eq, cmp_refl x) refl

upper_eq→eq : (x y : Option Bytes) → upper_eq x y ≡ true → x ≡ y
upper_eq→eq none none h = refl
upper_eq→eq none (some y) h = ground arith
upper_eq→eq (some x) none h = ground arith
upper_eq→eq (some x) (some y) h = ap some (bytes_eq→eq x y h)

upper_eq_refl : (x : Option Bytes) → upper_eq x x ≡ true
upper_eq_refl none = refl
upper_eq_refl (some x) = bytes_eq_refl x

pub lock_eq→eq : (a b : ReadLock) → lock_eq a b ≡ true → a ≡ b
unfolding lock_eq
lock_eq→eq (tuple r k) (tuple s j) h = ground (arith, bytes_eq→eq k j)
lock_eq→eq (relation r) (relation s) h = ground arith
lock_eq→eq (index_range r l u) (index_range s m v) h =
    ground (arith, bytes_eq→eq l m, upper_eq→eq u v)
lock_eq→eq (tuple r k) (relation s) h = ground arith
lock_eq→eq (tuple r k) (index_range s m v) h = ground arith
lock_eq→eq (relation r) (tuple s j) h = ground arith
lock_eq→eq (relation r) (index_range s m v) h = ground arith
lock_eq→eq (index_range r l u) (tuple s j) h = ground arith
lock_eq→eq (index_range r l u) (relation s) h = ground arith

pub lock_eq_refl : (a : ReadLock) → lock_eq a a ≡ true
unfolding lock_eq
lock_eq_refl (tuple r k) = ground (arith, bytes_eq_refl k)
lock_eq_refl (relation r) = ground arith
lock_eq_refl (index_range r l u) = ground (arith, bytes_eq_refl l, upper_eq_refl u)

pub holds-lock_read :
    (lock : ReadLock) (s : SsiTxState) → holds (lock_read lock s).read_set lock ≡ true
unfolding lock_read holds
holds-lock_read lock s = elim (Bool-cases (holds s.read_set lock)) [
  | inl e ↦ rw e e
  | inr e ↦ rw (e, lock_eq_refl lock) refl
]

-- What a lock covers is touched, through whichever test the locks are searched with.
any-holds :
    (p : ReadLock → Bool) (lock : ReadLock) (locks : List ReadLock)
    → holds locks lock ≡ true
    → p lock ≡ true
    → any p locks ≡ true
unfolding holds
any-holds p lock [] h q = ground arith
any-holds p lock (l ∷ locks) h q = elim (Bool-cases (lock_eq lock l)) [
  | inl e ↦ rw (sym (lock_eq→eq lock l e), q) refl
  | inr e ↦ ground (arith, any-holds p lock locks)
]

pub index_touched-holds :
    (root : ℕ) (key : Bytes) (lock : ReadLock) (s : SsiTxState)
    → holds s.read_set lock ≡ true
    → range_touched root key lock ≡ true
    → index_touched root key s ≡ true
unfolding index_touched
index_touched-holds root key lock s h q = any-holds (range_touched root key) lock s.read_set h q

-- ===== src/Engine/Batch/Mask.antt =====
-- The null mask against the sequence of bits that it packs.
use prehnite_db.Prelude.{
  ℕ, zero, suc, ◌+◌, ◌-◌, ◌*◌, ◌/◌, ◌%◌, ◌^◌, ◌≤◌, ◌<◌, ◌≡◌, refl, Bool, true, false, List, [], ◌∷◌,
  ◌++◌, length, length-append, leb, ◌==◌, ltb, if◌then◌else◌, arith, Bool-cases, inl, inr, ap,
}
use native.Mathlib.Nat.{pow-suc}
use prehnite_db.Outcome.{returns, index}
use prehnite_db.Engine.Batch.{
  read_bit, or_bit, replicate, modify, NullMask, no_rows, all_valid, push, is_valid,
}

read_bit-or_bit : (k j w : ℕ) → read_bit j (or_bit k w) ≡ (if j == k then true else read_bit j w)
unfolding read_bit or_bit
read_bit-or_bit zero zero w = ground arith
read_bit-or_bit zero (suc j) w = elim (Bool-cases (w % 2 == 1)) [
  | inl odd ↦ rw odd (ground arith)
  | inr even ↦ rw even (ground (arith, ap (read_bit j) (half w (ground arith))))
]
  where
    half : (n : ℕ) → n % 2 ≡ 0 → (n + 1) / 2 ≡ n / 2
    half n h = omega arith
read_bit-or_bit (suc k) zero w = ground arith
read_bit-or_bit (suc k) (suc j) w =
    ground (arith, read_bit-or_bit k j (w / 2), ap (read_bit j) (shifted (or_bit k (w / 2))))
  where
    shifted : (n : ℕ) → (w % 2 + 2 * n) / 2 ≡ n
    shifted n = omega arith

read_bit-zero : (k : ℕ) → read_bit k 0 ≡ false
unfolding read_bit
read_bit-zero zero = refl
read_bit-zero (suc k) = read_bit-zero k

pow2-pos : (t : ℕ) → 0 < 2 ^ t
pow2-pos zero = omega arith
pow2-pos (suc t) = omega (arith, pow-suc 2 t, pow2-pos t)

read_bit-ones : (t j : ℕ) → read_bit j (2 ^ t - 1) ≡ ltb j t
unfolding read_bit
read_bit-ones zero j = ground (arith, read_bit-zero j)
read_bit-ones (suc t) zero = ground (arith, pow-suc 2 t, pow2-pos t)
read_bit-ones (suc t) (suc j) =
    let e : (2 ^ suc t - 1) / 2 ≡ 2 ^ t - 1 = omega (arith, pow-suc 2 t, pow2-pos t) in
    rw e (ground (arith, read_bit-ones t j))

-- The word at a position, 0 past the end.
abbrev word : List ℕ → ℕ → ℕ
word [] i = 0
word (w ∷ ws) zero = w
word (w ∷ ws) (suc i) = word ws i

word-grow : (ws : List ℕ) (i : ℕ) → word (ws ++ 0 ∷ []) i ≡ word ws i
word-grow [] zero = refl
word-grow [] (suc i) = refl
word-grow (w ∷ ws) zero = refl
word-grow (w ∷ ws) (suc i) = word-grow ws i

word-modify :
    (ws : List ℕ) (k i : ℕ) (f : ℕ → ℕ)
    → k < length ws
    → word (modify ws k f) i ≡ (if i == k then f (word ws k) else word ws i)
word-modify [] k i f h = absurd (omega arith)
word-modify (w ∷ ws) zero zero f h = refl
word-modify (w ∷ ws) zero (suc i) f h = ground arith
word-modify (w ∷ ws) (suc k) zero f h = ground arith
word-modify (w ∷ ws) (suc k) (suc i) f h = ground (arith, word-modify ws k i f (omega arith))

length-modify : (ws : List ℕ) (k : ℕ) (f : ℕ → ℕ) → length (modify ws k f) ≡ length ws
length-modify [] k f = refl
length-modify (w ∷ ws) zero f = refl
length-modify (w ∷ ws) (suc k) f = ap suc (length-modify ws k f)

index-word : (ws : List ℕ) (i : ℕ) → i < length ws → index ws i ≡ returns (word ws i)
index-word [] i h = absurd (omega arith)
index-word (w ∷ ws) zero h = refl
index-word (w ∷ ws) (suc i) h = index-word ws i (omega arith)

-- The bit of row `i`, false past the end.
pub bit_at : NullMask → ℕ → Bool
unfolding read_bit
bit_at m i = read_bit (i % 64) (word m.bits (i / 64))

-- The words are just enough for the rows, and no bit is set past them.
pub record IsMask (m : NullMask) : Type 0 where
  pub enough : m.n_rows ≤ 64 * length m.bits
  pub tight : 64 * length m.bits < m.n_rows + 64
  pub clear : (i : ℕ) → m.n_rows ≤ i → bit_at m i ≡ false

pub is_valid-bit_at :
    (m : NullMask) (i : ℕ) → IsMask m → i < m.n_rows → is_valid m i ≡ returns (bit_at m i)
unfolding is_valid bit_at
is_valid-bit_at m i h lt =
    let enough = h.enough in rw (index-word m.bits (i / 64) (omega arith)) refl

pub no_rows-IsMask : IsMask no_rows
unfolding bit_at
no_rows-IsMask = record {
  enough = omega arith;
  tight = omega arith;
  clear = λ i h. read_bit-zero (i % 64);
}

grown : NullMask → List ℕ
grown m = if leb (length m.bits) (m.n_rows / 64) then m.bits ++ 0 ∷ [] else m.bits

word-grown : (m : NullMask) (i : ℕ) → word (grown m) i ≡ word m.bits i
unfolding grown
word-grown m i = ground (arith, word-grow m.bits i)

length-grown :
    (m : NullMask)
    → IsMask m
    → (m.n_rows / 64 < length (grown m)) × (64 * length (grown m) < m.n_rows + 65)
unfolding grown
length-grown m h =
    let enough = h.enough in let tight = h.tight in ground (arith, length-append m.bits (0 ∷ []))

push-bits :
    (m : NullMask) (v : Bool)
    → NullMask.bits (push m v)
      ≡ (if v then modify (grown m) (m.n_rows / 64) (or_bit (m.n_rows % 64)) else grown m)
unfolding push grown
push-bits m v = refl

-- `push` appends one bit and leaves the others.
pub bit_at-push :
    (m : NullMask) (v : Bool) (i : ℕ)
    → IsMask m
    → bit_at (push m v) i ≡ (if i == m.n_rows then v else bit_at m i)
unfolding bit_at
bit_at-push m true i h =
    let n = m.n_rows in
    ground (
      arith,
      push-bits m true,
      word-modify (grown m) (n / 64) (i / 64) (or_bit (n % 64)) (length-grown m h).0,
      word-grown m (i / 64),
      word-grown m (n / 64),
      read_bit-or_bit (n % 64) (i % 64) (word m.bits (n / 64)),
    )
bit_at-push m false i h = ground (arith, push-bits m false, word-grown m (i / 64), h.clear i)

pub push-rows : (m : NullMask) (v : Bool) → NullMask.n_rows (push m v) ≡ m.n_rows + 1
unfolding push
push-rows m v = refl

length-push : (m : NullMask) (v : Bool) → length (NullMask.bits (push m v)) ≡ length (grown m)
length-push m true = rw push-bits (length-modify (grown m) (m.n_rows / 64) (or_bit (m.n_rows % 64)))
length-push m false = rw push-bits refl

pub push-IsMask : (m : NullMask) (v : Bool) → IsMask m → IsMask (push m v)
push-IsMask m v h = record {
  enough = omega (arith, push-rows m v, length-push m v, (length-grown m h).0);
  tight = omega (arith, push-rows m v, length-push m v, (length-grown m h).1);
  clear = λ i past. rw (bit_at-push m v i h) (ground (arith, push-rows m v, h.clear i));
}

word-replicate : (n w i : ℕ) → word (replicate n w) i ≡ (if ltb i n then w else 0)
word-replicate zero w i = ground arith
word-replicate (suc n) w zero = ground arith
word-replicate (suc n) w (suc i) = ground (arith, word-replicate n w i)

length-replicate : (n w : ℕ) → length (replicate n w) ≡ n
length-replicate zero w = refl
length-replicate (suc n) w = ap suc (length-replicate n w)

pub bit_at-all_valid : (n i : ℕ) → bit_at (all_valid n) i ≡ ltb i n
unfolding bit_at all_valid
bit_at-all_valid n i =
    let words = (n + 63) / 64 in
    let full = 2 ^ 64 - 1 in
    ground (
      arith,
      word-replicate words full (i / 64),
      length-replicate words full,
      word-modify (replicate words full) (words - 1) (i / 64) (λ _. 2 ^ (n % 64) - 1),
      read_bit-ones 64 (i % 64),
      read_bit-ones (n % 64) (i % 64),
      read_bit-zero (i % 64),
    )

length-all_valid : (n : ℕ) → length (NullMask.bits (all_valid n)) ≡ (n + 63) / 64
unfolding all_valid
length-all_valid n =
    let words = (n + 63) / 64 in
    let full = 2 ^ 64 - 1 in
    ground (
      arith,
      length-replicate words full,
      length-modify (replicate words full) (words - 1) (λ _. 2 ^ (n % 64) - 1),
    )

pub all_valid-rows : (n : ℕ) → NullMask.n_rows (all_valid n) ≡ n
unfolding all_valid
all_valid-rows n = refl

pub all_valid-IsMask : (n : ℕ) → IsMask (all_valid n)
all_valid-IsMask n = record {
  enough = omega (arith, all_valid-rows n, length-all_valid n);
  tight = omega (arith, all_valid-rows n, length-all_valid n);
  clear = λ i past. rw (bit_at-all_valid n i) (ground (arith, all_valid-rows n));
}

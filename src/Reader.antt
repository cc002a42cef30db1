-- ===== src/Reader.antt =====
-- A bounds-checked cursor over a byte slice: `Reader` of crates/prehnitedb/src/engine/codec.rs and
-- `FrameReader` of crates/prehnitedb/src/protocol.rs. The state is the part of the slice from `pos`
-- on. `checked_add` cannot fail where the slice has the bytes that are asked for.
pub mod Laws
use prehnite_db.Prelude.{
  ℕ, zero, suc, Bool, true, false, List, [], ◌∷◌, Error, Result, ok, err, leb, length, take, drop,
  if◌then◌else◌,
}
use prehnite_db.Bytes.{Bytes}

abbrev pub Parser : Type 0 → Type 0
Parser A = Bytes → Result (A × Bytes)

unfoldable pub pure : {A : Type 0} → A → Parser A
pure a s = ok (a, s)

unfoldable pub fail : {A : Type 0} → Error → Parser A
fail e s = err e

infixl 5 ◌>>=◌ ◌>>◌
-- Opening this opens `pure` and `fail` too.
unfoldable pub ◌>>=◌ : {A B : Type 0} → Parser A → (A → Parser B) → Parser B
unfolding pure fail
◌>>=◌ p f s = elim (p s) [ err e ↦ err e | ok (a, rest) ↦ f a rest ]

abbrev pub ◌>>◌ : {A B : Type 0} → Parser A → Parser B → Parser B
p >> q = p >>= λ _. q

-- `take(n)`: the next `n` bytes, or the reader's error.
unfoldable pub take_bytes : Error → ℕ → Parser Bytes
take_bytes e n s = if leb n (length s) then ok (take n s, drop n s) else err e

-- `[0]` of a slice of one byte.
abbrev pub first_byte : Bytes → ℕ
first_byte [] = 0
first_byte (b ∷ bs) = b

unfoldable pub take_u8 : Error → Parser ℕ
unfolding take_bytes
take_u8 e = do raw ← take_bytes e 1; pure (first_byte raw)

-- `for _ in 0..n { out.push(p(reader)?) }`
unfoldable pub repeat : {A : Type 0} → ℕ → Parser A → Parser (List A)
repeat zero p = pure []
repeat (suc n) p = do a ← p; rest ← repeat n p; pure (a ∷ rest)

-- What is left of the reader is dropped: bytes after the last field are not refused.
unfoldable pub value_of : {A : Type 0} → Result (A × Bytes) → Result A
value_of (ok (a, rest)) = ok a
value_of (err e) = err e

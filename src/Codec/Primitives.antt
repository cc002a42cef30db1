-- ===== src/Codec/Primitives.antt =====
-- `Reader` of crates/prehnitedb/src/engine/codec.rs: little-endian numbers, and texts with a
-- 16-bit length.
use prehnite_db.Prelude.{
  ℕ, ◌^◌, ◌<◌, ◌≡◌, refl, Bool, true, false, not, ◌++◌, ◌∷◌, [], corruption, length, ◌==◌,
  if◌then◌else◌, arith,
}
use prehnite_db.Prelude.Int.{ℤ, IsI64, to_u64, from_u64, to_u64-lt, from_u64-to_u64}
use prehnite_db.Bytes.{Bytes, le_bytes, from_le}
use prehnite_db.Bytes.Laws.{length-le_bytes, from_le-le_bytes}
use prehnite_db.Utf8.{is_utf8}
use prehnite_db.Reader.{Parser, pure, fail, ◌>>=◌, take_bytes, take_u8}
use prehnite_db.Reader.Laws.{Reads, Reads-pure, Reads-bind, Reads-last, Reads-take, Reads-u8}

unfoldable pub take : ℕ → Parser Bytes
take = take_bytes corruption

unfoldable pub u8 : Parser ℕ
u8 = take_u8 corruption

uint : ℕ → Parser ℕ
unfolding take
uint w = do raw ← take w; pure (from_le raw)

unfoldable pub u16 : Parser ℕ
unfolding uint
u16 = uint 2

unfoldable pub u32 : Parser ℕ
unfolding uint
u32 = uint 4

unfoldable pub u64 : Parser ℕ
unfolding uint
u64 = uint 8

unfoldable pub i64 : Parser ℤ
unfolding uint
i64 = do v ← uint 8; pure (from_u64 v)

unfoldable pub write_str : Bytes → Bytes
write_str s = le_bytes 2 (length s) ++ s

unfoldable pub utf8_text : Bytes → Parser Bytes
utf8_text raw = if is_utf8 raw then pure raw else fail corruption

unfoldable pub read_str : Parser Bytes
unfolding u16 take utf8_text
read_str = do len ← u16; raw ← take len; utf8_text raw

-- `u8::from(b)`, and its reading as a flag.
abbrev pub bool_byte : Bool → ℕ
bool_byte true = 1
bool_byte false = 0

unfoldable pub flag : Parser Bool
unfolding u8
flag = do b ← u8; pure (not (b == 0))

pub Reads-take_lem : {n : ℕ} (bs : Bytes) → length bs ≡ n → Reads (take n) bs bs
unfolding take
Reads-take_lem bs h = Reads-take corruption _ bs h

pub Reads-u8_lem : (b : ℕ) → Reads u8 (b ∷ []) b
unfolding u8
Reads-u8_lem = Reads-u8 corruption

Reads-uint : (w n : ℕ) → n < 256 ^ w → Reads (uint w) (le_bytes w n) n
unfolding uint
Reads-uint w n h =
    Reads-last _ (Reads-take_lem (le_bytes w n) (length-le_bytes w n))
      (rw (from_le-le_bytes w n h) (Reads-pure n))

pub Reads-u16 : (n : ℕ) → n < 2 ^ 16 → Reads u16 (le_bytes 2 n) n
unfolding u16
Reads-u16 n h = Reads-uint 2 n (omega arith)

pub Reads-u32 : (n : ℕ) → n < 2 ^ 32 → Reads u32 (le_bytes 4 n) n
unfolding u32
Reads-u32 n h = Reads-uint 4 n (omega arith)

pub Reads-u64 : (n : ℕ) → n < 2 ^ 64 → Reads u64 (le_bytes 8 n) n
unfolding u64
Reads-u64 n h = Reads-uint 8 n (omega arith)

pub Reads-i64 : (n : ℤ) → IsI64 n → Reads i64 (le_bytes 8 (to_u64 n)) n
unfolding i64
Reads-i64 n h =
    Reads-last _ (Reads-uint 8 (to_u64 n) (to_u64-lt n h)) (rw (from_u64-to_u64 n h) (Reads-pure n))

pub Reads-utf8_text : (s : Bytes) → is_utf8 s ≡ true → Reads (utf8_text s) [] s
unfolding utf8_text
Reads-utf8_text s h = rw h (Reads-pure s)

pub Reads-read_str :
    (s : Bytes) → is_utf8 s ≡ true → length s < 2 ^ 16 → Reads read_str (write_str s) s
unfolding read_str write_str
Reads-read_str s valid short =
    Reads-bind _ (Reads-u16 (length s) short)
      (Reads-last _ (Reads-take_lem s refl) (Reads-utf8_text s valid))

pub Reads-flag : (b : Bool) → Reads flag (bool_byte b ∷ []) b
unfolding flag
Reads-flag true = Reads-last _ (Reads-u8_lem 1) (Reads-pure true)
Reads-flag false = Reads-last _ (Reads-u8_lem 0) (Reads-pure false)

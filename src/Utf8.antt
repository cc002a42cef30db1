-- ===== src/Utf8.antt =====
-- `String::from_utf8` of the standard library, which the codec and the protocol call: a scan that
-- accepts exactly the well-formed UTF-8 byte sequences.
use prehnite_db.Prelude.{
  ℕ, ◌-◌, Bool, false, ◌&&◌, [], ◌∷◌, Option, none, some, leb, ltb, ◌==◌, if◌then◌else◌,
}
use prehnite_db.Bytes.{Bytes}

-- How many continuation bytes are due, and the bounds of the next one.
record Due : Type 0 where
  count : ℕ
  low : ℕ
  high : ℕ

abbrev due : ℕ → ℕ → ℕ → Option Due
due n low high = some (record { count = n; low = low; high = high })

-- What a byte at the start of a character asks for.
lead : ℕ → Option Due
lead b =
    if ltb b 0x80
    then due 0 0 0
    else if ltb b 0xc2
    then none
    else if ltb b 0xe0
    then due 1 0x80 0xbf
    else if b == 0xe0
    then due 2 0xa0 0xbf
    else if b == 0xed
    then due 2 0x80 0x9f
    else if ltb b 0xf0
    then due 2 0x80 0xbf
    else if b == 0xf0
    then due 3 0x90 0xbf
    else if ltb b 0xf4
    then due 3 0x80 0xbf
    else if b == 0xf4
    then due 3 0x80 0x8f
    else none

step : ℕ → Due → Option Due
unfolding lead
step b d =
    if d.count == 0
    then lead b
    else if leb d.low b && leb b d.high
    then due (d.count - 1) 0x80 0xbf
    else none

scan : Option Due → Bytes → Bool
scan none bs = false
scan (some d) [] = d.count == 0
scan (some d) (b ∷ bs) = scan (step b d) bs

unfoldable pub is_utf8 : Bytes → Bool
unfolding scan step
is_utf8 = scan (due 0 0 0)

-- ===== src/Protocol/Frames/Arrival.antt =====
-- However a stream's bytes are cut into reads, `fill` and `read_frame` see only the bytes.
use prehnite_db.Prelude.{
  take-append_le, drop-append_le, take-append_gt, drop-append_gt, ℕ, zero, suc, ◌-◌, ◌≤◌, ◌<◌, ◌≡◌,
  refl, sym, ap, ◌∙◌, [], ◌∷◌, ◌++◌, Option, some, Result, ok, ltb, leb, ◌==◌, length, take, drop,
  arith, append_assoc, take-append, drop-append, le→leb, le→ltb, leb→le, length-append, append-nil,
  Bool-cases, inl, inr, true, false,
}
use prehnite_db.Bytes.{Bytes, be_bytes}
use mathlib.Core.Path.{subst}
use prehnite_db.Bytes.Laws.{length-be_bytes, from_be-be_bytes}
use prehnite_db.Protocol.{max_frame}
use prehnite_db.Protocol.Frames.{
  chunk, interrupted, fault, Stream, at_eof, fill_from, fill, write_frame, read_payload,
  after_payload, after_header, read_frame,
}

abbrev pub bytes_of : Stream → Bytes
bytes_of [] = []
bytes_of (chunk bs ∷ s) = bs ++ bytes_of s
bytes_of (e ∷ s) = bytes_of s

-- No read fails, and none finds the end before the last byte has been read.
abbrev pub IsLive : Stream → Type 0
IsLive [] = Unit
IsLive (chunk [] ∷ s) = ⊥
IsLive (chunk (b ∷ bs) ∷ s) = IsLive s
IsLive (interrupted ∷ s) = IsLive s
IsLive (fault ∷ s) = ⊥

-- The result of a read of `bs` from a live stream, and what is left.
pub record Arrives {A : Type 0} (run : A × Stream) (a : A) (rest : Bytes) : Type 0 where
  pub result : run.0 ≡ a
  pub remaining : bytes_of run.1 ≡ rest
  pub live : IsLive run.1

chunk-IsLive :
    (n : ℕ) (x : Bytes) (s : Stream) → n < length x → IsLive s → IsLive (chunk (drop n x) ∷ s)
chunk-IsLive n [] s h l = absurd (omega arith)
chunk-IsLive zero (b ∷ x) s h l = l
chunk-IsLive (suc n) (b ∷ x) s h l = chunk-IsLive n x s (omega arith) l

fill_from-Arrives :
    (s : Stream) (got : Bytes) (n : ℕ)
    → IsLive s
    → n ≤ length (bytes_of s)
    → Arrives (fill_from got n s) (ok (some (got ++ take n (bytes_of s)))) (drop n (bytes_of s))
unfolding fill_from
fill_from-Arrives s got zero h k = record {
  result = ap (λ g. ok (some g)) (sym (append-nil got));
  remaining = refl;
  live = h;
}
fill_from-Arrives [] got (suc w) h k = absurd (omega arith)
fill_from-Arrives (chunk [] ∷ s) got (suc w) h k = absurd h
fill_from-Arrives (chunk (b ∷ bs) ∷ s) got (suc w) h k =
    elim (Bool-cases (leb (suc (length bs)) (suc w))) [
      | inl fits ↦
          let x = b ∷ bs in
          let le : length x ≤ suc w = leb→le (length x) (suc w) fits in
          let later =
            fill_from-Arrives s (got ++ x) (suc w - length x) h
              (omega (arith, length-append x (bytes_of s))) in
          rw
            (
              fits,
              take-append_le (suc w) x (bytes_of s) le,
              drop-append_le (suc w) x (bytes_of s) le,
              ← append_assoc got x (take (suc w - length x) (bytes_of s)),
            )
            later
      | inr longer ↦
          let x = b ∷ bs in
          let gt : suc w < length x = ground arith in
          rw
            (
              longer,
              take-append_gt (suc w) x (bytes_of s) gt,
              drop-append_gt (suc w) x (bytes_of s) gt,
            )
            (record { result = refl; remaining = refl; live = chunk-IsLive (suc w) x s gt h })
    ]
fill_from-Arrives (interrupted ∷ s) got (suc w) h k = fill_from-Arrives s got (suc w) h k
fill_from-Arrives (fault ∷ s) got (suc w) h k = absurd h

fill_from_short :
    (s : Stream) (got : Bytes) (n : ℕ)
    → IsLive s
    → length (bytes_of s) < n
    → (fill_from got n s).0 ≡ at_eof (got ++ bytes_of s)
unfolding fill_from
fill_from_short s got zero h k = absurd (omega arith)
fill_from_short [] got (suc w) h k = ap at_eof (sym (append-nil got))
fill_from_short (chunk [] ∷ s) got (suc w) h k = absurd h
fill_from_short (chunk (b ∷ bs) ∷ s) got (suc w) h k =
    let x = b ∷ bs in
    let all = length-append x (bytes_of s) in
    let fits : leb (length x) (suc w) ≡ true = le→leb (length x) (suc w) (omega arith) in
    rw (fits, ← append_assoc got x (bytes_of s))
      (fill_from_short s (got ++ x) (suc w - length x) h (omega arith))
fill_from_short (interrupted ∷ s) got (suc w) h k = fill_from_short s got (suc w) h k
fill_from_short (fault ∷ s) got (suc w) h k = absurd h

-- `fill` of a live stream takes the bytes that it wants, if the stream has them.
pub fill-Arrives :
    (n : ℕ) (s : Stream) (front rest : Bytes)
    → IsLive s
    → bytes_of s ≡ front ++ rest
    → length front ≡ n
    → Arrives (fill n s) (ok (some front)) rest
unfolding fill
fill-Arrives n s front rest h e k =
    let enough : n ≤ length (bytes_of s) = omega (arith, ap length e, length-append front rest) in
    let a = fill_from-Arrives s [] n h enough in
    record {
      result = a.result ∙ rw (e, ← k, take-append front rest) refl;
      remaining = a.remaining ∙ rw (e, ← k, drop-append front rest) refl;
      live = a.live;
    }

-- Otherwise it reports the end, before the first byte or within.
pub fill_short :
    (n : ℕ) (s : Stream) → IsLive s → length (bytes_of s) < n → (fill n s).0 ≡ at_eof (bytes_of s)
unfolding fill
fill_short n s h k = fill_from_short s [] n h k

-- The bytes of a frame that is sent.
pub write_frame-eq-ok :
    (tag : ℕ) (payload : Bytes) {sent : Bytes}
    → write_frame tag payload ≡ ok sent
    → (length payload ≤ max_frame) × (sent ≡ (tag ∷ be_bytes 4 (length payload)) ++ payload)
unfolding write_frame
write_frame-eq-ok tag payload {sent} h = elim (Bool-cases (ltb max_frame (length payload))) [
  | inl large ↦ ground (arith, rw large at h)
  | inr small ↦ ground (arith, rw small at h)
]

after_payload-Arrives :
    (tag : ℕ) (payload rest : Bytes) (run : Result (Option Bytes) × Stream)
    → Arrives run (ok (some payload)) rest
    → Arrives (after_payload tag run) (ok (some (tag, payload))) rest
unfolding after_payload
after_payload-Arrives tag payload rest (x, s) a =
    subst
      (λ (y : Result (Option Bytes)).
        Arrives (after_payload tag (y, s)) (ok (some (tag, payload))) rest)
      (sym a.result) (record { result = refl; remaining = a.remaining; live = a.live })

read_payload-Arrives :
    (tag : ℕ) (payload : Bytes) (s : Stream) (rest : Bytes)
    → length payload ≤ max_frame
    → IsLive s
    → bytes_of s ≡ payload ++ rest
    → Arrives (read_payload tag (length payload) s) (ok (some (tag, payload))) rest
unfolding read_payload
read_payload-Arrives tag [] s rest small h e = record { result = refl; remaining = e; live = h }
read_payload-Arrives tag (b ∷ bs) s rest small h e =
    let a = fill-Arrives (length (b ∷ bs)) s (b ∷ bs) rest h e refl in
    let fits : ltb max_frame (length (b ∷ bs)) ≡ false = le→ltb (length (b ∷ bs)) max_frame small in
    let nonzero : (length (b ∷ bs) == 0) ≡ false = ground arith in
    rw (fits, nonzero) (after_payload-Arrives tag (b ∷ bs) rest (fill (length (b ∷ bs)) s) a)

after_header-Arrives :
    (tag : ℕ) (payload rest : Bytes) (run : Result (Option Bytes) × Stream)
    → length payload ≤ max_frame
    → Arrives run (ok (some (tag ∷ be_bytes 4 (length payload)))) (payload ++ rest)
    → Arrives (after_header run) (ok (some (tag, payload))) rest
unfolding after_header
after_header-Arrives tag payload rest (x, s) small a =
    subst
      (λ (y : Result (Option Bytes)). Arrives (after_header (y, s)) (ok (some (tag, payload))) rest)
      (sym a.result)
      (rw (from_be-be_bytes 4 (length payload) (omega arith))
        (read_payload-Arrives tag payload s rest small a.live a.remaining))

-- A frame that is not refused as too long is read with its tag and its payload, however a stream
-- without faults cuts the bytes into reads, and nothing behind it is read.
pub read_frame-write_frame :
    (tag : ℕ) (payload rest : Bytes) (s : Stream) {sent : Bytes}
    → write_frame tag payload ≡ ok sent
    → IsLive s
    → bytes_of s ≡ sent ++ rest
    → Arrives (read_frame s) (ok (some (tag, payload))) rest
unfolding read_frame
read_frame-write_frame tag payload rest s {sent} h live e =
    let (small, shape) = write_frame-eq-ok tag payload h in
    let front = tag ∷ be_bytes 4 (length payload) in
    let four = length-be_bytes 4 (length payload) in
    let a =
      fill-Arrives 5 s front (payload ++ rest) live
        (e ∙ ap (λ x. x ++ rest) shape ∙ append_assoc front payload rest) (omega (arith, four)) in
    after_header-Arrives tag payload rest (fill 5 s) small a

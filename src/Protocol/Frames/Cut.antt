-- ===== src/Protocol/Frames/Cut.antt =====
-- A connection that closes between two frames, or within one.
use prehnite_db.Prelude.{
  take-append_le, length-take_le, ℕ, zero, suc, ◌+◌, ◌-◌, ◌≤◌, ◌<◌, ◌≡◌, refl, sym, ap, ◌∙◌, false,
  [], ◌∷◌, ◌++◌, Option, none, some, protocol, Result, ok, err, leb, ◌==◌, if◌then◌else◌, length,
  take, arith, length-append, Bool-cases, inl, inr, le→ltb,
}
use mathlib.Core.Path.{subst}
use prehnite_db.Bytes.{Bytes, be_bytes}
use prehnite_db.Bytes.Laws.{length-be_bytes, from_be-be_bytes}
use prehnite_db.Protocol.{max_frame}
use prehnite_db.Protocol.Frames.{
  Stream, at_eof, fill, write_frame, read_payload, after_payload, after_header, read_frame,
}
use prehnite_db.Protocol.Frames.Arrival.{
  bytes_of, IsLive, Arrives, fill-Arrives, fill_short, write_frame-eq-ok,
}

after_payload_short :
    (tag : ℕ) (got : Bytes) (run : Result (Option Bytes) × Stream)
    → run.0 ≡ at_eof got
    → (after_payload tag run).0 ≡ err protocol
unfolding after_payload at_eof
after_payload_short tag [] (x, s) e =
    subst (λ (y : Result (Option Bytes)). (after_payload tag (y, s)).0 ≡ err protocol) (sym e) refl
after_payload_short tag (b ∷ got) (x, s) e =
    subst (λ (y : Result (Option Bytes)). (after_payload tag (y, s)).0 ≡ err protocol) (sym e) refl

read_payload_short :
    (tag size : ℕ) (s : Stream)
    → size ≤ max_frame
    → IsLive s
    → length (bytes_of s) < size
    → (read_payload tag size s).0 ≡ err protocol
unfolding read_payload
read_payload_short tag size s small live short =
    let nonzero : (size == 0) ≡ false = ground arith in
    rw (le→ltb size max_frame small, nonzero)
      (after_payload_short tag (bytes_of s) (fill size s) (fill_short size s live short))

after_header_short :
    (tag size : ℕ) (rest : Bytes) (run : Result (Option Bytes) × Stream)
    → size ≤ max_frame
    → length rest < size
    → Arrives run (ok (some (tag ∷ be_bytes 4 size))) rest
    → (after_header run).0 ≡ err protocol
unfolding after_header
after_header_short tag size rest (x, s) small short a =
    subst (λ (y : Result (Option Bytes)). (after_header (y, s)).0 ≡ err protocol) (sym a.result)
      (rw (from_be-be_bytes 4 size (omega arith))
        (read_payload_short tag size s small a.live (omega (arith, ap length a.remaining))))

after_header_eof :
    (k : ℕ) (tag : ℕ) (more : Bytes) (run : Result (Option Bytes) × Stream)
    → run.0 ≡ at_eof (take k (tag ∷ more))
    → (after_header run).0 ≡ (if k == 0 then ok none else err protocol)
unfolding after_header at_eof
after_header_eof zero tag more (x, s) e =
    subst (λ (y : Result (Option Bytes)). (after_header (y, s)).0 ≡ ok none) (sym e) refl
after_header_eof (suc k) tag more (x, s) e =
    let nonzero : (suc k == 0) ≡ false = ground arith in
    rw nonzero
      (subst (λ (y : Result (Option Bytes)). (after_header (y, s)).0 ≡ err protocol) (sym e) refl)

-- If a stream without faults ends before all of a frame has arrived, then reading answers with a
-- clean end where nothing has arrived, and with a protocol error where something has.
pub read_frame_cut :
    (tag : ℕ) (payload : Bytes) (k : ℕ) (s : Stream) {sent : Bytes}
    → write_frame tag payload ≡ ok sent
    → k < length sent
    → IsLive s
    → bytes_of s ≡ take k sent
    → (read_frame s).0 ≡ (if k == 0 then ok none else err protocol)
unfolding read_frame
read_frame_cut tag payload k s {sent} h part live e =
    let (small, shape) = write_frame-eq-ok tag payload h in
    let size = length payload in
    let front = tag ∷ be_bytes 4 size in
    let five : length front ≡ 5 = omega (arith, length-be_bytes 4 size) in
    let got : bytes_of s ≡ take k (front ++ payload) = e ∙ ap (take k) shape in
    let whole : length sent ≡ 5 + size =
      omega (arith, ap length shape, length-append front payload, five) in
    elim (Bool-cases (leb 5 k)) [
      | inl header ↦
          let le : 5 ≤ k = ground arith in
          let split : bytes_of s ≡ front ++ take (k - length front) payload =
            got ∙ take-append_le k front payload (omega (arith, five)) in
          let a = fill-Arrives 5 s front (take (k - length front) payload) live split five in
          let nonzero : (k == 0) ≡ false = ground arith in
          rw nonzero (
            after_header_short tag size (take (k - length front) payload) (fill 5 s) small
              (omega (arith, length-take_le (k - length front) payload, five, whole)) a)
      | inr less ↦
          let lt : k < 5 = ground arith in
          after_header_eof k tag (be_bytes 4 size ++ payload) (fill 5 s) (
            fill_short 5 s live
              (omega (arith, ap length got, length-take_le k (front ++ payload), lt))
            ∙ ap at_eof got)
    ]

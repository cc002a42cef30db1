-- ===== src/Clog/Faults.antt =====
-- What a failed or torn write leaves behind.
use prehnite_db.Prelude.{
  ℕ, ◌+◌, ◌^◌, ◌≤◌, ◌<◌, ◌≡◌, refl, ap, ◌∙◌, List, [], ◌∷◌, ◌++◌, io, corruption, ok, err, arith,
  some, false, length,
}
use prehnite_db.Bytes.{Bytes, le_bytes}
use prehnite_db.Maps.{insert_all}
use prehnite_db.Clog.{Status, Record}
use prehnite_db.Clog.File.{header, encode_record, encode_records, read_records, open_clog, with_map}
use prehnite_db.Clog.File.RoundTrip.{
  IsBatch, read_records-append, open_clog-header, read_header-header, drop-header,
}
use prehnite_db.Clog.Append.{Outcome, enqueue, take_turn, publish, Clog, flush_until}

-- Two writers have enqueued, the first leads for both, and its write fails with nothing written.
unfoldable pub after_failed_round : ℕ → Status → ℕ → Status → Clog → Clog
unfolding enqueue
after_failed_round a sa b sb c =
    let s1 = (enqueue a sa c.state).1 in
    let s2 = (enqueue b sb s1).1 in
    let s3 = (take_turn (c.state.next_lsn + 1) s2).1 in
    record {
      state = publish (c.state.pending ++ ((a, sa) ∷ (b, sb) ∷ [])) s2.next_lsn (err io) s3;
      file = c.file;
    }

-- Two writers have enqueued while nobody is flushing, and the first, leading for both, has
-- failed to write. A following call of `flush_until` by the second then returns `Ok`, whatever
-- its own write does, and neither the file nor the map has its record.
pub flush_until-after_failed_round :
    (a b : ℕ) (sa sb : Status) (outcome : Outcome) (c : Clog)
    → c.state.flushing ≡ false
    → c.state.durable_lsn ≤ c.state.next_lsn
    → (c' : Clog) × (flush_until outcome (c.state.next_lsn + 2) (after_failed_round a sa b sb c)
        ≡ some (ok tt, c'))
      × (c'.file ≡ c.file)
      × (c'.state.map ≡ c.state.map)
unfolding flush_until take_turn publish after_failed_round enqueue insert_all
flush_until-after_failed_round a b sa sb outcome c idle order = (
  record {
    state = record c.state {
      pending = [];
      next_lsn = c.state.next_lsn + 2;
      durable_lsn = c.state.next_lsn + 2;
      flushing = false;
    };
    file = c.file;
  },
  ground arith,
  refl,
  refl,
)

-- A record behind a torn one is not read as a record: a small id puts a zero where the status is
-- expected.
read_records_misaligned :
    (map : List Record) (torn : Bytes) (tx_id : ℕ) (st : Status)
    → 0 < length torn
    → length torn < 8
    → tx_id < 256
    → read_records map (torn ++ encode_record (tx_id, st)) ≡ err corruption
unfolding read_records encode_record le_bytes
read_records_misaligned map [] tx st h k small = absurd (omega arith)
read_records_misaligned map (_ ∷ []) tx st h k small = ground arith
read_records_misaligned map (_ ∷ _ ∷ []) tx st h k small = ground arith
read_records_misaligned map (_ ∷ _ ∷ _ ∷ []) tx st h k small = ground arith
read_records_misaligned map (_ ∷ _ ∷ _ ∷ _ ∷ []) tx st h k small = ground arith
read_records_misaligned map (_ ∷ _ ∷ _ ∷ _ ∷ _ ∷ []) tx st h k small = ground arith
read_records_misaligned map (_ ∷ _ ∷ _ ∷ _ ∷ _ ∷ _ ∷ []) tx st h k small = ground arith
read_records_misaligned map (_ ∷ _ ∷ _ ∷ _ ∷ _ ∷ _ ∷ _ ∷ []) tx st h k small = ground arith
read_records_misaligned map (_ ∷ _ ∷ _ ∷ _ ∷ _ ∷ _ ∷ _ ∷ _ ∷ more) tx st h k small =
    absurd (omega arith)

-- If a failed write has left 1 to 7 bytes of a record at the end of the file, and a record with
-- an id below 256 is appended behind them, then the file no longer opens: its status tag is
-- corrupt.
pub open_clog_torn :
    (min : ℕ) (log : List Record) (torn : Bytes) (tx_id : ℕ) (st : Status)
    → min < 2 ^ 64
    → IsBatch log
    → 0 < length torn
    → length torn < 8
    → tx_id < 256
    → (open_clog (header min ++ (encode_records log ++ (torn ++ encode_record (tx_id, st))))).0
      ≡ err corruption
open_clog_torn min log torn tx_id st hmin hlog some_torn not_all small =
    let tail = encode_records log ++ (torn ++ encode_record (tx_id, st)) in
    ap (λ r. r.0) (open_clog-header (header min ++ tail) min (read_header-header min tail hmin))
    ∙ ap (with_map min) (
        ap (read_records []) (drop-header min tail)
        ∙ read_records-append log [] (torn ++ encode_record (tx_id, st)) hlog
        ∙ read_records_misaligned (insert_all log []) torn tx_id st some_torn not_all small)

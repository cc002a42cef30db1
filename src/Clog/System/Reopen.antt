-- ===== src/Clog/System/Reopen.antt =====
-- Closing the log at any moment and opening it again.
use prehnite_db.Prelude.{◌≡◌, ap, sym, ◌∙◌, [], ◌++◌, append-nil, ok, arith, false}
use prehnite_db.Clog.{ClogState}
use prehnite_db.Clog.File.{header, encode_records, open_clog, with_map}
use prehnite_db.Clog.File.RoundTrip.{open_clog-written}
use prehnite_db.Clog.System.{System, Reach, fresh}
use prehnite_db.Clog.System.Invariant.{published, Reach-IsMirrored}

-- What is not in the file: the queue of the records that await their fsync, and the tickets.
abbrev pub durable_part : ClogState → ClogState
durable_part s = record s { pending = []; next_lsn = 0; durable_lsn = 0; flushing = false }

-- From a fresh log, after any interleaving of enqueues with the steps of flushes and of truncations,
-- which succeed, or fail with nothing written and the file not replaced: also between the steps of
-- one, the file opens to a map and a floor with nothing pending, and is left as it is. The map and the
-- floor are those in memory, except between a write or a rename and its publication, when they are
-- those that the publication makes of what is in memory.
pub open_clog-Reach :
    {s : System}
    → Reach fresh s
    → open_clog s.file ≡ (ok (durable_part (published s.task s.state)), s.file)
open_clog-Reach {s} r =
    let m = Reach-IsMirrored r in
    let now = published s.task s.state in
    let shape : s.file ≡ header now.min_tx_id ++ (encode_records m.log ++ []) =
      m.file ∙ ap (λ e. header now.min_tx_id ++ e) (sym (append-nil (encode_records m.log))) in
    ap open_clog shape
    ∙ open_clog-written now.min_tx_id m.log [] m.floor m.ids (omega arith)
    ∙ (λ i. (with_map now.min_tx_id (ok (m.map i)), sym shape i))

-- ===== src/Clog/System/Invariant.antt =====
-- The file always holds the records of the map that is in memory, or is as soon as the I/O that has
-- been done is published.
use prehnite_db.Prelude.{
  ℕ, ◌^◌, ◌<◌, ◌≡◌, refl, ap, sym, ◌∙◌, Bool, true, false, ok, List, [], ◌∷◌, ◌++◌, append_assoc,
  append-nil, arith, leb,
}
use mathlib.Core.Path.{subst}
use prehnite_db.Bytes.{Bytes}
use prehnite_db.Maps.{insert, insert_all, retain}
use prehnite_db.Maps.Laws.{IsDistinct, insert_all-IsDistinct, retain-IsDistinct, insert_all-nil}
use prehnite_db.Clog.{Status, Record, ClogState}
use prehnite_db.Clog.File.{header, encode_record, encode_records}
use prehnite_db.Clog.File.RoundTrip.{IsBatch}
use prehnite_db.Clog.Append.{enqueue, take_turn, lead, publish, written, write_and_fsync}
use prehnite_db.Clog.Truncate.{begin_truncate, rewrite, swap_file, end_truncate, image, replaced}
use prehnite_db.Clog.System.{
  System, Task, idle, flushing, flushed, truncating, swapped, Step, enqueue_record, start_flush,
  write_flush, publish_flush, fail_flush, start_truncate, swap, publish_truncation, fail_truncation,
  Reach, here, next, fresh,
}

-- The state with what has been written, and is still to be published.
abbrev pub published : Task → ClogState → ClogState
published (flushed batch lsn) s = publish batch lsn (ok tt) s
published (swapped floor) s = end_truncate replaced floor s
published task s = s

-- What the holder of the flush slot carries: records of `u64` ids, or the kept part of the map.
abbrev pub Carries : ClogState → Task → Type 0
Carries s idle = Unit
Carries s (flushing batch lsn) = (s.flushing ≡ true) × IsBatch batch
Carries s (flushed batch lsn) = s.flushing ≡ true
Carries s (truncating floor kept) =
    (s.flushing ≡ true) × (floor < 2 ^ 64) × (kept ≡ retain (λ id. leb floor id) s.map)
Carries s (swapped floor) = s.flushing ≡ true

-- `log` is the sequence of the records in the file.
pub record IsMirrored (s : System) : Type 0 where
  pub log : List Record
  pub file : s.file ≡ header (published s.task s.state).min_tx_id ++ encode_records log
  pub ids : IsBatch log
  pub map : insert_all log [] ≡ (published s.task s.state).map
  pub floor : (published s.task s.state).min_tx_id < 2 ^ 64
  pub pending : IsBatch s.state.pending
  pub task : Carries s.state s.task

IsBatch-append : (x y : List Record) → IsBatch x → IsBatch y → IsBatch (x ++ y)
IsBatch-append [] y hx hy = hy
IsBatch-append (r ∷ x) y hx hy = (hx.0, IsBatch-append x y hx.1 hy)

IsBatch-insert :
    (tx : ℕ) (st : Status) (m : List Record) → tx < 2 ^ 64 → IsBatch m → IsBatch (insert tx st m)
unfolding insert
IsBatch-insert tx st [] h hm = (h, tt)
IsBatch-insert tx st ((j, w) ∷ m) h hm = ground (arith, IsBatch-insert tx st m h hm.1)

IsBatch-insert_all :
    (batch m : List Record) → IsBatch batch → IsBatch m → IsBatch (insert_all batch m)
unfolding insert_all
IsBatch-insert_all [] m h hm = hm
IsBatch-insert_all ((tx, st) ∷ batch) m h hm =
    IsBatch-insert_all batch (insert tx st m) h.1 (IsBatch-insert tx st m h.0 hm)

IsBatch-retain : (p : ℕ → Bool) (m : List Record) → IsBatch m → IsBatch (retain p m)
unfolding retain
IsBatch-retain p [] h = tt
IsBatch-retain p ((j, w) ∷ m) h = ground (arith, IsBatch-retain p m h.1)

encode_records-append :
    (x y : List Record) → encode_records (x ++ y) ≡ encode_records x ++ encode_records y
unfolding encode_records
encode_records-append [] y = refl
encode_records-append (r ∷ x) y =
    ap (λ e. encode_record r ++ e) (encode_records-append x y)
    ∙ sym (append_assoc (encode_record r) (encode_records x) (encode_records y))

insert_all-append : (x y m : List Record) → insert_all (x ++ y) m ≡ insert_all y (insert_all x m)
unfolding insert_all
insert_all-append [] y m = refl
insert_all-append ((k, v) ∷ x) y m = insert_all-append x y (insert k v m)

enqueue-Carries :
    (tx : ℕ) (st : Status) (s : ClogState) (task : Task)
    → Carries s task
    → Carries (enqueue tx st s).1 task
unfolding enqueue
enqueue-Carries tx st s idle c = c
enqueue-Carries tx st s (flushing batch lsn) c = c
enqueue-Carries tx st s (flushed batch lsn) c = c
enqueue-Carries tx st s (truncating floor kept) c = c
enqueue-Carries tx st s (swapped floor) c = c

-- A queued record changes neither the map nor the floor.
published-enqueue :
    (tx : ℕ) (st : Status) (s : ClogState) (task : Task)
    → ((published task (enqueue tx st s).1).map ≡ (published task s).map)
      × ((published task (enqueue tx st s).1).min_tx_id ≡ (published task s).min_tx_id)
unfolding enqueue publish end_truncate
published-enqueue tx st s idle = (refl, refl)
published-enqueue tx st s (flushing batch lsn) = (refl, refl)
published-enqueue tx st s (flushed batch lsn) = (refl, refl)
published-enqueue tx st s (truncating floor kept) = (refl, refl)
published-enqueue tx st s (swapped floor) = (refl, refl)

-- The flush slot is free only while nobody holds it.
free-idle : (s : ClogState) (task : Task) → Carries s task → s.flushing ≡ false → task ≡ idle
free-idle s idle c h = refl
free-idle s (flushing batch lsn) c h = cc
free-idle s (flushed batch lsn) c h = cc
free-idle s (truncating floor kept) c h = cc
free-idle s (swapped floor) c h = cc

write_and_fsync-written :
    (batch : List Record) (file : Bytes)
    → (write_and_fsync written batch file).1 ≡ file ++ encode_records batch
unfolding write_and_fsync encode_records
write_and_fsync-written [] file = sym (append-nil file)
write_and_fsync-written (r ∷ batch) file = refl

-- A leader takes the pending records with it, and changes neither map nor floor.
take_turn-lead :
    (target : ℕ) (s : ClogState) {batch : List Record} {lsn : ℕ}
    → (take_turn target s).0 ≡ lead batch lsn
    → (batch ≡ s.pending)
      × ((take_turn target s).1 ≡ record s { flushing = true; pending = [] })
      × (s.flushing ≡ false)
unfolding take_turn
take_turn-lead target s e = ground arith

begin_truncate-rewrite :
    (floor : ℕ) (s : ClogState) {kept : List Record}
    → (begin_truncate floor s).0 ≡ rewrite kept
    → (kept ≡ retain (λ id. leb floor id) s.map)
      × ((begin_truncate floor s).1 ≡ record s { flushing = true })
      × (s.flushing ≡ false)
unfolding begin_truncate
begin_truncate-rewrite floor s e = ground arith

-- Under a free slot the state is published.
module _ {s : System} (m : IsMirrored s) where
  carried : {task : Task} → s.task ≡ task → Carries s.state task
  carried e = subst (Carries s.state) e m.task

  file_at :
      {task : Task}
      → s.task ≡ task
      → s.file ≡ header (published task s.state).min_tx_id ++ encode_records m.log
  file_at e = m.file ∙ ap (λ t. header (published t s.state).min_tx_id ++ encode_records m.log) e

  map_at : {task : Task} → s.task ≡ task → insert_all m.log [] ≡ (published task s.state).map
  map_at e = m.map ∙ ap (λ t. (published t s.state).map) e

  floor_at : {task : Task} → s.task ≡ task → (published task s.state).min_tx_id < 2 ^ 64
  floor_at e = subst (λ (t : Task). (published t s.state).min_tx_id < 2 ^ 64) e m.floor

Step-IsMirrored : {s t : System} → Step s t → IsMirrored s → IsMirrored t
Step-IsMirrored (enqueue_record s tx st h) m =
    let (map, floor) = published-enqueue tx st s.state s.task in
    record {
      log = m.log;
      file = m.file ∙ ap (λ n. header n ++ encode_records m.log) (sym floor);
      ids = m.ids;
      map = m.map ∙ sym map;
      floor = rw floor m.floor;
      pending = unfold enqueue in IsBatch-append s.state.pending ((tx, st) ∷ []) m.pending (h, tt);
      task = enqueue-Carries tx st s.state s.task m.task;
    }
Step-IsMirrored (start_flush s target batch lsn e) m =
    let (b, same, free) = take_turn-lead target s.state e in
    let none_held = free-idle s.state s.task m.task free in
    record {
      log = m.log;
      file = rw same (file_at m none_held);
      ids = m.ids;
      map = rw same (map_at m none_held);
      floor = rw same (floor_at m none_held);
      pending = rw same tt;
      task = rw same (refl, rw b m.pending);
    }
Step-IsMirrored (write_flush s batch lsn e) m =
    let (held, ids) = carried m e in
    record {
      log = m.log ++ batch;
      file =
          unfold publish in
          write_and_fsync-written batch s.file
          ∙ ap (λ f. f ++ encode_records batch) (file_at m e)
          ∙ append_assoc (header s.state.min_tx_id) (encode_records m.log) (encode_records batch)
          ∙ ap (λ r. header s.state.min_tx_id ++ r) (sym (encode_records-append m.log batch));
      ids = IsBatch-append m.log batch m.ids ids;
      map = unfold publish in insert_all-append m.log batch [] ∙ ap (insert_all batch) (map_at m e);
      floor = unfold publish in floor_at m e;
      pending = m.pending;
      task = held;
    }
Step-IsMirrored (publish_flush s batch lsn e) m = record {
  log = m.log;
  file = file_at m e;
  ids = m.ids;
  map = map_at m e;
  floor = floor_at m e;
  pending = unfold publish in m.pending;
  task = tt;
}
Step-IsMirrored (fail_flush s batch lsn e) m = record {
  log = m.log;
  file = unfold publish in file_at m e;
  ids = m.ids;
  map = unfold publish in map_at m e;
  floor = unfold publish in floor_at m e;
  pending = unfold publish in m.pending;
  task = tt;
}
Step-IsMirrored (start_truncate s floor kept h e) m =
    let (k, same, free) = begin_truncate-rewrite floor s.state e in
    let none_held = free-idle s.state s.task m.task free in
    record {
      log = m.log;
      file = rw same (file_at m none_held);
      ids = m.ids;
      map = rw same (map_at m none_held);
      floor = rw same (floor_at m none_held);
      pending = rw same m.pending;
      task = rw same (refl, h, k);
    }
Step-IsMirrored (swap s floor kept e) m =
    let (held, bound, k) = carried m e in
    let distinct = subst IsDistinct (map_at m e) (insert_all-IsDistinct m.log [] tt) in
    let ids = subst IsBatch (map_at m e) (IsBatch-insert_all m.log [] m.ids tt) in
    record {
      log = kept;
      file = unfold end_truncate swap_file image in refl;
      ids = rw k (IsBatch-retain (λ id. leb floor id) s.state.map ids);
      map =
          unfold end_truncate in
          rw k (
            insert_all-nil (retain (λ id. leb floor id) s.state.map)
              (retain-IsDistinct _ s.state.map distinct));
      floor = unfold end_truncate in bound;
      pending = m.pending;
      task = held;
    }
Step-IsMirrored (publish_truncation s floor e) m = record {
  log = m.log;
  file = file_at m e;
  ids = m.ids;
  map = map_at m e;
  floor = floor_at m e;
  pending = unfold end_truncate in m.pending;
  task = tt;
}
Step-IsMirrored (fail_truncation s floor kept e) m = record {
  log = m.log;
  file = unfold end_truncate in file_at m e;
  ids = m.ids;
  map = unfold end_truncate in map_at m e;
  floor = unfold end_truncate in floor_at m e;
  pending = unfold end_truncate in m.pending;
  task = tt;
}

fresh-IsMirrored : IsMirrored fresh
fresh-IsMirrored = record {
  log = [];
  file = unfold encode_records in sym (append-nil (header 0));
  ids = tt;
  map = unfold insert_all in refl;
  floor = omega arith;
  pending = tt;
  task = tt;
}

pub Reach-IsMirrored : {s : System} → Reach fresh s → IsMirrored s
Reach-IsMirrored here = fresh-IsMirrored
Reach-IsMirrored (next r st) = Step-IsMirrored st (Reach-IsMirrored r)

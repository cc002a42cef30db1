-- ===== src/Transaction/Rowids/Unique.antt =====
-- No rowid is handed out twice.
use prehnite_db.Prelude.{
  ℕ, ◌+◌, ◌%◌, ◌^◌, ◌≤◌, ◌<◌, ◌≡◌, refl, sym, ap, ◌∙◌, true, false, [], ◌∷◌, some, max,
  if◌then◌else◌, arith, Bool-cases, inl, inr,
}
use mathlib.Core.Path.{subst}
use prehnite_db.Bytes.{Bytes, bytes_eq}
use prehnite_db.Ssi.Locks.{bytes_eq→eq, bytes_eq_refl}
use prehnite_db.Transaction.Rowids.{
  Counters, counter, store, raise, bump, raised, value, reserve_rowid, current_next_rowid,
}

-- The atomic operations of calls for whatever tables, interleaved in whatever order, as long as no
-- counter is at its last value.
pub data Steps (c : Counters) : Counters → Type 0 where
  here : Steps c c
  raising : {d : Counters} (table : Bytes) (floor : ℕ) → Steps c d → Steps c (raise table floor d)
  bumping :
      {d : Counters} (table : Bytes)
      → Steps c d
      → (bump table d).0 + 1 < 2 ^ 64
      → Steps c (bump table d).1

bytes_eq_apart : (a b j : Bytes) → bytes_eq a b ≡ false → bytes_eq a j ≡ true → bytes_eq b j ≡ false
bytes_eq_apart a b j h e = elim (Bool-cases (bytes_eq b j)) [
  | inl same ↦ cc (subst (λ (x : Bytes). bytes_eq a x ≡ true) (sym (bytes_eq→eq b j same)) e)
  | inr apart ↦ apart
]

counter-store :
    (j table : Bytes) (m : ℕ) (c : Counters)
    → counter j (store table m c) ≡ (if bytes_eq table j then some m else counter j c)
unfolding counter store
counter-store j table m [] = refl
counter-store j table m ((name, n) ∷ c) = elim (Bool-cases (bytes_eq name table)) [
  | inl e ↦ rw (e, bytes_eq→eq name table e) (ground arith)
  | inr e ↦ elim (Bool-cases (bytes_eq name j)) [
    | inl first ↦ rw (e, first, bytes_eq_apart name table j e first) refl
    | inr other ↦ rw (e, other) (counter-store j table m c)
  ]
]

-- The counter of the table has passed the rowid.
abbrev IsPast : Bytes → ℕ → Counters → Type 0
IsPast table r c = (n : ℕ) × ((counter table c ≡ some n) × (r < n))

store-IsPast :
    (table other : Bytes) (r m : ℕ) (c : Counters)
    → IsPast table r c
    → ((n : ℕ) → counter other c ≡ some n → n ≤ m)
    → IsPast table r (store other m c)
store-IsPast table other r m c (n, (at, past)) grows = elim (Bool-cases (bytes_eq other table)) [
  | inl same ↦
      let here : counter other c ≡ some n = rw (bytes_eq→eq other table same) at in
      (m, (counter-store table other m c ∙ rw same refl, omega (arith, grows n here)))
  | inr apart ↦ (n, (counter-store table other m c ∙ rw apart at, past))
]

raise-IsPast :
    (table other : Bytes) (floor r : ℕ) (c : Counters)
    → IsPast table r c
    → IsPast table r (raise other floor c)
unfolding raise
raise-IsPast table other floor r c h =
    store-IsPast table other r (raised (counter other c) floor) c h (λ n e. rw e (ground arith))

bump-IsPast :
    (table other : Bytes) (r : ℕ) (c : Counters)
    → (bump other c).0 + 1 < 2 ^ 64
    → IsPast table r c
    → IsPast table r (bump other c).1
unfolding bump
bump-IsPast table other r c room h =
    store-IsPast table other r _ c h (λ n e. ground (arith, rw e at room))

Steps-IsPast :
    (table : Bytes) (r : ℕ) {c d : Counters} → Steps c d → IsPast table r c → IsPast table r d
Steps-IsPast table r here h = h
Steps-IsPast table r (raising {d} other floor s) h =
    raise-IsPast table other floor r d (Steps-IsPast table r s h)
Steps-IsPast table r (bumping {d} other s room) h =
    bump-IsPast table other r d room (Steps-IsPast table r s h)

-- The rowid that a call has returned is behind the counter.
reserve_rowid-IsPast :
    (table : Bytes) (floor : ℕ) (c : Counters)
    → (reserve_rowid table floor c).0 + 1 < 2 ^ 64
    → IsPast table (reserve_rowid table floor c).0 (reserve_rowid table floor c).1
unfolding reserve_rowid bump
reserve_rowid-IsPast table floor c room =
    let n = value (counter table (raise table floor c)) in
    (
      (n + 1) % 2 ^ 64,
      (
        counter-store table table ((n + 1) % 2 ^ 64) (raise table floor c)
            ∙ rw (bytes_eq_refl table) refl,
        omega arith,
      ),
    )

counter-raise :
    (table : Bytes) (floor : ℕ) (c : Counters)
    → counter table (raise table floor c) ≡ some (raised (counter table c) floor)
unfolding raise
counter-raise table floor c =
    counter-store table table (raised (counter table c) floor) c ∙ rw (bytes_eq_refl table) refl

reserve_rowid-floor :
    (table : Bytes) (floor : ℕ) (c : Counters)
    → (reserve_rowid table floor c).0 ≡ raised (counter table c) floor
unfolding reserve_rowid bump
reserve_rowid-floor table floor c = ap value (counter-raise table floor c)

-- A rowid is never handed out twice: a later call for the same table returns a greater one,
-- which is not below the floor of that call, whatever atomic operations of calls for whatever
-- tables come between, as long as no counter passes the last value of a `u64`.
pub reserve_rowid-Steps :
    (table : Bytes) (floor later_floor : ℕ) (c : Counters) {d : Counters}
    → (reserve_rowid table floor c).0 + 1 < 2 ^ 64
    → Steps (reserve_rowid table floor c).1 d
    → ((reserve_rowid table floor c).0 < (reserve_rowid table later_floor d).0)
      × (later_floor ≤ (reserve_rowid table later_floor d).0)
reserve_rowid-Steps table floor later_floor c {d} room s =
    let (n, (at, past)) =
      Steps-IsPast table (reserve_rowid table floor c).0 s
        (reserve_rowid-IsPast table floor c room) in
    let next : (reserve_rowid table later_floor d).0 ≡ max n later_floor =
      reserve_rowid-floor table later_floor d ∙ ap (λ o. raised o later_floor) at in
    (ground arith, ground arith)

-- What is written back to the schema lies above every rowid that was handed out for the table
-- before, as long as no counter passes the last value of a `u64`.
pub current_next_rowid-Steps :
    (table : Bytes) (floor later_floor : ℕ) (c : Counters) {d : Counters}
    → (reserve_rowid table floor c).0 + 1 < 2 ^ 64
    → Steps (reserve_rowid table floor c).1 d
    → (reserve_rowid table floor c).0 < (current_next_rowid table later_floor d).0
unfolding current_next_rowid
current_next_rowid-Steps table floor later_floor c {d} room s =
    let (n, (at, past)) =
      Steps-IsPast table (reserve_rowid table floor c).0 s
        (reserve_rowid-IsPast table floor c room) in
    let next : value (counter table (raise table later_floor d)) ≡ max n later_floor =
      ap value (counter-raise table later_floor d ∙ ap (λ o. some (raised o later_floor)) at) in
    ground arith

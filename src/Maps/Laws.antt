-- ===== src/Maps/Laws.antt =====
-- What the maps and the sets promise: a write is read back, and nothing else changes.
use prehnite_db.Prelude.{
  ℕ, ◌≡◌, refl, Bool, true, false, ◌||◌, ◌&&◌, not, List, [], ◌∷◌, ◌++◌, Option, none, some, ◌==◌,
  if◌then◌else◌, arith, sym, ◌∙◌, append_assoc, append-nil, Bool-cases, inl, inr, ==→eq,
}
use mathlib.Core.Path.{subst}
use prehnite_db.Maps.{get, insert, remove, retain, modify, insert_all, has, contains, add, discard}

abbrev pub mapped : {V : Type 0} → (V → V) → Option V → Option V
mapped f none = none
mapped f (some v) = some (f v)

module _ {V : Type 0} where
  pub get-insert :
      (j k : ℕ) (v : V) (m : List (ℕ × V))
      → get j (insert k v m) ≡ (if k == j then some v else get j m)
  unfolding get insert
  get-insert j k v [] = refl
  get-insert j k v ((i, w) ∷ m) = ground (arith, get-insert j k v m)

  pub get-remove :
      (j k : ℕ) (m : List (ℕ × V)) → get j (remove k m) ≡ (if k == j then none else get j m)
  unfolding get remove
  get-remove j k [] = ground arith
  get-remove j k ((i, w) ∷ m) = ground (arith, get-remove j k m)

  pub get-retain :
      (j : ℕ) (p : ℕ → Bool) (m : List (ℕ × V))
      → get j (retain p m) ≡ (if p j then get j m else none)
  unfolding get retain
  get-retain j p [] = ground arith
  get-retain j p ((i, w) ∷ m) = ground (arith, get-retain j p m)

  pub get-modify :
      (j k : ℕ) (f : V → V) (m : List (ℕ × V))
      → get j (modify k f m) ≡ (if k == j then mapped f (get j m) else get j m)
  unfolding get modify
  get-modify j k f [] = ground arith
  get-modify j k f ((i, w) ∷ m) = ground (arith, get-modify j k f m)

  pub has-++ : (j : ℕ) (m n : List (ℕ × V)) → has j (m ++ n) ≡ (has j m || has j n)
  unfolding has
  has-++ j [] n = refl
  has-++ j ((i, w) ∷ m) n = ground (arith, has-++ j m n)

  pub get-insert_all :
      (j : ℕ) (batch m : List (ℕ × V)) → has j batch ≡ false → get j (insert_all batch m) ≡ get j m
  unfolding has insert_all
  get-insert_all j [] m h = refl
  get-insert_all j ((i, w) ∷ batch) m h =
      ground (arith, get-insert_all j batch (insert i w m), get-insert j i w m)

  -- No key stands twice.
  abbrev pub IsDistinct : List (ℕ × V) → Type 0
  IsDistinct [] = Unit
  IsDistinct ((k, v) ∷ m) = (has k m ≡ false) × IsDistinct m

  has-insert : (j k : ℕ) (v : V) (m : List (ℕ × V)) → has j (insert k v m) ≡ (k == j || has j m)
  unfolding has insert
  has-insert j k v [] = refl
  has-insert j k v ((i, w) ∷ m) = ground (arith, has-insert j k v m)

  pub insert-IsDistinct :
      (k : ℕ) (v : V) (m : List (ℕ × V)) → IsDistinct m → IsDistinct (insert k v m)
  unfolding has insert
  insert-IsDistinct k v [] h = (refl, tt)
  insert-IsDistinct k v ((i, w) ∷ m) h =
      ground (arith, insert-IsDistinct k v m h.1, has-insert i k v m)

  pub insert_all-IsDistinct :
      (batch m : List (ℕ × V)) → IsDistinct m → IsDistinct (insert_all batch m)
  unfolding insert_all
  insert_all-IsDistinct [] m h = h
  insert_all-IsDistinct ((k, v) ∷ batch) m h =
      insert_all-IsDistinct batch (insert k v m) (insert-IsDistinct k v m h)

  has-retain :
      (k : ℕ) (p : ℕ → Bool) (m : List (ℕ × V)) → has k m ≡ false → has k (retain p m) ≡ false
  unfolding has retain
  has-retain k p [] h = refl
  has-retain k p ((i, w) ∷ m) h = ground (arith, has-retain k p m)

  pub retain-IsDistinct : (p : ℕ → Bool) (m : List (ℕ × V)) → IsDistinct m → IsDistinct (retain p m)
  unfolding retain
  retain-IsDistinct p [] h = tt
  retain-IsDistinct p ((i, w) ∷ m) h =
      ground (arith, retain-IsDistinct p m h.1, has-retain i p m h.0)

  insert_absent :
      (k : ℕ) (v : V) (m : List (ℕ × V)) → has k m ≡ false → insert k v m ≡ m ++ (k, v) ∷ []
  unfolding has insert
  insert_absent k v [] h = refl
  insert_absent k v ((i, w) ∷ m) h = ground (arith, insert_absent k v m)

  has-snoc : (j k : ℕ) (v : V) (m : List (ℕ × V)) → has j (m ++ (k, v) ∷ []) ≡ (k == j || has j m)
  unfolding has
  has-snoc j k v [] = refl
  has-snoc j k v ((i, w) ∷ m) = ground (arith, has-snoc j k v m)

  insert_all_apart :
      (batch m : List (ℕ × V))
      → IsDistinct batch
      → ((k : ℕ) → has k batch ≡ true → has k m ≡ false)
      → insert_all batch m ≡ m ++ batch
  unfolding insert_all
  insert_all_apart [] m h apart = sym (append-nil m)
  insert_all_apart ((k, v) ∷ batch) m h apart =
      rw (insert_absent k v m (apart k (unfold has in ground arith))) (
        insert_all_apart batch (m ++ (k, v) ∷ []) h.1
          (λ j present. unfold has in ground (arith, has-snoc j k v m, apart j, h.0))
        ∙ append_assoc m ((k, v) ∷ []) batch)

  -- Entered one by one into an empty map, the entries of a map give the map again.
  pub insert_all-nil : (m : List (ℕ × V)) → IsDistinct m → insert_all m [] ≡ m
  insert_all-nil m h = insert_all_apart m [] h (λ k p. unfold has in refl)

-- Sets.
contains_eq : (j k : ℕ) (s : List ℕ) → contains k s ≡ true → (k == j) ≡ true → contains j s ≡ true
contains_eq j k s h e = subst (λ (x : ℕ). contains x s ≡ true) (==→eq k j e) h

pub contains-add : (j k : ℕ) (s : List ℕ) → contains j (add k s) ≡ (k == j || contains j s)
unfolding add contains
contains-add j k s = elim (Bool-cases (contains k s)) [
  | inl old ↦ rw old (ground (arith, contains_eq j k s))
  | inr new ↦ rw new
]

pub contains-discard :
    (j k : ℕ) (s : List ℕ) → contains j (discard k s) ≡ (not (k == j) && contains j s)
unfolding contains discard
contains-discard j k [] = ground arith
contains-discard j k (i ∷ s) = ground (arith, contains-discard j k s)

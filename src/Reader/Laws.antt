-- ===== src/Reader/Laws.antt =====
-- `Reads p bs a`: before any further input, `p` takes exactly the bytes `bs` and returns `a`.
use prehnite_db.Prelude.{
  ℕ, ◌≡◌, refl, ◌∙◌, List, [], ◌∷◌, ◌++◌, append_assoc, Error, Result, ok, err, length, arith,
  length-append, take-append, drop-append, le→leb,
}
use prehnite_db.Bytes.{Bytes}
use prehnite_db.Reader.{Parser, pure, ◌>>=◌, take_bytes, take_u8, repeat}

pub record Reads {A : Type 0} (p : Parser A) (bs : Bytes) (a : A) : Type 0 where
  pub at : (rest : Bytes) → p (bs ++ rest) ≡ ok (a, rest)

pub bind-ok :
    {A B : Type 0} (p : Parser A) (f : A → Parser B) (s : Bytes) {a : A} {rest : Bytes}
    → p s ≡ ok (a, rest)
    → (p >>= f) s ≡ f a rest
unfolding ◌>>=◌
bind-ok p f s h = rw (h, ◌>>=◌)

pub Reads-pure : {A : Type 0} (a : A) → Reads (pure a) [] a
unfolding pure
Reads-pure a = record { at = λ rest. refl }

pub Reads-bind :
    {A B : Type 0} {p : Parser A} (f : A → Parser B) {bs cs : Bytes} {a : A} {b : B}
    → Reads p bs a
    → Reads (f a) cs b
    → Reads (p >>= f) (bs ++ cs) b
Reads-bind {p} f {bs} {cs} hp hf = record {
  at = λ rest. rw append_assoc (bind-ok p f _ (hp.at (cs ++ rest)) ∙ hf.at rest);
}

-- The last action of a block, whose continuation reads nothing.
pub Reads-last :
    {A B : Type 0} {p : Parser A} (f : A → Parser B) {bs : Bytes} {a : A} {b : B}
    → Reads p bs a
    → Reads (f a) [] b
    → Reads (p >>= f) bs b
Reads-last {p} f {bs} hp hf = record { at = λ rest. bind-ok p f _ (hp.at rest) ∙ hf.at rest }

pub Reads-take : (e : Error) (n : ℕ) (bs : Bytes) → length bs ≡ n → Reads (take_bytes e n) bs bs
unfolding take_bytes
Reads-take e n bs h = record {
  at = λ rest. rw (
    ← h,
    le→leb (length bs) (length (bs ++ rest)) (omega (arith, length-append bs rest)),
    take-append,
    drop-append,
  );
}

pub Reads-u8 : (e : Error) (b : ℕ) → Reads (take_u8 e) (b ∷ []) b
unfolding take_u8
Reads-u8 e b = Reads-last _ (Reads-take e 1 (b ∷ []) refl) (Reads-pure b)

-- What a successful block came from.
pub bind-eq-ok :
    {A B : Type 0} (p : Parser A) (f : A → Parser B) (s : Bytes) {b : B} {rest : Bytes}
    → (p >>= f) s ≡ ok (b, rest)
    → (a : A) × (mid : Bytes) × (p s ≡ ok (a, mid)) × (f a mid ≡ ok (b, rest))
unfolding ◌>>=◌
bind-eq-ok {A} p f s {b} {rest} h = go (p s) refl
  where
    go :
        (r : Result (A × Bytes))
        → p s ≡ r
        → (a : A) × (mid : Bytes) × (p s ≡ ok (a, mid)) × (f a mid ≡ ok (b, rest))
    go (ok (a, mid)) e = (a, mid, e, rw (e, ◌>>=◌) at h)
    go (err x) e = cc (rw (e, ◌>>=◌) at h)

-- Byte strings one after the other, as `extend_from_slice` appends them.
abbrev pub emit : List Bytes → Bytes
emit [] = []
emit (c ∷ cs) = c ++ emit cs

-- The bytes of each element in turn.
abbrev pub concat_map : {A : Type 0} → (A → Bytes) → List A → Bytes
concat_map f [] = []
concat_map f (x ∷ xs) = f x ++ concat_map f xs

abbrev pub Each : {A : Type 0} → (A → Type 0) → List A → Type 0
Each P [] = Unit
Each P (x ∷ xs) = P x × Each P xs

pub Reads-repeat :
    {A : Type 0} (P : A → Type 0) (p : Parser A) (f : A → Bytes)
    → ((a : A) → P a → Reads p (f a) a)
    → (xs : List A) → Each P xs
    → Reads (repeat (length xs) p) (concat_map f xs) xs
unfolding repeat
Reads-repeat P p f h [] hs = Reads-pure []
Reads-repeat P p f h (x ∷ xs) hs =
    Reads-bind _ (h x hs.0) (Reads-last _ (Reads-repeat P p f h xs hs.1) (Reads-pure (x ∷ xs)))

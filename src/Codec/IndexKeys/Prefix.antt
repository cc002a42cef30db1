-- ===== src/Codec/IndexKeys/Prefix.antt =====
-- The half-open scan from a prefix to its upper bound reads exactly the keys with that prefix.
use prehnite_db.Prelude.{
  ℕ, ◌+◌, ◌<◌, ◌≡◌, refl, ap, Ordering, Bool, true, false, ◌&&◌, [], ◌∷◌, ◌++◌, Option, none, some,
  ◌==◌, if◌then◌else◌, arith, ◌∙◌,
}
use mathlib.Core.List.{reverse, reverse-cons, reverse-append}
use prehnite_db.Bytes.{Bytes, IsBytes, cmp}
use prehnite_db.Codec.IndexKeys.{pop_loop, reversed, prefix_upper_bound}

abbrev pub starts_with : Bytes → Bytes → Bool
starts_with [] k = true
starts_with (a ∷ p) [] = false
starts_with (a ∷ p) (b ∷ k) = a == b && starts_with p k

-- `start <= key`
abbrev pub at_least : Bytes → Bytes → Bool
at_least start key = elim (cmp start key) [ Ordering.gt ↦ false | _ ↦ true ]

-- `key < end`, or no bound.
abbrev pub below : Bytes → Option Bytes → Bool
below key none = true
below key (some end) = elim (cmp key end) [ Ordering.lt ↦ true | _ ↦ false ]

abbrev in_front : ℕ → Option Bytes → Option Bytes
in_front a none = if a == 0xff then none else some ((a + 1) ∷ [])
in_front a (some u) = some (a ∷ u)

-- The bound, computed from the front.
bound : Bytes → Option Bytes
bound [] = none
bound (a ∷ p) = in_front a (bound p)

reversed-pop_loop :
    (x : Bytes) (a : ℕ) → reversed (pop_loop (x ++ a ∷ [])) ≡ in_front a (reversed (pop_loop x))
unfolding pop_loop
reversed-pop_loop [] a = ground arith
reversed-pop_loop (b ∷ x) a =
    ground (arith, reversed-pop_loop x a, reverse-append ((b + 1) ∷ x) (a ∷ []))

prefix_upper_bound-bound : (p : Bytes) → prefix_upper_bound p ≡ bound p
unfolding prefix_upper_bound bound
prefix_upper_bound-bound [] = unfold pop_loop in refl
prefix_upper_bound-bound (a ∷ p) =
    ap (λ x. reversed (pop_loop x)) (reverse-cons a p)
    ∙ reversed-pop_loop (reverse p) a
    ∙ ap (in_front a) (prefix_upper_bound-bound p)

below_nil : (k : Bytes) → below k (some []) ≡ false
unfolding cmp
below_nil [] = refl
below_nil (b ∷ k) = refl

scan_cons :
    (a b : ℕ) (p k : Bytes) (u : Option Bytes)
    → b < 256
    → (at_least (a ∷ p) (b ∷ k) && below (b ∷ k) (in_front a u))
      ≡ (a == b && (at_least p k && below k u))
unfolding cmp
scan_cons a b p k none h = ground (arith, below_nil k)
scan_cons a b p k (some u) h = ground arith

scan-bound : (p k : Bytes) → IsBytes k → (at_least p k && below k (bound p)) ≡ starts_with p k
unfolding bound
scan-bound [] [] h = unfold cmp in refl
scan-bound [] (b ∷ k) h = unfold cmp in refl
scan-bound (a ∷ p) [] h = unfold cmp in refl
scan-bound (a ∷ p) (b ∷ k) h =
    scan_cons a b p k (bound p) h.0 ∙ ap (λ s. a == b && s) (scan-bound p k h.1)

-- A key of bytes is at least a prefix and below the prefix's upper bound, if there is one,
-- exactly when it starts with the prefix.
pub scan-prefix_upper_bound :
    (p k : Bytes) → IsBytes k → (at_least p k && below k (prefix_upper_bound p)) ≡ starts_with p k
scan-prefix_upper_bound p k h = rw prefix_upper_bound-bound (scan-bound p k h)

-- ===== src/Btree/Split.antt =====
-- Both halves of a split node fit into a page.
use prehnite_db.Prelude.{
  ℕ, zero, suc, ◌+◌, ◌-◌, ◌*◌, ◌/◌, ◌≤◌, ◌<◌, ◌≡◌, refl, sym, ap, ◌∙◌, ◌&&◌, List, [], ◌∷◌, Option,
  none, some, ltb, leb, if◌then◌else◌, length, take, drop, arith, All, Bool-cases, inl, inr,
}
use mathlib.Core.Path.{subst}
use prehnite_db.Btree.{
  slot_size, max_cell, usable, sum, balanced_cut, fitting_cut, clamped, split_index,
}

sum-take-drop : (n : ℕ) (x : List ℕ) → sum (take n x) + sum (drop n x) ≡ sum x
unfolding sum
sum-take-drop zero x = omega arith
sum-take-drop (suc n) [] = omega arith
sum-take-drop (suc n) (b ∷ x) = omega (arith, sum-take-drop n x)

-- A cut behind `j` of the footprints.
record IsCut (i acc : ℕ) (footprints : List ℕ) (cut bytes : ℕ) : Type 0 where
  taken : ℕ
  place : cut ≡ i + taken
  bytes_before : bytes ≡ acc + sum (take taken footprints)
  some_taken : 0 < taken

balanced_cut-IsCut :
    (total i acc : ℕ) (footprints : List ℕ) {cut bytes : ℕ}
    → balanced_cut total i acc footprints ≡ some (cut, bytes)
    → IsCut i acc footprints cut bytes
unfolding balanced_cut sum
balanced_cut-IsCut total i acc [] h = ground arith
balanced_cut-IsCut total i acc (fp ∷ footprints) h =
    elim (Bool-cases (leb total ((acc + fp) * 2))) [
      | inl half ↦
          let e = rw half at h in
          record {
            taken = 1;
            place = ground arith;
            bytes_before = ground arith;
            some_taken = omega arith;
          }
      | inr less ↦
          let later = balanced_cut-IsCut total (i + 1) (acc + fp) footprints (rw less at h) in
          record {
            taken = suc later.taken;
            place = omega (arith, later.place);
            bytes_before = omega (arith, later.bytes_before);
            some_taken = omega arith;
          }
    ]

-- The prefix fits, and one footprint more would not.
record IsLargest (i acc : ℕ) (footprints : List ℕ) (cut : ℕ) : Type 0 where
  taken : ℕ
  place : cut ≡ i + taken
  within : taken ≤ length footprints
  fits : acc + sum (take taken footprints) ≤ usable
  full : (taken < length footprints) → usable < acc + sum (take (suc taken) footprints)

fitting_cut-IsLargest :
    (i acc : ℕ) (footprints : List ℕ)
    → acc ≤ usable
    → IsLargest i acc footprints (fitting_cut i acc i footprints)
unfolding fitting_cut sum
fitting_cut-IsLargest i acc [] h = record {
  taken = 0;
  place = omega arith;
  within = omega arith;
  fits = omega arith;
  full = λ more. absurd (omega (arith, more));
}
fitting_cut-IsLargest i acc (fp ∷ footprints) h = elim (Bool-cases (ltb usable (acc + fp))) [
  | inl over ↦ rw over (record {
    taken = 0;
    place = omega arith;
    within = omega arith;
    fits = omega arith;
    full = λ more. ground arith;
  })
  | inr room ↦
      let later = fitting_cut-IsLargest (i + 1) (acc + fp) footprints (ground arith) in
      rw room (record {
        taken = suc later.taken;
        place = omega (arith, later.place);
        within = omega (arith, later.within);
        fits = omega (arith, later.fits);
        full = λ more. omega (arith, later.full (omega (arith, more)));
      })
]

-- Neither half is empty, and both fit.
pub record IsSplit (footprints : List ℕ) (s : ℕ) : Type 0 where
  pub left_some : 0 < s
  pub right_some : s < length footprints
  pub left_fits : sum (take s footprints) ≤ usable
  pub right_fits : sum (drop s footprints) ≤ usable

sum-take-suc :
    (bound j : ℕ) (footprints : List ℕ)
    → All (λ fp. fp ≤ bound) footprints
    → sum (take (suc j) footprints) ≤ sum (take j footprints) + bound
unfolding sum
sum-take-suc bound j [] h = omega arith
sum-take-suc bound zero (fp ∷ footprints) h = omega (arith, h.0)
sum-take-suc bound (suc j) (fp ∷ footprints) h = omega (arith, sum-take-suc bound j footprints h.1)

sum-drop_all : (n : ℕ) (x : List ℕ) → length x ≤ n → sum (drop n x) ≡ 0
unfolding sum
sum-drop_all zero [] h = refl
sum-drop_all zero (b ∷ x) h = absurd (omega (arith, h))
sum-drop_all (suc n) [] h = refl
sum-drop_all (suc n) (b ∷ x) h = sum-drop_all n x (omega (arith, h))

taken_some :
    (j : ℕ) (footprints : List ℕ)
    → All (λ fp. fp ≤ usable / 2) footprints
    → usable < sum (take (suc j) footprints)
    → 0 < j
unfolding sum
taken_some zero footprints small over =
    absurd (omega (arith, over, sum-take-suc (usable / 2) zero footprints small))
taken_some (suc j) footprints small over = omega arith

clamped-IsSplit :
    (footprints : List ℕ) (s : ℕ)
    → All (λ fp. fp ≤ usable / 2) footprints
    → 2 ≤ length footprints
    → sum footprints ≤ usable + usable / 2
    → IsLargest 0 0 footprints s
    → IsSplit footprints (clamped s (length footprints))
clamped-IsSplit footprints s small two total h =
    elim (Bool-cases (ltb h.taken (length footprints))) [
      | inl part ↦
          let more : h.taken < length footprints = ground arith in
          let over = h.full more in
          let step = sum-take-suc (usable / 2) h.taken footprints small in
          let both = sum-take-drop h.taken footprints in
          let some_taken = taken_some h.taken footprints small (omega (arith, over)) in
          let place : clamped s (length footprints) ≡ h.taken = ground (arith, h.place) in
          subst (IsSplit footprints) (sym place) (record {
            left_some = some_taken;
            right_some = more;
            left_fits = omega (arith, h.fits);
            right_fits = omega (arith, over, step, both, total);
          })
      | inr all ↦
          let whole : length footprints ≤ h.taken = ground arith in
          let last = length footprints - 1 in
          let place : clamped s (length footprints) ≡ last = ground (arith, h.place, h.within) in
          let both = sum-take-drop last footprints in
          let fits : sum footprints ≤ usable = omega (
            arith,
            sum-take-drop h.taken footprints,
            sum-drop_all h.taken footprints whole,
            h.fits,
          ) in
          subst (IsSplit footprints) (sym place) (record {
            left_some = omega arith;
            right_some = omega arith;
            left_fits = omega (arith, both, fits);
            right_fits = omega (arith, both, fits);
          })
    ]

-- A node of at least two cells, each of which fits under the cap with its slot, that has grown past
-- a page by at most one cell is split into two halves that are not empty and fit into a page each.
pub split_index-IsSplit :
    (footprints : List ℕ)
    → All (λ fp. fp ≤ slot_size + max_cell) footprints
    → 2 ≤ length footprints
    → sum footprints ≤ usable + (slot_size + max_cell)
    → IsSplit footprints (split_index footprints)
unfolding split_index
split_index-IsSplit footprints small two total =
    go (balanced_cut (sum footprints) 0 0 footprints) refl
  where
    fallback : IsSplit footprints (clamped (fitting_cut 0 0 0 footprints) (length footprints))
    fallback =
        clamped-IsSplit footprints (fitting_cut 0 0 0 footprints) small two total
          (fitting_cut-IsLargest 0 0 footprints (omega arith))

    go :
        (o : Option (ℕ × ℕ))
        → balanced_cut (sum footprints) 0 0 footprints ≡ o
        → IsSplit footprints (elim o [
          | none ↦ clamped (fitting_cut 0 0 0 footprints) (length footprints)
          | some (balanced, acc) ↦
              if ltb balanced (length footprints)
                && (leb acc usable && leb (sum footprints - acc) usable)
              then balanced
              else clamped (fitting_cut 0 0 0 footprints) (length footprints)
        ])
    go none e = fallback
    go (some (balanced, acc)) e =
        elim (Bool-cases (
          ltb balanced (length footprints)
          && (leb acc usable && leb (sum footprints - acc) usable))) [
            | inl fits ↦
                let cut = balanced_cut-IsCut (sum footprints) 0 0 footprints e in
                let at : balanced ≡ cut.taken = omega (arith, cut.place) in
                let both = sum-take-drop balanced footprints in
                let left : sum (take balanced footprints) ≡ acc =
                  ap (λ j. sum (take j footprints)) at ∙ omega (arith, cut.bytes_before) in
                rw fits (record {
                  left_some = omega (arith, at, cut.some_taken);
                  right_some = ground arith;
                  left_fits = ground (arith, left);
                  right_fits = ground (arith, left, both);
                })
            | inr unfit ↦ rw unfit fallback
          ]

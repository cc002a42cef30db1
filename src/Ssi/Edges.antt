-- ===== src/Ssi/Edges.antt =====
-- Which entries of the shared map a write changes.
use prehnite_db.Prelude.{
  ℕ, ◌≡◌, refl, ◌∙◌, Bool, false, not, ◌&&◌, List, [], ◌∷◌, none, some, ◌==◌, if◌then◌else◌, arith,
  Bool-cases, inl, inr, ==→eq,
}
use mathlib.Core.Path.{subst}
use prehnite_db.Maps.{get, has, modify, contains}
use prehnite_db.Maps.Laws.{get-modify, IsDistinct, mapped}
use prehnite_db.Transaction.{SsiTxState, SsiMap}
use prehnite_db.Ssi.{set_out, set_in, readers, mark_out, mark, mark_edges}

pub has-get : (j : ℕ) (ssi : SsiMap) → has j ssi ≡ false → get j ssi ≡ none
unfolding has get
has-get j [] h = refl
has-get j ((i, s) ∷ ssi) h = ground (arith, has-get j ssi)

contains-readers_absent :
    (j w : ℕ) (touched : SsiTxState → Bool) (ssi : SsiMap)
    → has j ssi ≡ false
    → contains j (readers w touched ssi) ≡ false
unfolding readers has contains
contains-readers_absent j w touched [] h = refl
contains-readers_absent j w touched ((i, s) ∷ ssi) h =
    ground (arith, contains-readers_absent j w touched ssi)

pub contains-readers :
    (j w : ℕ) (touched : SsiTxState → Bool) (ssi : SsiMap) (s : SsiTxState)
    → IsDistinct ssi
    → get j ssi ≡ some s
    → contains j (readers w touched ssi) ≡ (not (j == w) && touched s)
unfolding readers get contains
contains-readers j w touched [] s d h = cc
contains-readers j w touched ((i, x) ∷ ssi) s d h = elim (Bool-cases (i == j)) [
  | inl e ↦
      let absent : has j ssi ≡ false = subst (λ (k : ℕ). has k ssi ≡ false) (==→eq i j e) d.0 in
      ground (arith, contains-readers_absent j w touched ssi absent, e, ==→eq i j e)
  | inr e ↦
      let there : get j ssi ≡ some s = ground arith in
      ground (arith, contains-readers j w touched ssi s d.1 there, e)
]

get-mark_out :
    (j : ℕ) (peers : List ℕ) (ssi : SsiMap)
    → get j (mark_out peers ssi)
      ≡ (if contains j peers then mapped set_out (get j ssi) else get j ssi)
unfolding mark_out contains
get-mark_out j [] ssi = refl
get-mark_out j (p ∷ peers) ssi =
    get-mark_out j peers (modify p set_out ssi) ∙ rw (get-modify j p set_out ssi) (ground arith)

-- The writer's own flag, set if there is a reader.
abbrev pub mark_writer : ℕ → List ℕ → SsiMap → SsiMap
mark_writer w [] ssi = ssi
mark_writer w (p ∷ peers) ssi = modify w set_in ssi

-- A write marks every reader that it touches as the source of a conflict and itself as the target,
-- if there is such a reader, and changes nothing else.
pub get-mark_edges :
    (j w : ℕ) (touched : SsiTxState → Bool) (ssi : SsiMap)
    → get j (mark_edges w touched ssi) ≡ (
        if contains j (readers w touched ssi)
        then mapped set_out (get j (mark_writer w (readers w touched ssi) ssi))
        else get j (mark_writer w (readers w touched ssi) ssi))
unfolding mark_edges
get-mark_edges j w touched ssi = go (readers w touched ssi)
  where
    go :
        (peers : List ℕ)
        → get j (mark w peers ssi) ≡ (
            if contains j peers
            then mapped set_out (get j (mark_writer w peers ssi))
            else get j (mark_writer w peers ssi))
    go [] = unfold contains in refl
    go (p ∷ peers) = get-mark_out j (p ∷ peers) (modify w set_in ssi)

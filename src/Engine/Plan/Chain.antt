-- ===== src/Engine/Plan/Chain.antt =====
-- A predicate that is split into its conjuncts and put together again means the same.
use prehnite_db.Prelude.{
  ◌≡◌, refl, sym, ap, ◌∙◌, Bool, Option, none, some, List, [], ◌∷◌, ◌++◌, arith, append_assoc,
}
use prehnite_db.Real.{RealOps}
use prehnite_db.Outcome.{returns, ◌>>=◌, >>=-eq-returns}
use prehnite_db.Value.{Value, null, bool}
use prehnite_db.Sql.Ast.{Expr, binary, and}
use prehnite_db.Engine.Eval.{RowContext, eval, eval_binary, logic, as_bool, conjunction}
use prehnite_db.Engine.Plan.Conjuncts.{flatten_and, chain, and_chain_opt}

abbrev option_of : Value → Option Bool
option_of null = none
option_of (bool b) = some b
option_of other = none

abbrev and_value : Value → Value → Value
and_value x y = conjunction (option_of x) (option_of y)

-- AND is associative where it is defined.
logic_assoc :
    (x y z : Value) {u w : Value}
    → logic and y z ≡ returns u
    → logic and x u ≡ returns w
    → (t : Value) × (logic and x y ≡ returns t) × (logic and t z ≡ returns w)
unfolding logic as_bool conjunction
logic_assoc x y z {u} {w} h k = (and_value x y, ground arith, ground arith)

flatten_and-append : (e : Expr) (out : List Expr) → flatten_and e out ≡ out ++ flatten_and e []
unfolding flatten_and
flatten_and-append (binary and l r) out =
    flatten_and-append r (flatten_and l out)
    ∙ ap (λ xs. xs ++ flatten_and r []) (flatten_and-append l out)
    ∙ append_assoc out (flatten_and l []) (flatten_and r [])
    ∙ ap (λ xs. out ++ xs) (sym (flatten_and-append r (flatten_and l [])))
flatten_and-append other out = refl

chain-append : (acc : Expr) (xs ys : List Expr) → chain acc (xs ++ ys) ≡ chain (chain acc xs) ys
unfolding chain
chain-append acc [] ys = refl
chain-append acc (x ∷ xs) ys = chain-append (binary and acc x) xs ys

and_chain_opt-append :
    (xs ys : List Expr) {e : Expr}
    → and_chain_opt xs ≡ some e
    → and_chain_opt (xs ++ ys) ≡ some (chain e ys)
unfolding and_chain_opt
and_chain_opt-append [] ys h = cc
and_chain_opt-append (x ∷ xs) ys {e} h =
    let same : chain x xs ≡ e = cc in ap some (chain-append x xs ys ∙ ap (λ acc. chain acc ys) same)

module _ (ops : RealOps) (context : Option RowContext) where
  abbrev GivesAnd : Expr → Expr → Value → Type 0
  GivesAnd l r v =
      (x : Value) × (y : Value) × (eval ops l context ≡ returns x)
      × (eval ops r context ≡ returns y)
      × (logic and x y ≡ returns v)

  eval-and :
      (l r : Expr) {v : Value} → eval ops (binary and l r) context ≡ returns v → GivesAnd l r v
  unfolding eval eval_binary
  eval-and l r h =
      let (x, ex, h1) =
        >>=-eq-returns (eval ops l context)
          (λ x. eval ops r context >>= λ y. eval_binary ops and x y) h in
      let (y, ey, h2) = >>=-eq-returns (eval ops r context) (λ y. eval_binary ops and x y) h1 in
      (x, y, ex, ey, h2)

  and-eval :
      (l r : Expr) {v : Value} → GivesAnd l r v → eval ops (binary and l r) context ≡ returns v
  unfolding eval eval_binary
  and-eval l r (x, y, ex, ey, h) = rw (ex, ey) h

  chain-flatten_and :
      (e acc : Expr) {v : Value}
      → eval ops (binary and acc e) context ≡ returns v
      → eval ops (chain acc (flatten_and e [])) context ≡ returns v
  unfolding chain flatten_and
  chain-flatten_and (binary and l r) acc h =
      let (x, u, ex, eu, ew) = eval-and acc (binary and l r) h in
      let (y, z, ey, ez, eu') = eval-and l r eu in
      let (t, et, ew') = logic_assoc x y z eu' ew in
      let left = chain-flatten_and l acc (and-eval acc l (x, y, ex, ey, et)) in
      let all_of =
        chain-flatten_and r (chain acc (flatten_and l []))
          (and-eval (chain acc (flatten_and l [])) r (t, z, left, ez, ew')) in
      rw
        (
          flatten_and-append r (flatten_and l []),
          chain-append acc (flatten_and l []) (flatten_and r []),
        )
        all_of
  chain-flatten_and other acc h = h

  -- Where a predicate has a value, the chain of its conjuncts has that value too.
  pub and_chain_opt-flatten_and :
      (e : Expr) {v : Value}
      → eval ops e context ≡ returns v
      → (e' : Expr) × (and_chain_opt (flatten_and e []) ≡ some e')
        × (eval ops e' context ≡ returns v)
  unfolding flatten_and and_chain_opt
  and_chain_opt-flatten_and (binary and l r) h =
      let (x, y, ex, ey, ev) = eval-and l r h in
      let (l', el, ex') = and_chain_opt-flatten_and l ex in
      (
        chain l' (flatten_and r []),
        ap and_chain_opt (flatten_and-append r (flatten_and l []))
            ∙ and_chain_opt-append (flatten_and l []) (flatten_and r []) el,
        chain-flatten_and r l' (and-eval l' r (x, y, ex', ey, ev)),
      )
  and_chain_opt-flatten_and other h = (other, refl, h)

-- ===== src/Exec/Keeps.antt =====
-- Computations that keep a predicate of the store, however they end.
use db_connections.Exec.{Exec, continue, for_each, lift, pure, ◌>>=◌}
use db_connections.Prelude.{List, [], ◌∷◌}
use db_connections.Result.{Result, err, ok}

pub record Keeps {S A : Type 0} (P : S → Type 0) (m : Exec S A) : Type 0 where
  pub at : (s : S) → P s → P (m s).1

module _ {S : Type 0} (P : S → Type 0) where
  pub Keeps-lift : {A : Type 0} (r : Result A) → Keeps P (lift {S = S} r)
  Keeps-lift r = record { at = λ s p. p }

  pub Keeps-pure : {A : Type 0} (a : A) → Keeps P (pure {S = S} a)
  Keeps-pure a = record { at = λ s p. p }

  Keeps-continue :
      {A B : Type 0} (r : Result A) (f : A → Exec S B) (s : S)
      → ((a : A) → Keeps P (f a))
      → P s
      → P (continue r f s).1
  Keeps-continue (ok a) f s h p = (h a).at s p
  Keeps-continue (err e) f s h p = p

  pub Keeps-bind :
      {A B : Type 0} (m : Exec S A) (f : A → Exec S B)
      → Keeps P m
      → ((a : A) → Keeps P (f a))
      → Keeps P (m >>= f)
  Keeps-bind m f k h = record { at = λ s p. Keeps-continue (m s).0 f (m s).1 h (k.at s p) }

  -- a loop keeps what each of its rounds keeps
  pub Keeps-for_each :
      {A : Type 0} (xs : List A) (f : A → Exec S (Unit {0}))
      → ((x : A) → Keeps P (f x))
      → Keeps P (for_each xs f)
  unfolding for_each
  Keeps-for_each [] f h = Keeps-pure tt
  Keeps-for_each (x ∷ xs) f h =
      Keeps-bind (f x) (λ u. for_each xs f) (h x) (λ u. Keeps-for_each xs f h)

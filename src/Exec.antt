-- ===== src/Exec.antt =====
-- Coroutines that read and write a store and may raise. Awaiting one is running it: the service
-- awaits each call before the next, so its calls are a sequence of steps on the store.
pub mod Preserves
pub mod Keeps
use db_connections.Prelude.{List, [], ◌∷◌}
use db_connections.Result.{Result, err, ok}

abbrev pub Exec : Type 0 → Type 0 → Type 0
Exec S A = S → Result A × S

module _ {S A : Type 0} where
  -- `return a`
  abbrev pub pure : A → Exec S A
  pure a s = (ok a, s)

  -- a computation that does not touch the store
  abbrev pub lift : Result A → Exec S A
  lift r s = (r, s)

module _ {S A B : Type 0} where
  abbrev pub continue : Result A → (A → Exec S B) → Exec S B
  continue (ok a) f s = f a s
  continue (err e) f s = (err e, s)

  infixl 5 ◌>>=◌ ◌>>◌
  abbrev pub ◌>>=◌ : Exec S A → (A → Exec S B) → Exec S B
  ◌>>=◌ m f s = let (r, s') = m s in continue r f s'

  abbrev pub ◌>>◌ : Exec S A → Exec S B → Exec S B
  m >> k = m >>= λ _. k

-- an exception of what runs at the end takes the place of the outcome
abbrev pub ended : {A : Type 0} → Result A → Result (Unit {0}) → Result A
ended r (ok u) = r
ended r (err e) = err e

-- `try: m finally: k`
unfoldable pub finally : {S A : Type 0} → Exec S A → Exec S (Unit {0}) → Exec S A
finally m k s = let (r, s') = m s in let (x, s'') = k s' in (ended r x, s'')

-- `for x in xs: f(x)`
unfoldable pub for_each : {S A : Type 0} → List A → (A → Exec S (Unit {0})) → Exec S (Unit {0})
for_each [] f = pure tt
for_each (x ∷ xs) f = f x >>= λ u. for_each xs f

-- ===== src/Exec/Preserves.antt =====
-- Computations that leave an observation of the store alone: always, or whenever they raise.
use db_connections.Errors.{Error}
use db_connections.Exec.{Exec, continue, lift, pure, ◌>>=◌}
use db_connections.Prelude.{ap, arith, refl, ◌∙◌, ◌≡◌}
use db_connections.Result.{Result, err, ok}

module _ {S V : Type 0} (view : S → V) where
  -- the observation is unchanged, however the run ends
  pub record Preserves {A : Type 0} (m : Exec S A) : Type 0 where
    pub at : (s : S) → view (m s).1 ≡ view s

  -- the observation is unchanged if the run raises
  pub record IsAtomic {A : Type 0} (m : Exec S A) : Type 0 where
    pub at : (s : S) (e : Error) → (m s).0 ≡ err e → view (m s).1 ≡ view s

module _ {S V A : Type 0} (view : S → V) where
  pub Preserves-lift : (r : Result A) → Preserves view (lift {S = S} r)
  Preserves-lift r = record { at = λ s. refl }

  pub Preserves-pure : (a : A) → Preserves view (pure {S = S} a)
  Preserves-pure a = record { at = λ s. refl }

  pub IsAtomic-of_Preserves : (m : Exec S A) → Preserves view m → IsAtomic view m
  IsAtomic-of_Preserves m p = record { at = λ s e h. p.at s }

module _ {S V A B : Type 0} (view : S → V) where
  Preserves-continue :
      (r : Result A) (f : A → Exec S B) (s : S)
      → ((a : A) → Preserves view (f a))
      → view (continue r f s).1 ≡ view s
  Preserves-continue (ok a) f s h = (h a).at s
  Preserves-continue (err e) f s h = refl

  pub Preserves-bind :
      (m : Exec S A) (f : A → Exec S B)
      → Preserves view m
      → ((a : A) → Preserves view (f a))
      → Preserves view (m >>= f)
  Preserves-bind m f p h = record { at = λ s. Preserves-continue (m s).0 f (m s).1 h ∙ p.at s }

  IsAtomic-continue :
      (r : Result A) (f : A → Exec S B) (s : S) (e : Error)
      → ((a : A) → IsAtomic view (f a))
      → (continue r f s).0 ≡ err e
      → view (continue r f s).1 ≡ view s
  IsAtomic-continue (ok a) f s e h x = (h a).at s e x
  IsAtomic-continue (err e') f s e h x = refl

  -- what comes before the last write may read and work on uncommitted state
  pub IsAtomic-bind :
      (m : Exec S A) (f : A → Exec S B)
      → Preserves view m
      → ((a : A) → IsAtomic view (f a))
      → IsAtomic view (m >>= f)
  IsAtomic-bind m f p h = record {
    at = λ s e x. IsAtomic-continue (m s).0 f (m s).1 e h x ∙ p.at s;
  }

  pure_last :
      (r : Result A) (b : B) (s : S) (e : Error)
      → (continue r (λ _. pure b) s).0 ≡ err e
      → (r ≡ err e) × ((continue r (λ _. pure b) s).1 ≡ s)
  pure_last (ok a) b s e x = cc x
  pure_last (err e') b s e x = (ground arith, refl)

  -- an atomic step may be followed by what cannot raise
  pub IsAtomic-then_pure :
      (m : Exec S A) (b : B) → IsAtomic view m → IsAtomic view (m >>= λ _. pure b)
  IsAtomic-then_pure m b h = record {
    at = λ s e x.
        let (failed, same) = pure_last (m s).0 b (m s).1 e x in ap view same ∙ h.at s e failed;
  }

pub ruleset preserves_rules = (Preserves-lift, Preserves-pure, Preserves-bind)

-- ===== src/Effects/Alike.antt =====
-- Calls on two kinds of states that return or throw the same and keep the states related.
use libdyplo.Prelude.{Bool, true, false, ◌≡◌, refl, subst, if◌then◌else◌}
use libdyplo.Effects.{Result, ok, throw, waiting, fault, M, proceed, ◌>>=◌, lift}

module _ {S T : Type 0} (R : S → T → Type 0) where
  abbrev pub Alike : {B : Type 0} → Result B × S → Result B × T → Type 0
  Alike x y = (x.0 ≡ y.0) × R x.1 y.1

  -- Such calls, from any two related states.
  abbrev pub Sim : {B : Type 0} → M S B → M T B → Type 0
  Sim m n = (s : S) (t : T) → R s t → Alike (m s) (n t)

  pub lift-Sim : {B : Type 0} (r : Result B) → Sim (lift r) (lift r)
  lift-Sim r s t related = (refl, related)

  pub if-Sim :
      {B : Type 0} (b : Bool) (m m' : M S B) (n n' : M T B)
      → Sim m n
      → Sim m' n'
      → Sim (if b then m else m') (if b then n else n')
  if-Sim true m m' n n' yes_alike no_alike = yes_alike
  if-Sim false m m' n n' yes_alike no_alike = no_alike

  proceed-same :
      {A B : Type 0} (f : A → M S B) (g : A → M T B)
      → ((a : A) → Sim (f a) (g a))
      → (r : Result A) (s : S) (t : T) → R s t
      → Alike (proceed f (r, s)) (proceed g (r, t))
  proceed-same f g alike (ok a) s t related = alike a s t related
  proceed-same f g alike (throw e) s t related = (refl, related)
  proceed-same f g alike waiting s t related = (refl, related)
  proceed-same f g alike fault s t related = (refl, related)

  pub proceed-Alike :
      {A B : Type 0} (f : A → M S B) (g : A → M T B)
      → ((a : A) → Sim (f a) (g a))
      → (x : Result A × S) (y : Result A × T) → Alike x y
      → Alike (proceed f x) (proceed g y)
  proceed-Alike f g alike (r, s) (r', t) (same, related) =
      subst (λ r''. Alike (proceed f (r, s)) (proceed g (r'', t))) same
        (proceed-same f g alike r s t related)

  pub bind-Sim :
      {A B : Type 0} (m : M S A) (n : M T A) (f : A → M S B) (g : A → M T B)
      → Sim m n
      → ((a : A) → Sim (f a) (g a))
      → Sim (m >>= f) (n >>= g)
  bind-Sim m n f g first alike s t related = proceed-Alike f g alike (m s) (n t) (first s t related)

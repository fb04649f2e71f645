-- ===== src/Action/Refuses.antt =====
-- Actions that raise on a state and leave it as it is.
use workfllow_execution.Prelude.{◌≡◌, refl, ap, ◌∙◌, Bool, true}
use workfllow_execution.Errors.{Error, Result, ok, err}
use workfllow_execution.Action.{Action, raise, when, ◌>>=◌, ◌>>◌, proceed}
use workfllow_execution.Action.Gives.{Gives}

module _ {S : Type 0} (s : S) where
  pub record Refuses {A : Type 0} (m : Action S A) : Type 0 where
    pub error : Error
    pub unchanged : m s ≡ (err error, s)

  pub Refuses-raise : {A : Type 0} (e : Error) → Refuses {A = A} (raise e)
  unfolding raise
  Refuses-raise e = record { error = e; unchanged = refl }

  pub Refuses-check : (b : Bool) (e : Error) → b ≡ true → Refuses (when b (raise e))
  unfolding when raise
  Refuses-check b e h = record { error = e; unchanged = rw h }

  -- The first part refuses.
  pub Refuses-bind :
      {A B : Type 0} (m : Action S A) (f : A → Action S B) → Refuses m → Refuses (m >>= f)
  unfolding ◌>>=◌
  Refuses-bind m f h = record { error = h.error; unchanged = ap (proceed f) h.unchanged }

  pub Refuses-then : {A B : Type 0} (m : Action S A) (k : Action S B) → Refuses m → Refuses (m >> k)
  unfolding ◌>>◌
  Refuses-then m k h = Refuses-bind m (λ _. k) h

  second_part :
      {A B : Type 0} {Q : A → Type 0} (f : A → Action S B) (r : Result A × S)
      → r.1 ≡ s
      → ((a : A) → r.0 ≡ ok a → Q a)
      → ((a : A) → Q a → Refuses (f a))
      → (e : Error) × (proceed f r ≡ (err e, s))
  second_part f (ok a, t) h q k = let r = k a (q a refl) in (r.error, ap (f a) h ∙ r.unchanged)
  second_part f (err e, t) h q k = (e, ap (λ u. (err e, u)) h)

  -- The first part leaves the state, and what it returns makes the second part refuse.
  pub Refuses-after :
      {A B : Type 0} {Q : A → Type 0} (m : Action S A) (f : A → Action S B)
      → Gives (λ t. t ≡ s) Q m
      → ((a : A) → Q a → Refuses (f a))
      → Refuses (m >>= f)
  unfolding ◌>>=◌
  Refuses-after m f g k =
      let (e, h) = second_part f (m s) (g.kept s refl) (g.given s refl) k in
      record { error = e; unchanged = h }

-- ===== src/Action.antt =====
-- Methods that write to the session and may raise. Rows written before an exception stay written
-- in the session, so the state comes back beside the error too; that a request rolls the session
-- back on an exception is the caller's.
pub mod Gives
pub mod Refuses
use workfllow_execution.Prelude.{◌≡◌, refl, Bool, true, false, if◌then◌else◌, Option, none, some}
use workfllow_execution.Prelude.{List, [], ◌∷◌}
use workfllow_execution.Errors.{Error, Result, ok, err}

abbrev pub Action : Type 0 → Type 0 → Type 0
Action S A = S → Result A × S

module _ {S : Type 0} where
  unfoldable pub pure : {A : Type 0} → A → Action S A
  pure a s = (ok a, s)

  unfoldable pub raise : {A : Type 0} → Error → Action S A
  raise e s = (err e, s)

  unfoldable pub lift : {A : Type 0} → Result A → Action S A
  lift r s = (r, s)

  -- A read of the tables.
  unfoldable pub query : {A : Type 0} → (S → A) → Action S A
  query f s = (ok (f s), s)

  -- A write to the tables.
  unfoldable pub write : (S → S) → Action S Unit
  write f s = (ok tt, f s)

  abbrev pub proceed : {A B : Type 0} → (A → Action S B) → Result A × S → Result B × S
  proceed f (ok a, s) = f a s
  proceed f (err e, s) = (err e, s)

  infixl 10 ◌>>=◌ ◌>>◌
  unfoldable pub ◌>>=◌ : {A B : Type 0} → Action S A → (A → Action S B) → Action S B
  ◌>>=◌ m f s = proceed f (m s)

  unfoldable pub ◌>>◌ : {A B : Type 0} → Action S A → Action S B → Action S B
  unfolding ◌>>=◌
  m >> k = m >>= λ _. k

  -- `if test: m`
  unfoldable pub when : Bool → Action S Unit → Action S Unit
  unfolding pure
  when b m = if b then m else pure tt

  unfoldable pub found : {A : Type 0} → Option A → Error → Action S A
  unfolding pure raise
  found none e = raise e
  found (some a) e = pure a

  -- `for x in xs: body(x)`
  unfoldable pub for_each : {A : Type 0} → List A → (A → Action S Unit) → Action S Unit
  unfolding pure ◌>>◌
  for_each [] body = pure tt
  for_each (x ∷ xs) body = body x >> for_each xs body

  -- To unfold this is to unfold all of the above.
  unfoldable pub run : {A : Type 0} → Action S A → S → Result A × S
  unfolding pure raise lift query write ◌>>=◌ ◌>>◌ when found for_each
  run m s = m s

  proceed-ok :
      {A B : Type 0} (f : A → Action S B) (r : Result A) (s : S) (a : A)
      → r ≡ ok a
      → proceed f (r, s) ≡ f a s
  proceed-ok f r s a h = rw h

  -- A part that returned hands its value and its state on.
  pub bind-ok :
      {A B : Type 0} (m : Action S A) (f : A → Action S B) (s : S) (a : A)
      → (m s).0 ≡ ok a
      → (m >>= f) s ≡ f a (m s).1
  unfolding ◌>>=◌
  bind-ok m f s a h = proceed-ok f (m s).0 (m s).1 a h

  pub then-ok :
      {A B : Type 0} (m : Action S A) (k : Action S B) (s : S) (a : A)
      → (m s).0 ≡ ok a
      → (m >> k) s ≡ k (m s).1
  unfolding ◌>>◌
  then-ok m k s a h = bind-ok m (λ _. k) s a h

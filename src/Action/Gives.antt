-- ===== src/Action/Gives.antt =====
-- An invariant that an action keeps, with what is known of the value that it returns.
use workfllow_execution.Prelude.{◌≡◌, refl, Bool, true, false, if◌then◌else◌, Option, none, some}
use workfllow_execution.Prelude.{List, [], ◌∷◌}
use workfllow_execution.Errors.{Error, Result, ok, err, ok-injective}
use mathlib.Core.Path.{subst}
use workfllow_execution.Action.{
  Action, pure, raise, lift, query, write, found, when, for_each, ◌>>=◌, ◌>>◌, proceed,
}

-- Nothing is known of the value.
abbrev pub Any : {A : Type 0} → A → Type 0
Any a = Unit

module _ {S : Type 0} where
  -- `m` leads from states in `P` to states in `P`, whether it returns or raises, and a value that
  -- it returns is in `Q`.
  pub record Gives {A : Type 0} (P : S → Type 0) (Q : A → Type 0) (m : Action S A) : Type 0 where
    pub kept : (s : S) → P s → P (m s).1
    pub given : (s : S) → P s → (a : A) → (m s).0 ≡ ok a → Q a

  module _ {P : S → Type 0} where
    pub Gives-pure : {A : Type 0} {Q : A → Type 0} (a : A) → Q a → Gives P Q (pure a)
    unfolding pure
    Gives-pure {Q} a q = record { kept = λ s h. h; given = λ s h b e. subst Q (ok-injective e) q }

    pub Gives-raise : {A : Type 0} {Q : A → Type 0} (e : Error) → Gives P Q (raise e)
    unfolding raise
    Gives-raise e = record { kept = λ s h. h; given = λ s h a q. absurd (cc) }

    pub Gives-lift :
        {A : Type 0} {Q : A → Type 0} (r : Result A)
        → ((a : A) → r ≡ ok a → Q a)
        → Gives P Q (lift r)
    unfolding lift
    Gives-lift r q = record { kept = λ s h. h; given = λ s h. q }

    pub Gives-query :
        {A : Type 0} {Q : A → Type 0} (f : S → A) → ((s : S) → P s → Q (f s)) → Gives P Q (query f)
    unfolding query
    Gives-query {Q} f q = record {
      kept = λ s h. h;
      given = λ s h a e. subst Q (ok-injective e) (q s h);
    }

    pub Gives-write : (f : S → S) → ((s : S) → P s → P (f s)) → Gives P (Any {A = Unit}) (write f)
    unfolding write
    Gives-write f keep = record { kept = keep; given = λ s h a e. tt }

    keeps :
        {A B : Type 0} {Q : A → Type 0} {R : B → Type 0} (f : A → Action S B)
        → ((a : A) → Q a → Gives P R (f a))
        → (r : Result A × S) → P r.1
        → ((a : A) → r.0 ≡ ok a → Q a)
        → P (proceed f r).1
    keeps f gf (ok a, s) h q = (gf a (q a refl)).kept s h
    keeps f gf (err e, s) h q = h

    gives :
        {A B : Type 0} {Q : A → Type 0} {R : B → Type 0} (f : A → Action S B)
        → ((a : A) → Q a → Gives P R (f a))
        → (r : Result A × S) → P r.1
        → ((a : A) → r.0 ≡ ok a → Q a)
        → (b : B) → (proceed f r).0 ≡ ok b
        → R b
    gives f gf (ok a, s) h q b x = (gf a (q a refl)).given s h b x
    gives f gf (err e, s) h q b x = absurd (cc)

    pub Gives-bind :
        {A B : Type 0} {Q : A → Type 0} {R : B → Type 0} (m : Action S A) (f : A → Action S B)
        → Gives P Q m
        → ((a : A) → Q a → Gives P R (f a))
        → Gives P R (m >>= f)
    unfolding ◌>>=◌
    Gives-bind {R} m f gm gf = record {
      kept = λ s h. keeps f gf (m s) (gm.kept s h) (gm.given s h);
      given = λ s h. gives f gf (m s) (gm.kept s h) (gm.given s h);
    }

    pub Gives-then :
        {A B : Type 0} {Q : A → Type 0} {R : B → Type 0} (m : Action S A) (k : Action S B)
        → Gives P Q m
        → Gives P R k
        → Gives P R (m >> k)
    unfolding ◌>>◌
    Gives-then m k gm gk = Gives-bind m (λ _. k) gm (λ _ _. gk)

    pub Gives-if :
        {A : Type 0} {Q : A → Type 0} (b : Bool) (m k : Action S A)
        → Gives P Q m
        → Gives P Q k
        → Gives P Q (if b then m else k)
    Gives-if true m k gm gk = gm
    Gives-if false m k gm gk = gk

    pub Gives-when : (b : Bool) (m : Action S Unit) → Gives P Any m → Gives P Any (when b m)
    unfolding when
    Gives-when b m gm = Gives-if b m (pure tt) gm (Gives-pure tt tt)

    pub Gives-guard : (b : Bool) (e : Error) → Gives P Any (when b (raise e))
    Gives-guard b e = Gives-when b (raise e) (Gives-raise e)

    pub Gives-found :
        {A : Type 0} {Q : A → Type 0} (o : Option A) (e : Error)
        → ((a : A) → o ≡ some a → Q a)
        → Gives P Q (found o e)
    unfolding found
    Gives-found none e q = Gives-raise e
    Gives-found (some a) e q = Gives-pure a (q a refl)

    pub Gives-for_each :
        {A : Type 0} (xs : List A) (body : A → Action S Unit)
        → ((x : A) → Gives P Any (body x))
        → Gives P Any (for_each xs body)
    unfolding for_each
    Gives-for_each [] body gb = Gives-pure tt tt
    Gives-for_each (x ∷ xs) body gb =
        Gives-then (body x) (for_each xs body) (gb x) (Gives-for_each xs body gb)

    -- Behind a test that raises, the test is false.
    pub Gives-check : (b : Bool) (e : Error) → Gives P (λ _. b ≡ false) (when b (raise e))
    unfolding when
    Gives-check true e = Gives-raise e
    Gives-check false e = Gives-pure tt refl

  -- Of any state.
  abbrev pub Always : S → Type 0
  Always s = Unit

  pub Gives-Any : {A : Type 0} {m : Action S A} → Gives Always Any m
  Gives-Any = record { kept = λ s h. tt; given = λ s h a e. tt }

  -- An action that returned has returned from both of its parts.
  returned :
      {A B : Type 0} (f : A → Action S B) (r : Result A × S) (b : B)
      → (proceed f r).0 ≡ ok b
      → (a : A) × (r.0 ≡ ok a) × ((f a r.1).0 ≡ ok b)
  returned f (ok a, s) b h = (a, refl, h)
  returned f (err e, s) b h = absurd (cc)

  pub bind-returned :
      {A B : Type 0} (m : Action S A) (f : A → Action S B) (s : S) (b : B)
      → ((m >>= f) s).0 ≡ ok b
      → (a : A) × ((m s).0 ≡ ok a) × ((f a (m s).1).0 ≡ ok b)
  unfolding ◌>>=◌
  bind-returned m f s b h = returned f (m s) b h

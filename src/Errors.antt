-- ===== src/Errors.antt =====
-- app/domain/exceptions.py, and the built-in exceptions that the engine's own code raises.
-- The texts of the messages are not modelled; `details` are where a caller reads them.
use workfllow_execution.Prelude.{◌≡◌, refl, Option, none, some, String}

pub data Error : Type 0 where
  duplicate_slug not_found version_conflict sequence_conflict validation_error : Error
  invalid_transition node_execution input_resolution field_validation upstream_not_ready : Error
  -- KeyError, ValueError, TypeError, AttributeError and AssertionError
  key_error value_error type_error attribute_error assertion_error : Error
  -- IntegrityError of SQLAlchemy, where the code passes it on
  integrity_error : Error
  -- No exception of the program: a loop of the model that ran out of its rounds.
  stuck : Error

-- `WorkflowEngineError.code` of each subclass; a built-in exception has none.
pub code : Error → Option String
code Error.duplicate_slug = some "DUPLICATE_SLUG"
code Error.not_found = some "NOT_FOUND"
code Error.version_conflict = some "VERSION_CONFLICT"
code Error.sequence_conflict = some "SEQUENCE_CONFLICT"
code Error.validation_error = some "VALIDATION_ERROR"
code Error.invalid_transition = some "INVALID_TRANSITION"
code Error.node_execution = some "NODE_EXECUTION_ERROR"
code Error.input_resolution = some "INPUT_RESOLUTION_ERROR"
code Error.field_validation = some "FIELD_VALIDATION_FAILED"
code Error.upstream_not_ready = some "UPSTREAM_NOT_READY"
code _ = none

pub data Result {ℓ} (A : Type ℓ) : Type ℓ where
  ok : A → Result A
  err : Error → Result A

-- An exception ends a block.
module _ {ℓ κ} {A : Type ℓ} {B : Type κ} where
  infixl 10 ◌>>=◌
  abbrev pub ◌>>=◌ : Result A → (A → Result B) → Result B
  err raised >>= continue = err raised
  ok value >>= continue = continue value

infixl 10 ◌>>◌
abbrev pub ◌>>◌ {κ} : {B : Type κ} → Result (Unit {0}) → Result B → Result B
check >> body = check >>= λ u. body

abbrev pub or_raise {ℓ} : {A : Type ℓ} → Option A → Error → Result A
or_raise (some a) e = ok a
or_raise none e = err e

abbrev pub map_ok {ℓ κ} : {A : Type ℓ} {B : Type κ} → (A → B) → Result A → Result B
map_ok f (ok a) = ok (f a)
map_ok f (err e) = err e

-- What a successful bind went through.
pub bind-eq-ok {ℓ κ} :
    {A : Type ℓ} {B : Type κ} (first : Result A) (then : A → Result B) {out : B}
    → (first >>= then) ≡ ok out
    → (found : A) × (first ≡ ok found) × (then found ≡ ok out)
bind-eq-ok (err raised) then returned = absurd (cc)
bind-eq-ok (ok value) then returned = (value, refl, returned)

pub ok-injective {ℓ} : {A : Type ℓ} {a b : A} → ok a ≡ ok b → a ≡ b
ok-injective h = cc

-- ===== src/Json.antt =====
-- The values of Python's `Any` that the engine stores and compares: JSON data. Floating-point
-- numbers are a type `F` with the operations of `Python`, which the engine does not implement.
use workfllow_execution.Prelude.{◌≡◌, ℕ, nat_eq, length, String, ◌==◌, Bool, true, false, not, ◌&&◌}
use workfllow_execution.Prelude.{Option, none, some, List, [], ◌∷◌, lookup}
use workfllow_execution.Errors.{Result, ok, err, type_error, attribute_error, or_raise, key_error}

-- `negsuc n` is -(n + 1).
pub data ℤ : Type 0 where
  pos : ℕ → ℤ
  negsuc : ℕ → ℤ

mutual
  pub data Json (F : Type 0) : Type 0 where
    null : Json F
    bool : Bool → Json F
    int : ℤ → Json F
    float : F → Json F
    str : String → Json F
    arr : Items F → Json F
    obj : Fields F → Json F

  pub data Items (F : Type 0) : Type 0 where
    nil : Items F
    cons : Json F → Items F → Items F

  pub data Fields (F : Type 0) : Type 0 where
    end : Fields F
    field : String → Json F → Fields F → Fields F

-- Python's float arithmetic and `str()`. `str` of a text is the text.
pub record Python (F : Type 0) : Type 0 where
  pub zero_float : F
  pub add : F → F → F
  -- round(x, 2)
  pub round2 : F → F
  -- float(n)
  pub of_int : ℤ → F
  -- x == y, x == n and bool(x)
  pub float_eq : F → F → Bool
  pub float_eq_int : F → ℤ → Bool
  pub is_nonzero : F → Bool
  pub to_str : Json F → String
  pub to_str-str : (s : String) → to_str (str s) ≡ s

abbrev pub Dict : Type 0 → Type 0
Dict F = List (String × Json F)

abbrev int_eq : ℤ → ℤ → Bool
int_eq (pos m) (pos n) = nat_eq m n
int_eq (negsuc m) (negsuc n) = nat_eq m n
int_eq _ _ = false

-- True is 1 and False is 0.
abbrev int_of_bool : Bool → ℤ
int_of_bool true = pos 1
int_of_bool false = pos 0

module _ {F : Type 0} where
  abbrev pub items : Items F → List (Json F)
  items nil = []
  items (cons x xs) = x ∷ items xs

  abbrev pub entries : Fields F → Dict F
  entries end = []
  entries (field k v fs) = (k, v) ∷ entries fs

  abbrev is_nil : Items F → Bool
  is_nil nil = true
  is_nil (cons x xs) = false

  abbrev is_end : Fields F → Bool
  is_end end = true
  is_end (field k v fs) = false

  -- `x is None`
  abbrev pub is_none : Json F → Bool
  is_none null = true
  is_none _ = false

  -- `isinstance(x, dict)`, with the dict
  abbrev pub dict? : Json F → Option (Dict F)
  dict? (obj fs) = some (entries fs)
  dict? _ = none

  -- `x.get(key)`: no value but a dict has the method.
  abbrev pub get : Json F → String → Result (Json F)
  get (obj fs) key = ok (elim (lookup key (entries fs)) [ none ↦ null | some v ↦ v ])
  get _ key = err attribute_error

  -- `x.get(key, default)`
  abbrev pub get_or : Json F → String → Json F → Result (Json F)
  get_or (obj fs) key d = ok (elim (lookup key (entries fs)) [ none ↦ d | some v ↦ v ])
  get_or _ key d = err attribute_error

  -- `x["key"]`, for a text as the key
  abbrev pub subscript : Json F → String → Result (Json F)
  subscript (obj fs) key = or_raise (lookup key (entries fs)) key_error
  subscript _ key = err type_error

module _ {F : Type 0} ⦃py : Python F⦄ where
  abbrev int_eq_any : ℤ → Json F → Bool
  int_eq_any m (bool b) = int_eq m (int_of_bool b)
  int_eq_any m (int n) = int_eq m n
  int_eq_any m (float y) = py.float_eq_int y m
  int_eq_any m _ = false

  abbrev float_eq_any : F → Json F → Bool
  float_eq_any x (bool b) = py.float_eq_int x (int_of_bool b)
  float_eq_any x (int n) = py.float_eq_int x n
  float_eq_any x (float y) = py.float_eq x y
  float_eq_any x _ = false

  abbrev pub str_eq_any : String → Json F → Bool
  str_eq_any s (str t) = s == t
  str_eq_any s _ = false

  -- `x == y`: numbers and truth values by value, dicts whatever the order of their keys.
  unfoldable mutual
    pub eq : Json F → Json F → Bool
    eq null y = is_none y
    eq (bool b) y = int_eq_any (int_of_bool b) y
    eq (int n) y = int_eq_any n y
    eq (float x) y = float_eq_any x y
    eq (str s) y = str_eq_any s y
    eq (arr xs) y = elim y [ arr ys ↦ items_eq xs ys | _ ↦ false ]
    eq (obj fs) y = elim y [
      | obj gs ↦ nat_eq (length (entries fs)) (length (entries gs)) && fields_in fs (entries gs)
      | _ ↦ false
    ]

    pub items_eq : Items F → Items F → Bool
    items_eq nil ys = is_nil ys
    items_eq (cons x xs) ys = elim ys [ nil ↦ false | cons y ys' ↦ eq x y && items_eq xs ys' ]

    -- Every entry of the first dict is in the second.
    pub fields_in : Fields F → Dict F → Bool
    fields_in end gs = true
    fields_in (field k v fs) gs =
        elim (lookup k gs) [ none ↦ false | some w ↦ eq v w ] && fields_in fs gs

  -- `bool(x)`
  abbrev pub truthy : Json F → Bool
  truthy null = false
  truthy (bool b) = b
  truthy (int n) = not (int_eq n (pos 0))
  truthy (float x) = py.is_nonzero x
  truthy (str s) = not (s == "")
  truthy (arr xs) = not (is_nil xs)
  truthy (obj fs) = not (is_end fs)

  -- `float(x)` where `isinstance(x, int | float) and not isinstance(x, bool)`
  abbrev pub number? : Json F → Option F
  number? (int n) = some (py.of_int n)
  number? (float x) = some x
  number? _ = none

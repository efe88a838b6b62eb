-- ===== src/Python/Value.antt =====
-- The values that messages and transactions hold: JSON values, whose objects are dicts.
pub mod Equality
use sovrin.Prelude.{
  ℕ, String, ◌≡◌, refl, Bool, true, false, not, Option, none, some, List, [], ◌∷◌, arith, nat_eq,
  str_eq, if◌then◌else◌, String-Eq, ap, eq_iff, eq_refl, ◌↔◌,
}
use sovrin.Python.Dict.{Dict, lookup}

mutual
  pub data Value : Type 0 where
    null : Value
    bool : Bool → Value
    num : ℕ → Value
    str : String → Value
    obj : Fields → Value
    arr : Items → Value

  pub data Fields : Type 0 where
    end : Fields
    field : String → Value → Fields → Fields

  pub data Items : Type 0 where
    nil : Items
    cons : Value → Items → Items

-- A transaction, an operation or a message: a dict with string keys.
abbrev pub Object : Type 0
Object = Dict String Value

abbrev pub to_dict : Fields → Object
to_dict end = []
to_dict (field k v fs) = (k, v) ∷ to_dict fs

abbrev pub of_dict : Object → Fields
of_dict [] = end
of_dict ((k, v) ∷ d) = field k v (of_dict d)

abbrev pub of_list : List Value → Items
of_list [] = nil
of_list (v ∷ vs) = cons v (of_list vs)

pub to_dict-of_dict : (d : Object) → to_dict (of_dict d) ≡ d
to_dict-of_dict [] = refl
to_dict-of_dict ((k, v) ∷ d) = ap (λ (r : Object). (k, v) ∷ r) (to_dict-of_dict d)

-- `bool(v)`
abbrev pub truthy : Value → Bool
truthy null = false
truthy (bool b) = b
truthy (num n) = not (nat_eq n 0)
truthy (str s) = not (str_eq s "")
truthy (arr nil) = false
truthy (arr (cons v vs)) = true
truthy (obj end) = false
truthy (obj (field k v fs)) = true

-- `v == s` for a string `s`
abbrev pub is_str : Value → String → Bool
is_str (str t) s = str_eq t s
is_str _ s = false

-- `v or w`
abbrev pub or_else : Value → Value → Value
or_else v w = if truthy v then v else w

abbrev pub or_null : Option Value → Value
or_null none = null
or_null (some v) = v

-- `d.get(k)`: `None` where the key is missing
unfoldable pub get : String → Object → Value
unfolding lookup
get k d = or_null (lookup k d)

pub is_str_eq : (v : Value) (s : String) → is_str v s ≡ true → v ≡ str s
is_str_eq (str t) s h = ground (arith, eq_iff t s)
is_str_eq null s h = ground arith
is_str_eq (bool b) s h = ground arith
is_str_eq (num n) s h = ground arith
is_str_eq (arr vs) s h = ground arith
is_str_eq (obj fs) s h = ground arith

pub is_str_iff : (v : Value) (s : String) → (is_str v s ≡ true) ↔ (v ≡ str s)
is_str_iff v s = (is_str_eq v s, λ e. rw e (eq_refl s))

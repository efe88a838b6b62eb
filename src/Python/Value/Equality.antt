-- ===== src/Python/Value/Equality.antt =====
-- Python's `==` on values. The order of a dict counts here; the code compares texts and numbers.
use sovrin.Prelude.{
  String, ◌≡◌, ◌↔◌, refl, Bool, true, false, arith, nat_eq, str_eq, eq_iff, ◌&&◌, Eq, String-Eq,
  ℕ-Eq,
}
use sovrin.Python.Value.{
  Value, null, bool, num, str, obj, arr, Items, nil, cons, Fields, end, field,
}

abbrev bool_eq : Bool → Bool → Bool
bool_eq true b = b
bool_eq false true = false
bool_eq false false = true

unfoldable mutual
  pub value_eq : Value → Value → Bool
  value_eq null null = true
  value_eq (bool a) (bool b) = bool_eq a b
  value_eq (num a) (num b) = nat_eq a b
  value_eq (str a) (str b) = str_eq a b
  value_eq (arr a) (arr b) = items_eq a b
  value_eq (obj a) (obj b) = fields_eq a b
  value_eq _ _ = false

  items_eq : Items → Items → Bool
  items_eq nil nil = true
  items_eq (cons a as_) (cons b bs) = value_eq a b && items_eq as_ bs
  items_eq _ _ = false

  fields_eq : Fields → Fields → Bool
  fields_eq end end = true
  fields_eq (field j a as_) (field k b bs) = str_eq j k && (value_eq a b && fields_eq as_ bs)
  fields_eq _ _ = false

and_iff :
    {A B : Type 0} (p q : Bool) → (p ≡ true) ↔ A → (q ≡ true) ↔ B → ((p && q) ≡ true) ↔ (A × B)
and_iff true q f g = (λ h. (f.0 refl, g.0 h), λ ab. g.1 ab.1)
and_iff false q f g = (λ h. ground arith, λ ab. f.1 ab.0)

field_iff :
    (j k : String) (a b : Value) (r s : Fields)
    → (j ≡ k × (a ≡ b × r ≡ s)) ↔ (field j a r ≡ field k b s)
field_iff j k a b r s =
    (λ h. rw (h.0, h.1.0, h.1.1), λ e. (ground arith, (ground arith, ground arith)))

item_iff : (a b : Value) (r s : Items) → (a ≡ b × r ≡ s) ↔ (cons a r ≡ cons b s)
item_iff a b r s = (λ h. rw (h.0, h.1), λ e. (ground arith, ground arith))

both : {A B C : Type 0} → A ↔ B → B ↔ C → A ↔ C
both f g = (λ a. g.0 (f.0 a), λ c. f.1 (g.1 c))

mutual
  unfolding value_eq

  pub value_eq_iff : (a b : Value) → (value_eq a b ≡ true) ↔ (a ≡ b)
  value_eq_iff (bool true) (bool b) = ground arith
  value_eq_iff (bool false) (bool b) = ground arith
  value_eq_iff (num a) (num b) = ground arith
  value_eq_iff (str a) (str b) = ground (arith, eq_iff a b)
  value_eq_iff (arr a) (arr b) = ground (arith, items_eq_iff a b)
  value_eq_iff (obj a) (obj b) = ground (arith, fields_eq_iff a b)
  value_eq_iff _ _ = ground arith

  items_eq_iff : (a b : Items) → (items_eq a b ≡ true) ↔ (a ≡ b)
  items_eq_iff (cons a as_) (cons b bs) =
      both (and_iff (value_eq a b) (items_eq as_ bs) (value_eq_iff a b) (items_eq_iff as_ bs))
        (item_iff a b as_ bs)
  items_eq_iff _ _ = ground arith

  fields_eq_iff : (a b : Fields) → (fields_eq a b ≡ true) ↔ (a ≡ b)
  fields_eq_iff (field j a as_) (field k b bs) =
      both
        (and_iff (str_eq j k) (value_eq a b && fields_eq as_ bs) (eq_iff j k)
          (and_iff (value_eq a b) (fields_eq as_ bs) (value_eq_iff a b) (fields_eq_iff as_ bs)))
        (field_iff j k a b as_ bs)
  fields_eq_iff _ _ = ground arith

instance abbrev pub Value-Eq : Eq Value
Value-Eq = record { beq = value_eq; beq_iff = value_eq_iff }

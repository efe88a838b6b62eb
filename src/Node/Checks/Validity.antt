-- ===== src/Node/Checks/Validity.antt =====
-- Which operations pass `checkValidSovrinOperation`.
use sovrin.Prelude.{
  ◌≡◌, ◌↔◌, true, false, not, some, length, arith, if◌then◌else◌, String-Eq, Option-cases, inl, inr,
}
use sovrin.Python.Dict.{lookup, contains, contains_of_lookup}
use sovrin.Python.Value.{Value, str, Object, truthy, get, or_else, is_str}
use sovrin.Python.Result.{
  Result, ok, invalid_request, invalid_keys, invalid_type, raise_unless, ◌>>◌,
}
use sovrin.Txn.{is_valid_txn_type, is_valid_role}
use sovrin.Txn.Names
use sovrin.Signing.{data_keys}
use sovrin.Graph.Db.{OrientDb}
use sovrin.Graph.Nyms.{has_nym}
use sovrin.Node.Env.{Plenum}
use sovrin.Node.Checks.{
  has_unknown_key, has_missing_key, raw_is_json, check_attrib, check_nym,
  check_valid_sovrin_operation,
}

module _ (p : Plenum) (db : OrientDb) (op : Object) (s : db.Store) where
  -- An attribute has one datum, JSON if it is raw, and its target, if any, is a known nym.
  pub record IsAttrib : Type 0 where
    pub one_datum : length (data_keys op) ≡ 1
    pub json : contains Names.raw op ≡ true → raw_is_json p db op ≡ true
    pub target :
        truthy (get Names.target_nym op) ≡ true → has_nym db (get Names.target_nym op) s ≡ true

  -- A nym has a role of the three, or none, and is not known yet.
  pub record IsNewNym (target : Value) : Type 0 where
    pub named : lookup Names.target_nym op ≡ some target
    pub role : is_valid_role (or_else (get Names.role op) (str Names.user)) ≡ true
    pub new : has_nym db target s ≡ false

  check_attrib-ok : (check_attrib p db op s ≡ ok tt) ↔ IsAttrib
  unfolding check_attrib
  check_attrib-ok = (
    λ h. record { one_datum = ground arith; json = λ r. ground arith; target = λ t. ground arith },
    λ a. attrib_passes a.one_datum a.json a.target,
  )
    where
      attrib_passes :
          length (data_keys op) ≡ 1
          → (contains Names.raw op ≡ true → raw_is_json p db op ≡ true)
          → (truthy (get Names.target_nym op) ≡ true
              → has_nym db (get Names.target_nym op) s ≡ true)
          → check_attrib p db op s ≡ ok tt
      attrib_passes one json target = ground arith

  check_nym-ok :
      (t : Value) → lookup Names.target_nym op ≡ some t → (check_nym p db op s ≡ ok tt) ↔ IsNewNym t
  unfolding check_nym
  check_nym-ok t named = (
    λ h. record { named = named; role = ground arith; new = ground arith },
    λ a. rw (a.role, named) (rw a.new),
  )

  nym_target : check_nym p db op s ≡ ok tt → (t : Value) × IsNewNym t
  nym_target h = elim (Option-cases (lookup Names.target_nym op)) [
    | inl missing ↦ absurd (unfold check_nym in ground arith)
    | inr (t, named) ↦ (t, (check_nym-ok t named).0 h)
  ]

  module _ (type : Value) (has : lookup Names.txn_type op ≡ some type) where
    -- What an operation of a given type must hold.
    pub record IsValidOperation : Type 0 where
      pub keys_known : has_unknown_key op ≡ false
      pub type_known : is_valid_txn_type p.pool_txn_types type ≡ true
      pub attrib : is_str type Names.attrib ≡ true → IsAttrib
      pub nym : is_str type Names.nym ≡ true → (t : Value) × IsNewNym t

    has_type : has_missing_key op ≡ false
    has_type = rw (contains_of_lookup Names.txn_type type op has)

    attrib_or_not : Result (Unit {0})
    attrib_or_not = if is_str type Names.attrib then check_attrib p db op s else ok tt

    nym_or_not : Result (Unit {0})
    nym_or_not = if is_str type Names.nym then check_nym p db op s else ok tt

    checks : Result (Unit {0})
    checks = do
      raise_unless (not (has_unknown_key op)) (invalid_request invalid_keys)
      raise_unless (is_valid_txn_type p.pool_txn_types type) (invalid_request invalid_type)
      attrib_or_not
      nym_or_not

    steps : check_valid_sovrin_operation p db op s ≡ checks
    unfolding check_valid_sovrin_operation checks attrib_or_not nym_or_not
    steps = rw (has_type, has)

    sound : checks ≡ ok tt → IsValidOperation
    unfolding checks attrib_or_not nym_or_not
    sound h = record {
      keys_known = ground arith;
      type_known = ground arith;
      attrib = λ e. check_attrib-ok.0 (ground arith);
      nym = λ e. nym_target (ground arith);
    }

    complete : IsValidOperation → checks ≡ ok tt
    unfolding checks attrib_or_not nym_or_not
    complete v = ground (arith, attrib_passes, nym_passes)
      where
        attrib_passes : is_str type Names.attrib ≡ true → check_attrib p db op s ≡ ok tt
        attrib_passes e = check_attrib-ok.1 (v.attrib e)

        nym_passes : is_str type Names.nym ≡ true → check_nym p db op s ≡ ok tt
        nym_passes e = let (t, new) = v.nym e in (check_nym-ok t new.named).1 new

    -- `checkValidSovrinOperation` passes an operation that has a type exactly when the type is of
    -- the table, its keys are all known, it holds, if it is ATTRIB, exactly one datum, JSON if it
    -- is raw, for a known nym or for none, and, if it is NYM, a target that is not known yet with
    -- a role of the three or none.
    pub check_valid_sovrin_operation-ok :
        (check_valid_sovrin_operation p db op s ≡ ok tt) ↔ IsValidOperation
    check_valid_sovrin_operation-ok = (λ h. sound (rw steps at h), λ v. rw steps (complete v))

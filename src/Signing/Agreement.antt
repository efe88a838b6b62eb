-- ===== src/Signing/Agreement.antt =====
-- What the client signs is what the node verifies, whichever member `set.pop` takes.
use sovrin.Prelude.{
  String, ◌≡◌, true, some, [], ◌∷◌, arith, eq_iff, Bool-cases, inl, inr, String-Eq,
}
use sovrin.Python.Dict.{lookup}
use sovrin.Python.Value.{obj, Object, of_dict, to_dict-of_dict, is_str, get}
use sovrin.Python.Result.{ok, ◌>>=◌}
use sovrin.Txn.Names
use sovrin.Signing.{
  Request, Pop, data_keys, hash_key, hash_attribute, hash_operation, get_signing_state,
  serialize_for_sig,
}

-- From a set with one member, `pop` takes it.
pop_one : (p : Pop) (k : String) → p.pop (k ∷ []) ≡ k
pop_one p k = ground (arith, p.pop_member k [], eq_iff (p.pop (k ∷ [])) k)

module _ (sha256 : String → String) where
  hash_attribute_one :
      (p : Pop) (op : Object) (k : String)
      → data_keys op ≡ k ∷ []
      → hash_attribute sha256 p op ≡ hash_key sha256 k op
  unfolding hash_attribute
  hash_attribute_one p op k one = rw one (rw (pop_one p k))

  hash_operation_any_pop :
      (p q : Pop) (d op : Object) (k : String)
      → lookup Names.operation d ≡ some (obj (of_dict op))
      → data_keys op ≡ k ∷ []
      → hash_operation sha256 p d ≡ hash_operation sha256 q d
  unfolding hash_operation
  hash_operation_any_pop p q d op k has one =
      rw (has, to_dict-of_dict op, hash_attribute_one p op k one, hash_attribute_one q op k one)

  module _ (base : Request → Object) (serialize : Object → String) where
    -- The text that a client signs for a request is the text against which a node verifies the
    -- signature, or both raise the same exception, whichever members the two sets pop: if an
    -- attribute request holds one of the three data keys, and plenum's signing state holds the
    -- operation.
    pub signing_agrees :
        (client node : Pop) (r : Request) (k : String)
        → lookup Names.operation (base r) ≡ some (obj (of_dict r.operation))
        → (is_str (get Names.txn_type r.operation) Names.attrib ≡ true
            → data_keys r.operation ≡ k ∷ [])
        → (get_signing_state sha256 base client r >>= λ d. ok (serialize d))
          ≡ serialize_for_sig sha256 serialize node (base r)
    unfolding get_signing_state serialize_for_sig
    signing_agrees client node r k has one =
        elim (Bool-cases (is_str (get Names.txn_type r.operation) Names.attrib)) [
          | inl attribute ↦ rw has (
              rw to_dict-of_dict (
                rw (
                  attribute,
                  hash_operation_any_pop client node (base r) r.operation k has (one attribute),
                )))
          | inr other ↦ rw has (rw to_dict-of_dict (rw other))
        ]

-- ===== src/Node/Checks.antt =====
-- `checkValidSovrinOperation`, `checkRequestAuthorized` and `isSignatureVerificationNeeded`.
pub mod Validity
pub mod Authority
use sovrin.Prelude.{
  String, Bool, true, false, not, Option, none, some, List, [], ◌∷◌, any, all, keep, length,
  if◌then◌else◌, nat_eq, String-Eq, ◌==◌, ◌&&◌, ◌||◌,
}
use sovrin.Python.Dict.{Dict, lookup, contains, keys}
use sovrin.Python.Value.{Value, str, obj, Object, truthy, get, or_else, is_str, to_dict}
use sovrin.Python.Result.{
  Exc, Result, Reason, ok, err, invalid_request, unauthorized, key_error, attribute_error,
  invalid_keys, missing_keys, invalid_type, one_data_key, raw_not_json, target_not_added,
  invalid_role, already_present, raise_unless, or_raise, ◌>>=◌, ◌>>◌,
}
use sovrin.Txn.{all_op_keys, req_op_keys, is_valid_txn_type, is_valid_role, is_one_of}
use sovrin.Txn.Names
use sovrin.Signing.{Request, data_keys}
use sovrin.Graph.Db.{OrientDb}
use sovrin.Graph.Nyms.{has_nym, get_role, get_sponsor_for, is_some}
use sovrin.Node.Env.{Plenum}

-- An operation holds a key that no request may hold.
abbrev pub has_unknown_key : Object → Bool
has_unknown_key op = any (λ k. not (any (λ j. j == k) all_op_keys)) (keys op)

abbrev pub has_missing_key : Object → Bool
has_missing_key op = any (λ k. not (contains k op)) req_op_keys

-- `isSignatureVerificationNeeded`: the open types need none; `msg.get(OPERATION)` may be missing
unfoldable pub is_signature_verification_needed : Object → Result Bool
is_signature_verification_needed msg = elim (get Names.operation msg) [
  | obj fs ↦ ok (not (is_one_of Names.open_txns (get Names.txn_type (to_dict fs))))
  | v ↦ if truthy v then err attribute_error else ok true
]

-- `authorizedAdders`
abbrev pub authorized_adders : String → Option (List String)
authorized_adders role =
    if role == Names.steward
    then some (Names.steward ∷ [])
    else if role == Names.sponsor
    then some (Names.steward ∷ [])
    else if role == Names.user
    then some (Names.steward ∷ Names.sponsor ∷ [])
    else none

abbrev adders_of : Value → Option (List String)
adders_of (str role) = authorized_adders role
adders_of _ = none

-- the case of a NYM request: `authorizedAdders[role]`
authorize_nym : (role origin_role : Value) → Result (Unit {0})
authorize_nym role origin_role = do
  adders ← or_raise key_error (adders_of role)
  raise_unless (is_one_of adders origin_role) unauthorized

module _ (p : Plenum) (db : OrientDb) where
  -- the raw data, if any, is JSON
  abbrev raw_is_json : Object → Bool
  raw_is_json op = elim (get Names.raw op) [ str s ↦ is_some (p.json_loads s) | _ ↦ false ]

  check_attrib : Object → db.Store → Result (Unit {0})
  check_attrib op s = do
    raise_unless (nat_eq (length (data_keys op)) 1) (invalid_request one_data_key)
    raise_unless (not (contains Names.raw op) || raw_is_json op) (invalid_request raw_not_json)
    raise_unless (not (truthy (get Names.target_nym op)) || has_nym db (get Names.target_nym op) s)
        (invalid_request target_not_added)

  check_nym : Object → db.Store → Result (Unit {0})
  check_nym op s = do
    raise_unless (is_valid_role (or_else (get Names.role op) (str Names.user)))
        (invalid_request invalid_role)
    target ← or_raise key_error (lookup Names.target_nym op)
    raise_unless (not (has_nym db target s)) (invalid_request already_present)

  -- The checks in their order; the type is read where it is known to be there.
  unfoldable pub check_valid_sovrin_operation : Object → db.Store → Result (Unit {0})
  unfolding check_attrib check_nym
  check_valid_sovrin_operation op s = do
    raise_unless (not (has_unknown_key op)) (invalid_request invalid_keys)
    raise_unless (not (has_missing_key op)) (invalid_request missing_keys)
    type ← or_raise key_error (lookup Names.txn_type op)
    raise_unless (is_valid_txn_type p.pool_txn_types type) (invalid_request invalid_type)
    if is_str type Names.attrib then check_attrib op s else ok tt
    if is_str type Names.nym then check_nym op s else ok tt

  -- `checkValidOperation`
  unfoldable pub check_valid_operation : Object → db.Store → Result (Unit {0})
  check_valid_operation op s = do check_valid_sovrin_operation op s; p.base_check_valid_operation op

  abbrev may_add_attribute : Object → Value → db.Store → Bool
  may_add_attribute op (str origin) s =
      not (truthy (get Names.target_nym op))
      || is_str (get Names.target_nym op) origin
      || is_str (get_sponsor_for db (get Names.target_nym op) s) origin
  may_add_attribute op _ s = not (truthy (get Names.target_nym op))

  -- the types that anyone may send
  abbrev pub free_types : List String
  free_types =
      Names.disclo ∷ Names.get_attr ∷ Names.cred_def ∷ Names.get_cred_def ∷ Names.issuer_key
      ∷ Names.get_issuer_key ∷ []

  unfoldable pub check_request_authorized : Request → db.Store → Result (Unit {0})
  unfolding authorize_nym
  check_request_authorized r s = do
    type ← or_raise key_error (lookup Names.txn_type r.operation)
    origin_role ← get_role db r.identifier s
    if is_str type Names.nym
        then authorize_nym (or_else (get Names.role r.operation) (str Names.user)) origin_role
        else if is_str type Names.attrib
        then raise_unless (may_add_attribute r.operation r.identifier s) unauthorized
        else if is_one_of free_types type
        then ok tt
        else p.base_check_request_authorized r

-- ===== src/Wallet/Replies.antt =====
-- sovrin/client/wallet/wallet.py: the dispatch of replies, the handlers of GET_CRED_DEF, ISSUER_KEY
-- and GET_ISSUER_KEY replies, and the requests for issuer keys. A name that a reply holds is a
-- string, and a number is not negative.
pub mod Dispatch
mod Tests
use sovrin.Prelude.{
  ℕ, String, Bool, true, false, Option, none, some, List, [], ◌∷◌, ◌++◌, any, keep, map, length,
  if◌then◌else◌, nat_eq, String-Eq, ℕ-Eq, Option-Eq, Pair-Eq, ◌==◌,
}
use sovrin.Python.Dict.{Dict, lookup, insert}
use sovrin.Python.Value.{Value, null, num, str, obj, Object, get, truthy, is_str, to_dict}
use sovrin.Python.Result.{
  Exc, Result, ok, err, key_error, type_error, value_error, attribute_error, runtime_error,
  not_implemented, other, or_raise,
}
use sovrin.Python.Exec.{Exec, pure, raise, lift, gets, asks, modify, ◌>>=◌, ◌>>◌}
use sovrin.Txn.Names
use sovrin.Signing.{as_object, as_string}
use sovrin.Wallet.Items.{Draft, CredDef, CredDefKey, has_number}
use sovrin.Wallet.IssuerKeys.{
  Integers, IssuerPubKey, IssuerKeyId, IssuerKeys, issuer_key_id, init_pub_key, issuer_key_request,
  issuer_key_get_request, get_issuer_public_key, get_matching_issuer_key,
}
use sovrin.Wallet.{
  Key, Signed, Signer, Wallet, no_key, pend_request, pend_if, prep_if, add_cred_def,
  get_cred_def_by_key,
}
use sovrin.Wallet.Handlers.{attrib_reply, get_attr_reply, cred_def_reply, nym_reply, get_nym_reply}

-- What the handlers take from elsewhere: JSON, the time, `split` and `join` at commas, `str` of an
-- integer, and `strToCharmInteger`.
pub record Outer : Type 0 where
  pub json_loads : String → Option Value
  pub now : ℕ
  pub split : String → List String
  pub join : List String → String
  pub to_str : ℕ → String
  pub to_integer : Value → Result ℕ

abbrev item : String → Object → Result Value
item k d = or_raise key_error (lookup k d)

abbrev text_or_none : Value → Option String
text_or_none (str s) = some s
text_or_none v = none

abbrev number_or_none : Value → Option ℕ
number_or_none (num n) = some n
number_or_none v = none

abbrev found_key : (name version : Value) → (origin : Option String) → Option CredDefKey
found_key (str n) (str v) o = some (n, (v, o))
found_key name version o = none

abbrev new_key : Option String → ℕ → IssuerPubKey
new_key origin n = record { claim_def_seq_no = n; origin = origin; integers = none; seq_no = none }

module _ (x : Outer) where
  -- `json.loads(result.get(DATA))`, an object
  abbrev pub loaded : Object → Result Object
  loaded result = elim (get Names.data_key result) [
    | str s ↦ elim (x.json_loads s) [ none ↦ err value_error | some v ↦ as_object v ]
    | v ↦ err type_error
  ]

  abbrev split_names : Value → Result (List String)
  split_names (str s) = ok (x.split s)
  split_names v = err attribute_error

  abbrev integers_in : Object → Result (Dict String ℕ)
  integers_in [] = ok []
  integers_in ((k, v) ∷ d) = elim (x.to_integer v) [
    | err e ↦ err e
    | ok n ↦ elim (integers_in d) [ err e ↦ err e | ok r ↦ ok ((k, n) ∷ r) ]
  ]

module _ (x : Outer) (g : Signer) where
  abbrev known_def : Option CredDefKey → Wallet g → Option CredDef
  known_def none w = none
  known_def (some k) w = get_cred_def_by_key g k w

  -- the definition that a reply describes
  abbrev told_cred_def : Object → Exec (Wallet g) CredDef
  told_cred_def d = do
    names ← lift (split_names x (get Names.attr_names d))
    name ← lift (item Names.name d)
    version ← lift (item Names.version d)
    origin ← lift (item Names.origin d)
    type ← lift (item Names.typ d)
    name' ← lift (as_string name)
    version' ← lift (as_string version)
    pure (record {
      name = name';
      version = version';
      origin = text_or_none origin;
      seq_no = number_or_none (get Names.seq_no d);
      attr_names = names;
      typ = text_or_none type;
    })

  abbrev update_def : Object → Option CredDefKey → Option CredDef → Exec (Wallet g) Unit
  update_def d (some k) (some c) =
      if has_number c.seq_no
      then pure tt
      else modify (λ w. record w {
        cred_defs =
            insert k (record c { seq_no = number_or_none (get Names.seq_no d) }) w.cred_defs;
      })
  update_def d k c = do told ← told_cred_def d; add_cred_def g x.join told; pure tt

  -- `_getCredDefReply`
  unfoldable pub get_cred_def_reply : Object → Exec (Wallet g) Unit
  unfolding insert add_cred_def
  get_cred_def_reply result = do
    d ← lift (loaded x result)
    let k = found_key (get Names.name d) (get Names.version d) (text_or_none (get Names.origin d))
    c ← gets (known_def k)
    update_def d k c

  abbrev is_same_number : Value → ℕ → Bool
  is_same_number (num m) n = nat_eq m n
  is_same_number v n = false

  abbrev numbered_key : Object → IssuerKeyId → Option IssuerPubKey → Exec (Wallet g) (Option ℕ)
  numbered_key result i none = raise (other "Exception")
  numbered_key result i (some k) =
      if is_same_number (get Names.reference result) k.claim_def_seq_no
      then (do
        modify (λ w. record w {
          issuer_keys =
              insert i (record k { seq_no = number_or_none (get Names.seq_no result) })
                w.issuer_keys;
        })
        pure (number_or_none (get Names.seq_no result)))
      else raise (other "Exception")

  abbrev numbered_match : Object → Option IssuerKeyId → Exec (Wallet g) (Option ℕ)
  numbered_match result none = raise (other "Exception")
  numbered_match result (some i) = do
    k ← gets (λ w. lookup i w.issuer_keys)
    numbered_key result i k

  -- `_issuerKeyReply`, which returns the number
  unfoldable pub issuer_key_reply : Object → Exec (Wallet g) (Option ℕ)
  unfolding insert get_matching_issuer_key
  issuer_key_reply result = do
    d ← lift (as_object (get Names.data_key result))
    found ← asks (λ w. get_matching_issuer_key x.to_str d w.issuer_keys)
    numbered_match result found

  abbrev asked_key : Object → Wallet g → Option (IssuerKeyId × IssuerPubKey)
  asked_key d w = elim (get Names.reference d) [
    | num n ↦ elim (lookup (text_or_none (get Names.origin d), n) w.issuer_keys) [
      | none ↦ none
      | some k ↦ some ((text_or_none (get Names.origin d), n), k)
    ]
    | v ↦ none
  ]

  -- the integers of a key, in the order in which they are converted
  abbrev told_integers : Object → Exec (Wallet g) Integers
  told_integers ks = do
    vn ← lift (item "N" ks)
    n ← lift (x.to_integer vn)
    vs ← lift (item "S" ks)
    s ← lift (x.to_integer vs)
    vz ← lift (item "Z" ks)
    z ← lift (x.to_integer vz)
    vr ← lift (item "R" ks)
    rs ← lift (as_object vr)
    r ← lift (integers_in x rs)
    pure (record { n = n; r = r; s = s; z = z })

  -- `_getIssuerKeyReply`: a key that the wallet did not ask for is `None`, which has no integers
  unfoldable pub get_issuer_key_reply : Object → Exec (Wallet g) Unit
  unfolding insert init_pub_key
  get_issuer_key_reply result = do
    d ← lift (loaded x result)
    asked ← gets (asked_key d)
    ks ← lift (as_object (get Names.data_key d))
    ints ← told_integers ks
    entry ← lift (or_raise attribute_error asked)
    modify (λ w. record w {
      issuer_keys =
          insert entry.0 (init_pub_key (number_or_none (get Names.seq_no d)) ints entry.1)
            w.issuer_keys;
    })

  abbrev ignoring {ℓ} : {A : Type ℓ} → (Wallet g → Result A × Wallet g) → Exec (Wallet g) Unit
  ignoring m w = let (r, w') = m w in (elim r [ ok a ↦ ok tt | err e ↦ err e ], w')

  -- `replyHandler[typ](result, preparedReq)`; GET_TXNS has a handler that does nothing
  abbrev pub handle_by_type : Value → Object → Key → Exec (Wallet g) Unit
  handle_by_type type result k =
      if is_str type Names.attrib
      then attrib_reply g result k
      else if is_str type Names.get_attr
      then get_attr_reply g result k
      else if is_str type Names.cred_def
      then cred_def_reply g result k
      else if is_str type Names.get_cred_def
      then get_cred_def_reply result
      else if is_str type Names.nym
      then nym_reply g result k
      else if is_str type Names.get_nym
      then get_nym_reply g x.now (loaded x result)
      else if is_str type Names.get_txns
      then pure tt
      else if is_str type Names.issuer_key
      then ignoring (issuer_key_reply result)
      else if is_str type Names.get_issuer_key
      then get_issuer_key_reply result
      else raise not_implemented

  abbrev prepared_for : Value → ℕ → Wallet g → Option (Signed × Key)
  prepared_for (str i) n w = lookup (i, n) w.prepared
  prepared_for v n w = none

  -- `handleIncomingReply`
  unfoldable pub handle_incoming_reply : (req_id : ℕ) → Object → Exec (Wallet g) Unit
  unfolding attrib_reply get_attr_reply cred_def_reply get_cred_def_reply nym_reply get_nym_reply
      issuer_key_reply get_issuer_key_reply
  handle_incoming_reply n result = do
    i ← lift (item Names.identifier result)
    prepared ← gets (prepared_for i n)
    entry ← lift (or_raise runtime_error prepared)
    handle_by_type (get Names.txn_type result) result entry.1

  -- `requestIssuerKey`
  unfoldable pub request_issuer_key :
      IssuerKeyId → (sender : Option String) → Exec (Wallet g) (Option Signed)
  unfolding insert
  request_issuer_key (origin, n) sender = do
    modify (λ w. record w { issuer_keys = insert (origin, n) (new_key origin n) w.issuer_keys })
    prep_if g (issuer_key_get_request (new_key origin n) sender) no_key

  -- `addIssuerPublicKey`
  unfoldable pub add_issuer_public_key : IssuerPubKey → Exec (Wallet g) ℕ
  unfolding insert pend_request
  add_issuer_public_key k = do
    modify (λ w. record w { issuer_keys = insert (issuer_key_id k) k w.issuer_keys })
    draft ← lift (issuer_key_request x.to_str k)
    modify (pend_if g draft no_key)
    gets (λ w. length w.pending)

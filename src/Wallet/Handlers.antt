-- ===== src/Wallet/Handlers.antt =====
-- The handlers of replies to a wallet that do not ask for keys: `_attribReply`, `_getAttrReply`,
-- `_credDefReply`, `_nymReply` and `_getNymReply` of sovrin/client/wallet/wallet.py.
use sovrin.Prelude.{
  ℕ, String, Option, none, some, if◌then◌else◌, String-Eq, ℕ-Eq, Option-Eq, Pair-Eq,
}
use sovrin.Python.Dict.{Dict, lookup, insert, contains}
use sovrin.Python.Value.{Value, num, str, Object, get}
use sovrin.Python.Result.{
  Result, ok, err, key_error, type_error, attribute_error, not_implemented, assertion, or_raise,
}
use sovrin.Python.Exec.{Exec, pure, raise, lift, gets, modify, ◌>>=◌, ◌>>◌}
use sovrin.Txn.Names
use sovrin.Wallet.Items.{Identity}
use sovrin.Wallet.{Key, of_attribute, of_cred_def, Signer, Wallet, get_attribute}

module _ (g : Signer) where
  -- The reply handlers: the prepared request's key, and the transaction that came back.
  abbrev pub seq_no_of : Object → Result (Option ℕ)
  seq_no_of result = elim (lookup Names.seq_no result) [
    | none ↦ err key_error
    | some (num n) ↦ ok (some n)
    | some v ↦ ok none
  ]

  -- `_attribReply`
  unfoldable pub attrib_reply : Object → Key → Exec (Wallet g) Unit
  unfolding insert
  attrib_reply result (of_attribute k) = do
    found ← gets (get_attribute g k)
    n ← lift (seq_no_of result)
    a ← lift (or_raise attribute_error found)
    modify (λ w. record w { attributes = insert k (record a { seq_no = n }) w.attributes })
  attrib_reply result k = raise type_error

  -- `_getAttrReply`: without data the attribute stays as it is
  unfoldable pub get_attr_reply : Object → Key → Exec (Wallet g) Unit
  unfolding insert
  get_attr_reply result (of_attribute k) = do
    found ← gets (get_attribute g k)
    if contains Names.data_key result
        then (do
          a ← lift (or_raise attribute_error found)
          modify (λ w. record w {
            attributes = insert k (record a { value = get Names.data_key result }) w.attributes;
          })
          n ← lift (seq_no_of result)
          modify (λ w. record w {
            attributes =
                insert k (record a { value = get Names.data_key result; seq_no = n }) w.attributes;
          }))
        else pure tt
  get_attr_reply result k = raise type_error

  -- `_credDefReply`
  unfoldable pub cred_def_reply : Object → Key → Exec (Wallet g) Unit
  unfolding insert
  cred_def_reply result (of_cred_def k) = do
    found ← gets (λ w. lookup k w.cred_defs)
    n ← lift (seq_no_of result)
    c ← lift (or_raise attribute_error found)
    modify (λ w. record w { cred_defs = insert k (record c { seq_no = n }) w.cred_defs })
  cred_def_reply result k = raise assertion

  abbrev sponsored_of : Value → Dict String Identity → Option Identity
  sponsored_of (str s) d = lookup s d
  sponsored_of v d = none

  -- `_nymReply`: only for an identity that the wallet sponsors
  unfoldable pub nym_reply : Object → Key → Exec (Wallet g) Unit
  unfolding insert
  nym_reply result k = do
    target ← lift (or_raise key_error (lookup Names.target_nym result))
    found ← gets (λ w. sponsored_of target w.sponsored)
    i ← lift (or_raise not_implemented found)
    n ← lift (seq_no_of result)
    modify (λ w. record w { sponsored = insert i.identifier (record i { seq_no = n }) w.sponsored })

  abbrev pub as_text : Value → Option String
  as_text (str s) = some s
  as_text v = none

  abbrev update_known : (now : ℕ) → Object → Option Identity → Wallet g → Wallet g
  update_known now data_ none w = w
  update_known now data_ (some i) w = record w {
    known_ids =
        insert i.identifier
          (record i {
            role = as_text (get Names.role data_);
            sponsor = as_text (get Names.identifier data_);
            last_synced = some now;
          })
          w.known_ids;
  }

  -- `_getNymReply`, on the parsed data, at the time `now`
  unfoldable pub get_nym_reply : (now : ℕ) → Result Object → Exec (Wallet g) Unit
  unfolding insert
  get_nym_reply now parsed = do
    data_ ← lift parsed
    modify (λ w. update_known now data_ (sponsored_of (get Names.target_nym data_) w.known_ids) w)

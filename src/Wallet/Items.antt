-- ===== src/Wallet/Items.antt =====
-- What a wallet holds and the requests that each item generates:
-- sovrin/client/wallet/attribute.py, sovrin/common/identity.py and the class CredDef of
-- sovrin/client/wallet/cred_def.py.
use sovrin.Prelude.{
  ℕ, String, Bool, true, false, not, Option, none, some, List, [], ◌∷◌, ◌++◌, if◌then◌else◌, nat_eq,
  str_eq, ◌&&◌, ◌||◌,
}
use sovrin.Python.Value.{Value, null, str, obj, Object, of_dict}
use sovrin.Python.Result.{
  Result, ok, err, attribute_error, not_implemented, runtime_error, assertion, raise_unless, ◌>>=◌,
  ◌>>◌,
}
use sovrin.Txn.Names

-- A request that is not signed yet.
pub record Draft : Type 0 where
  pub identifier : Option String
  pub operation : Object

abbrev pub opt_str : Option String → Value
opt_str none = null
opt_str (some s) = str s

-- `bool` of an optional string and of an optional number
abbrev pub has_string : Option String → Bool
has_string none = false
has_string (some s) = not (str_eq s "")

abbrev pub has_number : Option ℕ → Bool
has_number none = false
has_number (some n) = not (nat_eq n 0)

abbrev pub is_given : Option String → Bool
is_given none = false
is_given (some _) = true

-- `LedgerStore`: how an attribute is stored on the ledger
pub data LedgerStore : Type 0 where
  dont hash enc raw : LedgerStore

abbrev pub is_writing : LedgerStore → Bool
is_writing LedgerStore.dont = false
is_writing _ = true

-- `AttributeKey.key()`: name, origin and destination
abbrev pub AttributeKey : Type 0
AttributeKey = String × (Option String × Option String)

pub record Attribute : Type 0 where
  pub name : String
  pub value : Value
  pub origin : Option String
  pub dest : Option String
  pub ledger_store : LedgerStore
  pub seq_no : Option ℕ

abbrev pub attribute_key : Attribute → AttributeKey
attribute_key a = (a.name, (a.origin, a.dest))

-- the part of `_op` that depends on the store
abbrev stored_value : LedgerStore → Value → Result Object
stored_value LedgerStore.raw v = ok ((Names.raw, v) ∷ [])
stored_value LedgerStore.enc v = err not_implemented
stored_value LedgerStore.hash v = err not_implemented
stored_value LedgerStore.dont v = err runtime_error

abbrev target_entry : Option String → Object
target_entry dest = if has_string dest then (Names.target_nym, opt_str dest) ∷ [] else []

-- `Attribute._op`
unfoldable pub attribute_op : Attribute → Result Object
attribute_op a = do
  stored ← stored_value a.ledger_store a.value
  ok ((Names.txn_type, str Names.attrib) ∷ target_entry a.dest ++ stored)

abbrev some_draft : Option String → Object → Option Draft
some_draft i op = some (record { identifier = i; operation = op })

-- `Attribute.ledgerRequest`: none if the attribute is not written or has a sequence number
unfoldable pub attribute_ledger_request : Attribute → Result (Option Draft)
unfolding attribute_op
attribute_ledger_request a =
    if is_writing a.ledger_store && not (has_number a.seq_no)
    then (do
      raise_unless (is_given a.origin) assertion
      op ← attribute_op a
      ok (some_draft a.origin op))
    else ok none

-- `Attribute.getRequest`
unfoldable pub attribute_get_request : Attribute → Option String → Option Draft
attribute_get_request a author =
    if has_number a.seq_no
    then none
    else some_draft author (
        (Names.target_nym, opt_str a.dest)
        ∷ (Names.txn_type, str Names.get_attr)
        ∷ (Names.raw, str a.name)
        ∷ (if has_string a.origin then (Names.origin, opt_str a.origin) ∷ [] else []))

pub record Identity : Type 0 where
  pub identifier : String
  pub sponsor : Option String
  pub role : Option String
  pub last_synced : Option ℕ
  pub seq_no : Option ℕ

-- the roles that an identity may be given
abbrev pub is_sponsoring_role : Option String → Bool
is_sponsoring_role none = true
is_sponsoring_role (some r) = str_eq r "" || str_eq r Names.sponsor || str_eq r Names.steward

-- `Identity.__init__`, with no time of synchronisation and no number
unfoldable pub new_identity : (identifier : String) (sponsor role : Option String) → Result Identity
new_identity identifier sponsor role = do
  raise_unless (is_sponsoring_role role) attribute_error
  ok (record {
    identifier = identifier;
    sponsor = sponsor;
    role = role;
    last_synced = none;
    seq_no = none;
  })

abbrev role_entry : Option String → Object
role_entry role = if has_string role then (Names.role, opt_str role) ∷ [] else []

-- `Identity._op` and `Identity.ledgerRequest`
unfoldable pub identity_ledger_request : Identity → Option Draft
identity_ledger_request i =
    if has_number i.seq_no
    then none
    else some_draft i.sponsor
        ((Names.target_nym, str i.identifier) ∷ (Names.txn_type, str Names.nym) ∷ role_entry i.role)

-- `Identity.getRequest`
unfoldable pub identity_get_request : Identity → Option String → Option Draft
identity_get_request i author =
    if has_number i.seq_no
    then none
    else some_draft author
        ((Names.target_nym, str i.identifier) ∷ (Names.txn_type, str Names.get_nym) ∷ [])

pub record CredDef : Type 0 where
  pub name : String
  pub version : String
  pub origin : Option String
  pub seq_no : Option ℕ
  pub attr_names : List String
  pub typ : Option String

abbrev pub CredDefKey : Type 0
CredDefKey = String × (String × Option String)

abbrev pub cred_def_key : CredDef → CredDefKey
cred_def_key c = (c.name, (c.version, c.origin))

-- `CredDef.request`; `join` is `",".join`
unfoldable pub cred_def_request : (List String → String) → CredDef → Result (Option Draft)
cred_def_request join c = if has_number c.seq_no then ok none else (do
  raise_unless (is_given c.origin) assertion
  ok (
      some_draft c.origin (
        (Names.txn_type, str Names.cred_def)
        ∷ (
          Names.data_key,
          obj (
              of_dict (
                (Names.name, str c.name)
                ∷ (Names.version, str c.version)
                ∷ (Names.typ, opt_str c.typ)
                ∷ (Names.attr_names, str (join c.attr_names))
                ∷ [])),
        )
        ∷ [])))

-- `CredDef.getRequest`
unfoldable pub cred_def_get_request : CredDef → Option String → Option Draft
cred_def_get_request c author =
    if has_number c.seq_no
    then none
    else some_draft author (
        (Names.target_nym, opt_str c.origin)
        ∷ (Names.txn_type, str Names.get_cred_def)
        ∷ (
          Names.data_key,
          obj (of_dict ((Names.name, str c.name) ∷ (Names.version, str c.version) ∷ [])),
        )
        ∷ [])

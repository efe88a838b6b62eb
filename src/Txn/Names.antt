-- ===== src/Txn/Names.antt =====
-- The names of sovrin/common/txn.py, as data/ and examples/ show them on the wire.
-- The proofs use only that the names of one dict differ from one another.
use sovrin.Prelude.{String, List, [], ◌∷◌}

abbrev pub txn_type : String
txn_type = "type"

abbrev pub target_nym : String
target_nym = "dest"

abbrev pub origin : String
origin = "origin"

abbrev pub role : String
role = "role"

abbrev pub data_key : String
data_key = "data"

abbrev pub nonce : String
nonce = "nonce"

abbrev pub reference : String
reference = "reference"

abbrev pub raw : String
raw = "raw"

abbrev pub enc : String
enc = "enc"

abbrev pub hash : String
hash = "hash"

abbrev pub alias : String
alias = "alias"

abbrev pub txn_id : String
txn_id = "txnId"

abbrev pub txn_time : String
txn_time = "txnTime"

abbrev pub name : String
name = "name"

abbrev pub version : String
version = "version"

abbrev pub typ : String
typ = "type"

abbrev pub ip : String
ip = "ip"

abbrev pub port : String
port = "port"

abbrev pub keys : String
keys = "keys"

abbrev pub attr_names : String
attr_names = "attr_names"

abbrev pub identifier : String
identifier = "identifier"

abbrev pub req_id : String
req_id = "reqId"

abbrev pub seq_no : String
seq_no = "seqNo"

abbrev pub root_hash : String
root_hash = "rootHash"

abbrev pub audit_path : String
audit_path = "auditPath"

abbrev pub operation : String
operation = "operation"

-- The transaction types.
abbrev pub nym : String
nym = "NYM"

abbrev pub attrib : String
attrib = "ATTRIB"

abbrev pub idproof : String
idproof = "IDPROOF"

abbrev pub assign_agent : String
assign_agent = "ASSIGN_AGENT"

abbrev pub disclo : String
disclo = "DISCLO"

abbrev pub get_attr : String
get_attr = "GET_ATTR"

abbrev pub get_nym : String
get_nym = "GET_NYM"

abbrev pub get_txns : String
get_txns = "GET_TXNS"

abbrev pub cred_def : String
cred_def = "CRED_DEF"

abbrev pub get_cred_def : String
get_cred_def = "GET_CRED_DEF"

abbrev pub issuer_key : String
issuer_key = "ISSUER_KEY"

abbrev pub get_issuer_key : String
get_issuer_key = "GET_ISSUER_KEY"

-- The roles.
abbrev pub steward : String
steward = "STEWARD"

abbrev pub sponsor : String
sponsor = "SPONSOR"

abbrev pub user : String
user = "USER"

abbrev pub last_txn : String
last_txn = "lastTxn"

abbrev pub txns : String
txns = "Txns"

-- The transaction types that need no signature.
abbrev pub open_txns : List String
open_txns = get_nym ∷ get_attr ∷ get_cred_def ∷ get_issuer_key ∷ []

-- ===== src/Cli/Invitation.antt =====
-- What `_loadInvitation` reads from an invitation. The names, identifiers and nonces of an
-- invitation are texts here, and the attributes of a claim request are an object.
use sovrin.Prelude.{String, Option, none, some, List, [], ◌∷◌, if◌then◌else◌, String-Eq}
use sovrin.Python.Dict.{lookup}
use sovrin.Python.Value.{Value, null, str, obj, arr, Items, nil, cons, Object, get, to_dict, truthy}
use sovrin.Python.Result.{Result, ok, err, key_error, type_error, or_raise, ◌>>=◌}
use sovrin.Links.{ClaimRequest}

pub record Invitation : Type 0 where
  pub name : String
  pub identifier : String
  pub end_point : Option String
  pub nonce : String
  pub claim_requests : List ClaimRequest

abbrev pub as_text : Value → Result String
as_text (str s) = ok s
as_text v = err type_error

abbrev pub as_dict : Value → Result Object
as_dict (obj fs) = ok (to_dict fs)
as_dict v = err type_error

abbrev text_or_none : Value → Result (Option String)
text_or_none null = ok none
text_or_none (str s) = ok (some s)
text_or_none v = err type_error

-- `d[k]`
abbrev pub item : String → Object → Result Value
item k d = or_raise key_error (lookup k d)

abbrev pub text_at : String → Object → Result String
text_at k d = do v ← item k d; as_text v

abbrev parse_claim_request : Value → Result ClaimRequest
parse_claim_request v = do
  d ← as_dict v
  name ← text_at "name" d
  version ← text_at "version" d
  given ← item "attributes" d
  attributes ← as_dict given
  ok (record { name = name; version = version; attributes = attributes })

abbrev parse_claim_requests : Items → Result (List ClaimRequest)
parse_claim_requests nil = ok []
parse_claim_requests (cons v vs) = do
  c ← parse_claim_request v
  cs ← parse_claim_requests vs
  ok (c ∷ cs)

abbrev claim_requests_of : Value → Result (List ClaimRequest)
claim_requests_of (arr vs) = parse_claim_requests vs
claim_requests_of v = if truthy v then err type_error else ok []

-- what `_loadInvitation` reads
unfoldable pub parse_invitation : Object → Result Invitation
unfolding lookup get
parse_invitation invitation = do
  given ← item "link-invitation" invitation
  d ← as_dict given
  identifier ← text_at "identifier" d
  sig ← item "sig" invitation
  name ← text_at "name" d
  end_point ← text_or_none (get "endpoint" d)
  nonce ← text_at "nonce" d
  requests ← claim_requests_of (get "claim-requests" invitation)
  ok (record {
    name = name;
    identifier = identifier;
    end_point = end_point;
    nonce = nonce;
    claim_requests = requests;
  })

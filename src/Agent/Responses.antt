-- ===== src/Agent/Responses.antt =====
-- `_handleAcceptInviteResponse` of sovrin/agent/agent.py, which takes the list of claims that an
-- invitation is answered with, and `handleEndpointMessage`, which finds the handler of a message.
pub mod Guarded
pub mod Tests
use sovrin.Prelude.{
  ℕ, String, Bool, true, false, Option, none, some, List, [], ◌∷◌, ◌++◌, map, if◌then◌else◌,
  String-Eq, ℕ-Eq, Pair-Eq,
}
use sovrin.Python.Dict.{Dict, lookup, insert}
use sovrin.Python.Value.{
  Value, null, num, str, obj, arr, Object, Items, nil, cons, get, truthy, is_str,
}
use sovrin.Python.Result.{Exc, Result, ok, err, type_error, not_implemented}
use sovrin.Python.Exec.{Exec, pure, raise, lift, gets, modify, ◌>>=◌, ◌>>◌}
use sovrin.Txn.Names
use sovrin.Signing.{as_object, as_string}
use sovrin.Links.{
  Link, ClaimDefKey, AvailableClaim, update_available_claims, add_link_invitation,
  get_link_invitation_by_target,
}
use sovrin.Wallet.Items.{Identity}
use sovrin.Wallet.{Signer, Wallet, request_identity}
use sovrin.Agent.{
  Crypto, State, item, identifier_of, as_number, notify, is_verified, handle_claim_attrs,
  handle_req_claim_response,
}
use sovrin.Agent.Invitations.{
  Setting, Walleted, on_own, on_wallet, accept_invite, return_claim_attrs, event_handler,
  handle_error,
}

-- `Identity(identifier=…)`, with no role
abbrev plain_identity : String → Identity
plain_identity identifier = record {
  identifier = identifier;
  sponsor = none;
  role = none;
  last_synced = none;
  seq_no = none;
}

abbrev text_or_empty : Option String → String
text_or_empty none = ""
text_or_empty (some s) = s

abbrev names_of : List AvailableClaim → List String
names_of = map (λ (a : AvailableClaim). a.claim_def_key.0)

abbrev items_of : Value → Result Items
items_of (arr vs) = ok vs
items_of v = err type_error

-- sovrin/agent/msg_types.py
pub data MessageType : Type 0 where
  error avail_claim_list claims accept request_claim_attrs request_claim claim_attrs event :
      MessageType

abbrev pub message_type : Value → Option MessageType
message_type v =
    if is_str v "error"
    then some error
    else if is_str v "AVAIL_CLAIM_LIST"
    then some avail_claim_list
    else if is_str v "CLAIMS"
    then some claims
    else if is_str v "ACCEPT_INVITE"
    then some accept
    else if is_str v "REQUEST_CLAIM_ATTRS"
    then some request_claim_attrs
    else if is_str v "REQUEST_CLAIMS"
    then some request_claim
    else if is_str v "CLAIM_ATTRS"
    then some claim_attrs
    else if is_str v "event"
    then some event
    else none

module _ (c : Crypto) (x : Setting) (g : Signer) where
  -- one claim of the list: a claim without its definition is not supported
  abbrev take_claim : Link → Value → Exec (Walleted g) AvailableClaim
  take_claim li v = do
    cl ← lift (as_object v)
    name ← lift (item Names.name cl)
    version ← lift (item Names.version cl)
    number ← lift (item "claimDefSeqNo" cl)
    name' ← lift (as_string name)
    version' ← lift (as_string version)
    number' ← lift (as_number number)
    let key : ClaimDefKey = (name', (version', (number', text_or_empty li.remote_identifier)))
    if truthy (get "definition" cl)
        then modify (λ a. record a { claim_defs = insert key (get "definition" cl) a.claim_defs })
        else raise not_implemented
    pure (record { claim_def_key = key })

  -- the loop over the claims of the list
  unfoldable pub take_claims : Link → Items → Exec (Walleted g) (List AvailableClaim)
  unfolding insert
  take_claims li nil = pure []
  take_claims li (cons v vs) = do
    first ← take_claim li v
    rest ← take_claims li vs
    pure (first ∷ rest)

  abbrev pub accepted : List AvailableClaim → Link → Link
  accepted taken li =
      update_available_claims taken
        (record li { link_status = some "Accepted"; target_verkey = some "<same as target>" })

  abbrev ignore_request {ℓ} : {A : Type ℓ} → (Wallet g → Result A × Wallet g) → Exec (Wallet g) Unit
  ignore_request m w = let (r, w') = m w in (elim r [ ok a ↦ ok tt | err e ↦ err e ], w')

  -- `_checkIfLinkIdentifierWrittenToSovrin`: the request is prepared, and not sent
  abbrev sync_link : Link → List AvailableClaim → Exec (Walleted g) Unit
  sync_link li [] = pure tt
  sync_link li (cl ∷ cls) = do
    on_own c x g (notify (x.claims_text (names_of (cl ∷ cls))))
    sender ← gets (λ a. g.default_id a.wallet.core)
    on_wallet c x g
        (ignore_request (request_identity g (plain_identity li.local_identifier) sender))

  abbrev accept_list : Object → Link → Exec (Walleted g) Unit
  accept_list body li = do
    on_own c x g (notify (x.response_from li.name))
    on_own c x g (notify "    Signature accepted.")
    on_own c x g (notify "    Trust established.")
    about ← lift (item Names.data_key body)
    data_ ← lift (as_object about)
    on_own c x g (
        notify (
          if truthy (get "alreadyAccepted" data_)
          then "    Already accepted."
          else "    Identifier created in Sovrin."))
    held ← lift (item "availableClaimsList" data_)
    list ← lift (items_of held)
    taken ← take_claims li list
    modify (λ a. record a {
      own = record a.own { links = add_link_invitation (accepted taken li) a.own.links };
    })
    sync_link (accepted taken li) taken

  abbrev list_for : Object → Option Link → Exec (Walleted g) Unit
  list_for body none = on_own c x g (notify "No matching link found")
  list_for body (some li) = accept_list body li

  -- `_handleAcceptInviteResponse`
  unfoldable pub handle_accept_invite_response : Object → Exec (Walleted g) Unit
  unfolding is_verified take_claims update_available_claims request_identity
  handle_accept_invite_response body = do
    verified ← on_own c x g (is_verified c body)
    if verified
        then (do
          sender ← lift (identifier_of (get Names.identifier body))
          li ← gets (λ a. get_link_invitation_by_target (c.get_cryptonym sender) a.own.links)
          list_for body li)
        else pure tt

  -- `msgHandlers`; `_reqClaim` does nothing
  abbrev pub handler_of : MessageType → Object → (frm ha : String) → Exec (Walleted g) Unit
  handler_of error body frm ha = on_own c x g (handle_error c x g body)
  handler_of avail_claim_list body frm ha = handle_accept_invite_response body
  handler_of claims body frm ha = on_own c x g (handle_req_claim_response c x.now x.received body)
  handler_of accept body frm ha = accept_invite c x g body frm ha
  handler_of request_claim_attrs body frm ha = return_claim_attrs c x g body frm ha
  handler_of request_claim body frm ha = pure tt
  handler_of claim_attrs body frm ha = on_own c x g (handle_claim_attrs c x.now x.received body)
  handler_of event body frm ha = on_own c x g (event_handler c x g body)

  abbrev pub run_handler : Option MessageType → Object → (frm : String) → Exec (Walleted g) Unit
  run_handler none body frm = raise not_implemented
  run_handler (some t) body frm = do ha ← lift (x.remote_ha frm); handler_of t body frm ha

  -- `handleEndpointMessage`
  unfoldable pub handle_endpoint_message : Object → (frm : String) → Exec (Walleted g) Unit
  unfolding handle_accept_invite_response accept_invite return_claim_attrs event_handler
      handle_claim_attrs handle_req_claim_response handle_error
  handle_endpoint_message body frm = run_handler (message_type (get Names.txn_type body)) body frm

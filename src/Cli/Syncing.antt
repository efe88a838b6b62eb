-- ===== src/Cli/Syncing.antt =====
-- How the command line synchronises and accepts a link: `_getTargetEndpoint`, what is done with the
-- reply, `_sendReqToTargetEndpoint`, `_acceptLinkInvitation` and `_syncLinkInvitation`.
pub mod Accepting
pub mod Offline
pub mod Sponsored
use sovrin.Prelude.{
  cat, ℕ, String, Bool, true, false, not, Option, none, some, List, [], ◌∷◌, ◌++◌, if◌then◌else◌,
  String-Eq,
}
use sovrin.Python.Dict.{Dict, lookup, insert, contains}
use sovrin.Python.Value.{Value, null, num, str, obj, Object, get, truthy, to_dict}
use sovrin.Python.Result.{
  Result, ok, err, key_error, value_error, type_error, attribute_error, assertion, or_raise,
  raise_unless,
}
use sovrin.Python.Exec.{Exec, pure, raise, lift, gets, modify, ◌>>=◌, ◌>>◌}
use sovrin.Txn.Names
use sovrin.Links.{Link, ClaimDefKey, is_remote_endpoint_available, is_accepted, add_link_invitation}
use sovrin.Wallet.Items.{Attribute, AttributeKey, LedgerStore, has_string}
use sovrin.Wallet.{Signed, Signer, Wallet, prepare_pending, request_attribute, get_attribute}
use sovrin.Wallet.Sync.{pend_sync_requests}
use sovrin.Cli.{
  Terminal, Shell, Callback, sync_link, accept_link, nym_added, attribute_added, nym_received,
  print, print_no_link_found_msg, print_not_connected_env_message, print_connect_usage, on_wallet,
  submit_reqs, call_later, is_connected_to_any_env, print_show_and_accept_link_usage,
}
use sovrin.Cli.Choice.{get_one_link_for_further_processing}

-- `reply[DATA]`, parsed, and its end point; an end point that is no string is no end point of a
-- link here, and is refused.
abbrev pub end_point_in : Value → Result (Option String)
end_point_in null = ok none
end_point_in (str s) = ok (if has_string (some s) then some s else none)
end_point_in v = if truthy v then err type_error else ok none

abbrev as_dict : Option Value → Result Object
as_dict none = err value_error
as_dict (some (obj fs)) = ok (to_dict fs)
as_dict (some v) = err attribute_error

abbrev end_point_of : Result Object → Result (Option String)
end_point_of (err e) = err e
end_point_of (ok d) = end_point_in (get "endpoint" d)

abbrev in_text : (json_loads : String → Option Value) → Value → Result (Option String)
in_text json_loads (str s) =
    if has_string (some s) then end_point_of (as_dict (json_loads s)) else ok none
in_text json_loads v = if truthy v then err type_error else ok none

-- the end point in a reply: `DATA in reply and reply[DATA]`, `json.loads(…).get(ENDPOINT)`
unfoldable pub received_end_point :
    (json_loads : String → Option Value) → Object → Result (Option String)
unfolding get
received_end_point json_loads reply = in_text json_loads (get Names.data_key reply)

abbrev is_never : Option ℕ → Bool
is_never none = true
is_never (some t) = false

module _ {g : Signer} (x : Terminal g) where
  abbrev not_available : Link → Exec (Shell g) Link
  not_available li = if has_string li.remote_end_point then pure li else (do
    print "    Endpoint not available"
    pure (record li { remote_end_point = some "Not Available" }))

  -- a link with its new end point, and `_pingToEndpoint`
  abbrev take_end_point : Link → Option String → Exec (Shell g) Link
  take_end_point li none = pure li
  take_end_point li (some e) = do
    print (cat ("    Endpoint received: " ∷ e ∷ []))
    print (cat ("    Link " ∷ li.name ∷ " synced" ∷ []))
    print (cat ("    Pinging target endpoint: " ∷ e ∷ []))
    print "        [Not Yet Implemented]"
    pure (record li { remote_end_point = some e; link_last_synced = some x.now })

  -- `_updateLinkWithLatestInfo`
  unfoldable pub update_link_with_latest_info : Link → Object → Exec (Shell g) Link
  unfolding print received_end_point add_link_invitation
  update_link_with_latest_info li reply = do
    e ← lift (received_end_point x.json_loads reply)
    synced ← take_end_point li e
    given ← not_available synced
    modify (λ s. record s { links = add_link_invitation given s.links })
    pure given

  -- `_syncLinkPostEndPointRetrieval`
  unfoldable pub sync_link_post_end_point_retrieval :
      (post_sync : Link → Exec (Shell g) Unit)
      → Link
      → Object
      → (error : Option String) → Exec (Shell g) Unit
  unfolding print update_link_with_latest_info
  sync_link_post_end_point_retrieval post_sync li reply none = do
    li' ← update_link_with_latest_info li reply
    post_sync li'
  sync_link_post_end_point_retrieval post_sync li reply (some e) =
      print (cat ("Error occurred: " ∷ e ∷ []))

  abbrev cryptonym_of : Option String → Option String
  cryptonym_of none = none
  cryptonym_of (some i) = some (x.get_cryptonym i)

  -- the attribute whose value is asked for
  abbrev pub end_point_attribute : Link → Attribute
  end_point_attribute li = record {
    name = "endpoint";
    value = null;
    origin = none;
    dest = cryptonym_of li.remote_identifier;
    ledger_store = LedgerStore.raw;
    seq_no = none;
  }

  abbrev cannot_sync : Option String → Exec (Shell g) Unit
  cannot_sync none = do
    print "Cannot sync because not connected. Please connect first."
    print_connect_usage x
  cannot_sync (some e) =
      print "Cannot sync because not connected. Please check if Sovrin network is running."

  -- `_getTargetEndpoint`; the callback names what is done after
  unfoldable pub get_target_endpoint : Link → Callback → Exec (Shell g) Unit
  unfolding print print_connect_usage request_attribute submit_reqs call_later
  get_target_endpoint li callback = do
    connected ← gets is_connected_to_any_env
    if connected
        then (do
          print "    Synchronizing..."
          sender ← gets (λ s. g.default_id s.wallet.core)
          asked ← on_wallet (request_attribute g (end_point_attribute li) sender)
          req ← lift (or_raise attribute_error asked)
          submit_reqs (req ∷ [])
          call_later req.req_id callback)
        else (do env ← gets (λ s. s.active_env); cannot_sync env)

  -- the part of `agent` and of `WalletedAgent.__init__` that makes the agent at its first use
  abbrev new_agent : Exec (Shell g) Unit
  new_agent = do
    on_wallet (modify (pend_sync_requests g))
    prepared ← on_wallet (λ w. let (rs, w') = prepare_pending g w in (ok rs, w'))
    submit_reqs prepared
    modify (λ s. record s { agent_started = true })

  abbrev agent_of : Option String → (started : Bool) → Exec (Shell g) Bool
  agent_of none started = do print_not_connected_env_message x; pure false
  agent_of (some e) true = pure true
  agent_of (some e) false = do new_agent; pure true

  -- `agent`: whether there is one
  unfoldable pub the_agent : Exec (Shell g) Bool
  unfolding print_not_connected_env_message pend_sync_requests prepare_pending submit_reqs
  the_agent = do
    env ← gets (λ s. s.active_env)
    started ← gets (λ s. s.agent_started)
    agent_of env started

  -- `sendToAgent`: the agent sends the message as soon as it is connected to the end point
  unfoldable pub send_to_agent : Object → String × ℕ → Exec (Shell g) Unit
  unfolding the_agent
  send_to_agent msg end_point = do
    there ← the_agent
    if there
        then modify (λ s. record s { to_agents = s.to_agents ++ (msg, end_point) ∷ [] })
        else pure tt

  -- `_sendReqToTargetEndpoint`
  unfoldable pub send_req_to_target_endpoint : Object → Link → Exec (Shell g) Unit
  unfolding insert send_to_agent
  send_req_to_target_endpoint op li = do
    let named = insert Names.nonce (str li.nonce) (insert Names.identifier (str li.verkey) op)
    signature ← gets (λ s. x.sign_msg s.wallet.core named li.verkey)
    given ← lift (or_raise attribute_error li.remote_end_point)
    address ← lift (x.end_point_of given)
    send_to_agent (insert "signature" (str signature) named) address

  -- `_sendAcceptInviteToTargetEndpoint`
  unfoldable pub send_accept_invite_to_target_endpoint : Link → Exec (Shell g) Unit
  unfolding send_req_to_target_endpoint
  send_accept_invite_to_target_endpoint li =
      send_req_to_target_endpoint ((Names.typ, str "ACCEPT_INVITE") ∷ []) li

  -- `_sendReqClaimToTargetEndpoint`, which signs twice
  unfoldable pub send_req_claim_to_target_endpoint : Link → ClaimDefKey → Exec (Shell g) Unit
  unfolding send_req_to_target_endpoint insert
  send_req_claim_to_target_endpoint li key = do
    let op =
        (Names.identifier, str li.verkey)
        ∷ (Names.nonce, str li.nonce)
        ∷ (Names.typ, str "REQUEST_CLAIM_ATTRS")
        ∷ ("claimDefSeqNo", num (key.1.1.0))
        ∷ []
    signature ← gets (λ s. x.sign_msg s.wallet.core op li.verkey)
    send_req_to_target_endpoint (insert "signature" (str signature) op) li

  -- `_acceptLinkPostSync`
  unfoldable pub accept_link_post_sync : Link → Exec (Shell g) Unit
  unfolding is_remote_endpoint_available send_accept_invite_to_target_endpoint print
  accept_link_post_sync li =
      if is_remote_endpoint_available li
      then send_accept_invite_to_target_endpoint li
      else print (cat ("Remote endpoint not found, can not connect to " ∷ li.name ∷ []))

  abbrev accept_offline : Link → Exec (Shell g) Unit
  accept_offline li =
      if is_remote_endpoint_available li then send_accept_invite_to_target_endpoint li else (do
        print "Invitation acceptance aborted."
        print "Cannot sync because not connected"
        print_not_connected_env_message x)

  abbrev accept_online : Link → Exec (Shell g) Unit
  accept_online li = do print "Attempting to sync..."; get_target_endpoint li (accept_link li.name)

  -- `_acceptLinkInvitation` of the link that was found
  unfoldable pub accept_found : Link → Exec (Shell g) Unit
  unfolding is_accepted is_remote_endpoint_available send_accept_invite_to_target_endpoint print
      print_not_connected_env_message get_target_endpoint
  accept_found li =
      if is_accepted li then print (cat ("Link " ∷ li.name ∷ " is already accepted" ∷ [])) else (do
        print "Invitation not yet verified."
        if is_never li.link_last_synced then print "Link not yet synchronized." else pure tt
        connected ← gets is_connected_to_any_env
        if connected then accept_online li else accept_offline li)

  abbrev and_then : (Link → Exec (Shell g) Unit) → Option Link → Exec (Shell g) Unit
  and_then next none = pure tt
  and_then next (some li) = next li

  -- `_acceptLinkInvitation`, `_acceptInvitationLink`
  unfoldable pub accept_link_invitation : String → Exec (Shell g) Unit
  unfolding get_one_link_for_further_processing accept_found
  accept_link_invitation name = do
    found ← get_one_link_for_further_processing x name
    and_then accept_found found

  -- `_syncLinkInvitation`, `_syncLink`
  unfoldable pub sync_link_invitation : String → Exec (Shell g) Unit
  unfolding get_one_link_for_further_processing get_target_endpoint
  sync_link_invitation name = do
    found ← get_one_link_for_further_processing x name
    and_then (λ li. get_target_endpoint li (sync_link li.name)) found

-- ===== src/Agent.antt =====
-- The messages between agents of sovrin/agent/agent.py: signatures, the link that a message belongs
-- to, and the handlers of received claims; `verifySig` is in sovrin/common/util.py. A link is kept
-- under its name, as `addLinkInvitation` does, so that a change of the link is a change there.
pub mod Rejected
pub mod Listeners
pub mod Invitations
pub mod Responses
mod Tests
use sovrin.Prelude.{
  ℕ, String, Bool, true, false, Option, none, some, List, [], ◌∷◌, ◌++◌, if◌then◌else◌, String-Eq,
}
use sovrin.Python.Dict.{Dict, lookup, insert, erase}
use sovrin.Python.Value.{Value, null, bool, num, str, obj, Object, get, of_dict, truthy}
use sovrin.Python.Result.{Result, ok, err, key_error, type_error, attribute_error, or_raise}
use sovrin.Python.Exec.{Exec, pure, lift, gets, modify, ◌>>=◌, ◌>>◌}
use sovrin.Txn.Names
use sovrin.Signing.{as_object, as_string}
use sovrin.Links.{
  Link, Links, ReceivedClaim, new_received_claim, update_date_of_issue, update_received_claims,
  add_link_invitation, get_link_by_nonce, get_link_invitation_by_target,
}

-- Functions of plenum, and the wallet's signature of a message.
pub record Crypto : Type 0 where
  pub is_hex : String → Bool
  pub cryptonym_to_hex : String → String
  pub get_cryptonym : String → String
  pub serialize : Object → String
  pub verify : (key signature text : String) → Result Bool
  pub sign_msg : Object → (identifier : Value) → String
  pub default_id : Value

abbrev pub signature : String
signature = "signature"

-- What an agent keeps: the links of its wallet, the messages sent and the notices to observers.
pub record State : Type 0 where
  pub links : Links
  pub sent : List (String × Object)
  pub notices : List String

abbrev pub item : String → Object → Result Value
item k d = or_raise key_error (lookup k d)

abbrev pub identifier_of : Value → Result String
identifier_of (str s) = ok s
identifier_of v = err type_error

abbrev pub as_number : Value → Result ℕ
as_number (num n) = ok n
as_number v = err type_error

abbrev pub notify : String → Exec State Unit
notify n = modify (λ s. record s { notices = s.notices ++ n ∷ [] })

-- `getCommonMsg` and the messages built from it
abbrev pub get_common_msg : String → Value → Object
get_common_msg type content = (Names.txn_type, str type) ∷ (Names.data_key, content) ∷ []

abbrev accepted_entry : Bool → Object
accepted_entry already = if already then ("alreadyAccepted", bool true) ∷ [] else []

unfoldable pub create_avail_claim_list_msg :
    (claim_lists : Value) → (already_accepted : Bool) → Object
create_avail_claim_list_msg claim_lists already =
    get_common_msg "AVAIL_CLAIM_LIST"
      (obj (of_dict (("availableClaimsList", claim_lists) ∷ accepted_entry already)))

unfoldable pub create_claims_attrs_msg : (claim : Value) → Object
create_claims_attrs_msg claim = get_common_msg "CLAIM_ATTRS" claim

unfoldable pub create_claims_msg : (claim : Value) → Object
create_claims_msg claim = get_common_msg "CLAIMS" (obj (of_dict (("claims", claim) ∷ [])))

module _ (c : Crypto) where
  abbrev hex_of : String → String
  hex_of identifier = if c.is_hex identifier then identifier else c.cryptonym_to_hex identifier

  abbrev verify_with : Result String → Result String → String → Result Bool
  verify_with (err e) sig text = err e
  verify_with (ok key) (err e) text = err e
  verify_with (ok key) (ok sig) text = c.verify (hex_of key) sig text

  -- `verifySig`
  unfoldable pub verify_sig : (identifier sig : Value) → Object → Result Bool
  verify_sig identifier sig msg =
      verify_with (identifier_of identifier) (as_string sig) (c.serialize msg)

  abbrev hex_key : Value → Value
  hex_key (str s) = str (hex_of s)
  hex_key v = v

  abbrev note_rejected : Bool → Exec State Unit
  note_rejected verified = if verified then pure tt else notify "Signature rejected"

  -- `_isVerified`: the signature of the message without it
  unfoldable pub is_verified : Object → Exec State Bool
  unfolding erase
  is_verified body = do
    verified ← lift (
        verify_sig (hex_key (get Names.identifier body)) (get signature body)
          (erase signature body))
    note_rejected verified
    pure verified

  -- `signAndSendToCaller`
  unfoldable pub sign_and_send_to_caller : Object → (identifier : Value) → String → Exec State Unit
  unfolding insert
  sign_and_send_to_caller resp identifier to =
      let named = insert Names.identifier identifier resp in
      let signed = insert signature (str (c.sign_msg named identifier)) named in
      modify (λ s. record s { sent = s.sent ++ (to, signed) ∷ [] })

  abbrev pub get_error_response : Object → String → Object
  get_error_response body text =
      (Names.txn_type, str "error")
      ∷ (Names.data_key, str text)
      ∷ ("REQ_MSG", obj (of_dict body))
      ∷ []

  -- `logAndSendErrorResp`
  abbrev pub send_error_resp : String → Object → String → Exec State Unit
  send_error_resp to body text =
      sign_and_send_to_caller (get_error_response body text) c.default_id to

  abbrev pub link_of : Value → Links → Option Link
  link_of (str nonce) links = get_link_by_nonce nonce links
  link_of v links = none

  abbrev opt_of : Value → Option String
  opt_of (str s) = some s
  opt_of v = none

  abbrev answer_link :
      (verified : Bool) → Object → (frm ha : String) → Option Link → Exec State (Option Link)
  answer_link false body frm ha li = do send_error_resp frm body "Signature Rejected"; pure none
  answer_link true body frm ha none = do send_error_resp frm body "No Such Link found"; pure none
  answer_link true body frm ha (some li) = do
    let li' = record li {
      remote_identifier = opt_of (get Names.identifier body);
      remote_end_point = some ha;
    }
    modify (λ s. record s { links = add_link_invitation li' s.links })
    pure (some li')

  -- `verifyAndGetLink` of a body from `frm`, whose address is `ha`
  unfoldable pub verify_and_get_link : Object → (frm ha : String) → Exec State (Option Link)
  unfolding sign_and_send_to_caller
  verify_and_get_link body frm ha = do
    verified ← lift (verify_sig (get Names.identifier body) (get signature body) body)
    li ← gets (λ s. link_of (get Names.nonce body) s.links)
    answer_link verified body frm ha li

  -- the link of the sender, and the claim that its message holds
  abbrev keep_claim : (now : String) → (identifier : Value) → Object → Exec State Unit
  keep_claim now identifier claim = do
    sender ← lift (identifier_of identifier)
    found ← gets (λ s. get_link_invitation_by_target (c.get_cryptonym sender) s.links)
    elim found [
      | none ↦ notify "No matching link found"
      | some li ↦ (do
        name ← lift (item Names.name claim)
        version ← lift (item Names.version claim)
        seq_no ← lift (item "claimDefSeqNo" claim)
        author ← lift (item Names.identifier claim)
        attributes ← lift (item "attributes" claim)
        name' ← lift (as_string name)
        version' ← lift (as_string version)
        seq_no' ← lift (as_number seq_no)
        author' ← lift (as_string author)
        attributes' ← lift (as_object attributes)
        let rc =
            update_date_of_issue now
              (new_received_claim (name', (version', (seq_no', author'))) [] attributes')
        modify (λ s. record s {
          links = add_link_invitation (update_received_claims (rc ∷ []) li) s.links;
        }))
    ]

  -- `"Received {}.".format(claim[NAME])`; `received` is the format
  abbrev note_claim : (received : Value → String) → Object → Exec State Unit
  note_claim received claim = do name ← lift (item Names.name claim); notify (received name)

  -- `_handleClaimAttrs`
  unfoldable pub handle_claim_attrs :
      (now : String) → (received : Value → String) → Object → Exec State Unit
  unfolding is_verified
  handle_claim_attrs now received body = do
    verified ← is_verified body
    if verified
        then (do
          notify "Signature accepted."
          data_ ← lift (item Names.data_key body)
          claim ← lift (as_object data_)
          note_claim received claim
          keep_claim now (get Names.identifier body) claim)
        else pure tt

  -- `_handleReqClaimResponse`, which differs in where the claim is
  unfoldable pub handle_req_claim_response :
      (now : String) → (received : Value → String) → Object → Exec State Unit
  unfolding is_verified
  handle_req_claim_response now received body = do
    verified ← is_verified body
    if verified
        then (do
          notify "Signature accepted."
          data_ ← lift (item Names.data_key body)
          held ← lift (as_object data_)
          claims ← lift (item "claims" held)
          claim ← lift (as_object claims)
          note_claim received claim
          keep_claim now (get Names.identifier body) claim)
        else pure tt

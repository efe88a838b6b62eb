-- ===== src/Agent/Responses/Guarded.antt =====
-- What an agent does with a message whose signature is not verified, whatever its type.
use sovrin.Prelude.{String, ◌≡◌, refl, false, Option, none, some, Option-cases, inl, inr, String-Eq}
use sovrin.Python.Dict.{erase, lookup}
use sovrin.Python.Value.{Object, get}
use sovrin.Python.Result.{Result, ok, err}
use sovrin.Python.Exec.{lift, ◌>>=◌}
use sovrin.Txn.Names
use sovrin.Wallet.{Signer}
use sovrin.Agent.{
  Crypto, signature, hex_key, verify_sig, is_verified, verify_and_get_link, handle_claim_attrs,
  handle_req_claim_response,
}
use sovrin.Agent.Invitations.{
  Setting, Walleted, accept_invite, return_claim_attrs, event_handler, handle_error, on_own,
}
use sovrin.Agent.Responses.{
  handle_accept_invite_response, handle_endpoint_message, handler_of, run_handler, message_type,
  MessageType, error, avail_claim_list, claims, accept, request_claim_attrs, request_claim,
  claim_attrs, event,
}

module _ (c : Crypto) (x : Setting) (g : Signer) where
  -- The agents agree on everything but the messages sent and the notices.
  pub record Guarded (a b : Walleted g) : Type 0 where
    pub wallet : b.wallet ≡ a.wallet
    pub links : b.own.links ≡ a.own.links
    pub submitted : b.submitted ≡ a.submitted
    pub claim_defs : b.claim_defs ≡ a.claim_defs
    pub waiting : b.waiting ≡ a.waiting

  unchanged : (a : Walleted g) → Guarded a a
  unchanged a = record {
    wallet = refl;
    links = refl;
    submitted = refl;
    claim_defs = refl;
    waiting = refl;
  }

  module _ (body : Object) (a : Walleted g)
      (whole : verify_sig c (get Names.identifier body) (get signature body) body ≡ ok false)
      (unsigned : verify_sig c
          (hex_key c (get Names.identifier body))
          (get signature body)
          (erase signature body)
        ≡ ok false) where
    accept_invite-Guarded : (frm ha : String) → Guarded a (accept_invite c x g body frm ha a).1
    unfolding accept_invite verify_and_get_link
    accept_invite-Guarded frm ha = rw whole (record {
      wallet = refl;
      links = refl;
      submitted = refl;
      claim_defs = refl;
      waiting = refl;
    })

    return_claim_attrs-Guarded :
        (frm ha : String) → Guarded a (return_claim_attrs c x g body frm ha a).1
    unfolding return_claim_attrs verify_and_get_link
    return_claim_attrs-Guarded frm ha = rw whole (record {
      wallet = refl;
      links = refl;
      submitted = refl;
      claim_defs = refl;
      waiting = refl;
    })

    event_handler-Guarded : Guarded a (on_own c x g (event_handler c x g body) a).1
    unfolding event_handler is_verified
    event_handler-Guarded = rw unsigned (record {
      wallet = refl;
      links = refl;
      submitted = refl;
      claim_defs = refl;
      waiting = refl;
    })

    claims-Guarded :
        Guarded a (on_own c x g (handle_claim_attrs c x.now x.received body) a).1
        × Guarded a (on_own c x g (handle_req_claim_response c x.now x.received body) a).1
    unfolding handle_claim_attrs handle_req_claim_response is_verified
    claims-Guarded = rw unsigned (
      record { wallet = refl; links = refl; submitted = refl; claim_defs = refl; waiting = refl },
      record { wallet = refl; links = refl; submitted = refl; claim_defs = refl; waiting = refl },
    )

    response-Guarded : Guarded a (handle_accept_invite_response c x g body a).1
    unfolding handle_accept_invite_response is_verified
    response-Guarded = rw unsigned (record {
      wallet = refl;
      links = refl;
      submitted = refl;
      claim_defs = refl;
      waiting = refl;
    })

    error-Guarded : Guarded a (on_own c x g (handle_error c x g body) a).1
    unfolding handle_error
    error-Guarded = elim (Option-cases (lookup Names.data_key body)) [
      | inl missing ↦ rw missing (record {
        wallet = refl;
        links = refl;
        submitted = refl;
        claim_defs = refl;
        waiting = refl;
      })
      | inr (about, there) ↦ elim (Option-cases (lookup "REQ_MSG" body)) [
        | inl missing ↦
            rw (there, missing)
              (record {
                wallet = refl;
                links = refl;
                submitted = refl;
                claim_defs = refl;
                waiting = refl;
              })
        | inr (msg, held) ↦
            rw (there, held)
              (record {
                wallet = refl;
                links = refl;
                submitted = refl;
                claim_defs = refl;
                waiting = refl;
              })
      ]
    ]

    handler-Guarded :
        (t : MessageType) (frm ha : String) → Guarded a (handler_of c x g t body frm ha a).1
    handler-Guarded error frm ha = error-Guarded
    handler-Guarded avail_claim_list frm ha = response-Guarded
    handler-Guarded claims frm ha = claims-Guarded.1
    handler-Guarded accept frm ha = accept_invite-Guarded frm ha
    handler-Guarded request_claim_attrs frm ha = return_claim_attrs-Guarded frm ha
    handler-Guarded request_claim frm ha = unchanged a
    handler-Guarded claim_attrs frm ha = claims-Guarded.0
    handler-Guarded event frm ha = event_handler-Guarded

    run-Guarded :
        (t : Option MessageType) (frm : String) → Guarded a (run_handler c x g t body frm a).1
    run-Guarded none frm = unchanged a
    run-Guarded (some t) frm = at_address (x.remote_ha frm)
      where
        at_address :
            (r : Result String) → Guarded a ((lift r >>= λ ha. handler_of c x g t body frm ha) a).1
        at_address (ok ha) = handler-Guarded t frm ha
        at_address (err e) = unchanged a

    -- A message of any type whose signature is not verified, with itself or without, changes neither
    -- the wallet nor the links nor the definitions of claims, submits no request and makes nobody
    -- wait for one.
    pub handle_endpoint_message-Guarded :
        (frm : String) → Guarded a (handle_endpoint_message c x g body frm a).1
    unfolding handle_endpoint_message
    handle_endpoint_message-Guarded frm = run-Guarded (message_type (get Names.txn_type body)) frm

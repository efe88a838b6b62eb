-- ===== src/Cli/Syncing/Accepting.antt =====
-- What becomes of the command that accepts an invitation, with and without a connection.
use sovrin.Prelude.{
  ℕ, String, ◌≡◌, refl, true, false, Option, some, none, List, [], ◌∷◌, ◌++◌, String-Eq, ◌==◌, inl,
  inr, Bool-cases, ap, ◌∙◌,
}
use sovrin.Python.Dict.{lookup, insert, update, lookup-insert_self}
use sovrin.Python.Value.{str, Object}
use sovrin.Python.Result.{ok}
use sovrin.Python.Exec.{◌>>◌}
use sovrin.Txn.Names
use sovrin.Links.{Link, is_accepted, is_remote_endpoint_available, add_link_invitation}
use sovrin.Wallet.{
  Signer, request_attribute, prep_req, prepare_pending, pend_request, sign_all, sort_by_req_id,
  insert_by_req_id,
}
use sovrin.Wallet.Items.{Draft, opt_str, attribute_get_request}
use sovrin.Cli.{Terminal, Shell, Callback, print, accept_link, submit_reqs, call_later}
use sovrin.Cli.Callbacks.{next_call, ensure_req_completed, run_callback}
use sovrin.Cli.Syncing.{
  is_never, received_end_point, end_point_attribute, accept_found, get_target_endpoint,
  sync_link_post_end_point_retrieval, update_link_with_latest_info, accept_link_post_sync,
  send_accept_invite_to_target_endpoint, send_req_to_target_endpoint, send_to_agent, the_agent,
}

abbrev Sent : Type 0
Sent = Object × (String × ℕ)

module _ {g : Signer} (x : Terminal g) where
  -- the message of an invited link, without and with its signature
  abbrev pub acceptance : Link → Object
  acceptance li =
      (Names.typ, str "ACCEPT_INVITE")
      ∷ (Names.identifier, str li.verkey)
      ∷ (Names.nonce, str li.nonce)
      ∷ []

  abbrev pub signed_acceptance : g.Core → Link → Object
  signed_acceptance c li =
      acceptance li ++ ("signature", str (x.sign_msg c (acceptance li) li.verkey)) ∷ []

  -- a link that has the end point of a reply
  abbrev pub synced : String → Link → Link
  synced e li = record li { remote_end_point = some e; link_last_synced = some x.now }

  send_accept_invite-sent :
      (li : Link) (e env : String) (address : String × ℕ) (s : Shell g) (n : String)
      (found : Option Link)
      → lookup n s.links ≡ found
      → li.remote_end_point ≡ some e
      → x.end_point_of e ≡ ok address
      → s.active_env ≡ some env
      → let (r, s') = send_accept_invite_to_target_endpoint x li s in
        (r ≡ ok tt)
        × (s'.to_agents ≡ s.to_agents ++ (signed_acceptance s.wallet.core li, address) ∷ [])
        × (s'.waiting ≡ s.waiting)
        × (lookup n s'.links ≡ found)
  unfolding send_accept_invite_to_target_endpoint send_req_to_target_endpoint send_to_agent
      the_agent insert submit_reqs
  send_accept_invite-sent li e env address s n found kept given parsed active =
      rw (given, parsed, active)
        (elim (Bool-cases s.agent_started) [
          | inl h ↦ rw h (refl, refl, refl, kept)
          | inr h ↦ rw h (refl, refl, refl, kept)
        ])

  -- the callback of an acceptance, on a reply that has an end point
  run_callback-accepted :
      (li : Link) (e env : String) (address : String × ℕ) (reply : Object) (s : Shell g)
      → lookup li.name s.links ≡ some li
      → received_end_point x.json_loads reply ≡ ok (some e)
      → (e == "") ≡ false
      → (e == "Not Available") ≡ false
      → x.end_point_of e ≡ ok address
      → s.active_env ≡ some env
      → let (r, s') = run_callback x (accept_link li.name) reply none s in
        (r ≡ ok tt)
        × (s'.to_agents
            ≡ s.to_agents ++ (signed_acceptance s.wallet.core (synced e li), address) ∷ [])
        × (s'.waiting ≡ s.waiting)
        × (lookup li.name s'.links ≡ some (synced e li))
  unfolding run_callback sync_link_post_end_point_retrieval update_link_with_latest_info print
      accept_link_post_sync is_remote_endpoint_available add_link_invitation
  run_callback-accepted li e env address reply s kept has given available parsed active = rw kept (
      rw has (
        rw given (
          rw (given, available)
            (send_accept_invite-sent (synced e li) e env address _ li.name _
              (lookup-insert_self li.name (synced e li) s.links) refl parsed active))))

  -- the request of `_getTargetEndpoint`
  abbrev pub end_point_draft : g.Core → Link → Draft
  end_point_draft c li = record {
    identifier = g.default_id c;
    operation =
        (Names.target_nym, opt_str (end_point_attribute x li).dest)
        ∷ (Names.txn_type, str Names.get_attr)
        ∷ (Names.raw, str "endpoint")
        ∷ [];
  }

  -- a connected command line asks the network for the end point first
  accept_found-asks :
      (li : Link) (env : String) (s : Shell g)
      → is_accepted li ≡ false
      → s.active_env ≡ some env
      → s.connected ≡ true
      → s.wallet.pending ≡ []
      → s.waiting ≡ []
      → let q = (g.sign_request s.wallet.core (end_point_draft s.wallet.core li)).0 in
        let (r, s') = accept_found x li s in
        (r ≡ ok tt)
        × (s'.submitted ≡ s.submitted ++ q ∷ [])
        × (s'.waiting ≡ (q.req_id, accept_link li.name) ∷ [])
        × (s'.links ≡ s.links)
        × (s'.to_agents ≡ s.to_agents)
        × (s'.active_env ≡ s.active_env)
        × (s'.wallet.core ≡ (g.sign_request s.wallet.core (end_point_draft s.wallet.core li)).1)
  unfolding accept_found get_target_endpoint request_attribute attribute_get_request prep_req
      pend_request prepare_pending sign_all sort_by_req_id insert_by_req_id insert update
      submit_reqs call_later print
  accept_found-asks li env s fresh active connected idle none_waits =
      rw (fresh, active, connected)
        (elim (Bool-cases (is_never li.link_last_synced)) [
          | inl h ↦ rw (h, idle, none_waits) (refl, refl, refl, refl, refl, refl, refl)
          | inr h ↦ rw (h, idle, none_waits) (refl, refl, refl, refl, refl, refl, refl)
        ])

  next_call-only :
      (replies : ℕ → Option Object × Option String) (n : ℕ) (callback : Callback) (reply : Object)
      (s : Shell g)
      → s.waiting ≡ (n, callback) ∷ []
      → replies n ≡ (some reply, none)
      → next_call x replies s ≡ run_callback x callback reply none (record s { waiting = [] })
  unfolding next_call ensure_req_completed
  next_call-only replies n callback reply s waits answered = rw waits (rw answered refl)

  -- When a connected command line, for which no request is pending or waited for, accepts the
  -- invitation of a link of its keyring that is not accepted yet, and the network answers with an end
  -- point that is an address, then the link gets the end point and the time, and the one new message
  -- for an agent is the signed acceptance with the nonce of the link, to that address. Nothing is
  -- waited for then.
  pub accept_found-completed :
      (li : Link) (env : String) (s : Shell g)
      → is_accepted li ≡ false
      → s.active_env ≡ some env
      → s.connected ≡ true
      → s.wallet.pending ≡ []
      → s.waiting ≡ []
      → lookup li.name s.links ≡ some li
      → (e : String) (address : String × ℕ) (reply : Object)
        (replies : ℕ → Option Object × Option String)
      → received_end_point x.json_loads reply ≡ ok (some e)
      → (e == "") ≡ false
      → (e == "Not Available") ≡ false
      → x.end_point_of e ≡ ok address
      → let (q, core) = g.sign_request s.wallet.core (end_point_draft s.wallet.core li) in
        replies q.req_id ≡ (some reply, none)
        → let (r, s') = (accept_found x li >> next_call x replies) s in
          (r ≡ ok tt)
          × (s'.to_agents ≡ s.to_agents ++ (signed_acceptance core (synced e li), address) ∷ [])
          × (s'.waiting ≡ [])
          × (lookup li.name s'.links ≡ some (synced e li))
  accept_found-completed li env s fresh active connected idle none_waits kept e address reply
        replies has given available parsed answered =
      let asks = accept_found-asks li env s fresh active connected idle none_waits in
      let q = (g.sign_request s.wallet.core (end_point_draft s.wallet.core li)).0 in
      let s1 : Shell g = (accept_found x li s).1 in
      let ready : Shell g = record s1 { waiting = [] } in
      let done =
        run_callback-accepted li e env address reply ready (rw (asks.3) kept) has given available
          parsed (rw (asks.5) active) in
      rw asks.0 (
        rw (next_call-only replies q.req_id (accept_link li.name) reply s1 asks.2 answered) (
          done.0,
          done.1
              ∙ ap
                  (λ (t : List Sent).
                    t ++ (signed_acceptance s1.wallet.core (synced e li), address) ∷ [])
                  asks.4
              ∙ ap
                  (λ (c : g.Core). s.to_agents ++ (signed_acceptance c (synced e li), address) ∷ [])
                  asks.6,
          done.2,
          done.3,
        ))

-- ===== src/Agent/Rejected.antt =====
-- What an agent does with a message whose signature is not verified.
use sovrin.Prelude.{String, ◌≡◌, refl, false, none, [], ◌∷◌, ◌++◌, String-Eq}
use sovrin.Python.Dict.{erase}
use sovrin.Python.Value.{Value, Object, get}
use sovrin.Python.Result.{ok}
use sovrin.Txn.Names
use sovrin.Agent.{
  Crypto, State, signature, hex_key, verify_sig, is_verified, verify_and_get_link,
  handle_claim_attrs, handle_req_claim_response,
}

module _ (c : Crypto) (body : Object) (s : State) where
  -- A message whose signature is not verified gets no link, and the agent answers its sender with
  -- one message and changes nothing else.
  pub verify_and_get_link-unverified :
      (frm ha : String)
      → verify_sig c (get Names.identifier body) (get signature body) body ≡ ok false
      → let (r, s') = verify_and_get_link c body frm ha s in
        (r ≡ ok none)
        × (s'.links ≡ s.links)
        × (s'.notices ≡ s.notices)
        × ((m : Object) × (s'.sent ≡ s.sent ++ (frm, m) ∷ []))
  unfolding verify_and_get_link
  verify_and_get_link-unverified frm ha rejected = rw rejected (refl, refl, refl, (_, refl))

  -- A message with a claim whose signature is not verified changes no link and sends nothing, and
  -- the observers learn that it was rejected.
  pub claims-unverified :
      (now : String) (received : Value → String)
      → verify_sig c
          (hex_key c (get Names.identifier body))
          (get signature body)
          (erase signature body)
        ≡ ok false
      → let rejected = record s { notices = s.notices ++ "Signature rejected" ∷ [] } in
        (handle_claim_attrs c now received body s ≡ (ok tt, rejected))
        × (handle_req_claim_response c now received body s ≡ (ok tt, rejected))
  unfolding handle_claim_attrs handle_req_claim_response is_verified
  claims-unverified now received rejected = rw rejected (refl, refl)

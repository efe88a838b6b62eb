-- ===== src/Cli/ClaimRequests.antt =====
-- The commands on claim requests: `_getOneLinkAndClaimReq`, `_setAttr`, `_showClaimReq` and
-- `_showMatchingClaimProof`. A name is given without its quotes.
pub mod Shown
use sovrin.Prelude.{
  cat, ℕ, String, Bool, true, false, Option, none, some, List, [], ◌∷◌, ◌++◌, map, if◌then◌else◌,
  String-Eq, ◌==◌, ℕ-Eq, Pair-Eq,
}
use sovrin.Python.Dict.{Dict, lookup, insert}
use sovrin.Python.Value.{Value, str, Object, get, or_else}
use sovrin.Python.Result.{Result, type_error, key_error, or_raise}
use sovrin.Python.Exec.{Exec, pure, lift, gets, modify, ◌>>=◌, ◌>>◌}
use sovrin.Links.{
  Link, Links, ClaimRequest, ReceivedClaim, mem, name_of, get_matching_links_with_claim_req,
  get_maching_rcvd_claims,
}
use sovrin.Links.Printing.{claim_request_str}
use sovrin.Wallet.{Signer}
use sovrin.Wallet.Handlers.{as_text}
use sovrin.Cli.{Terminal, Shell, print, print_usage, show_claim_req_usage}
use sovrin.Cli.Claims.{get_one}

abbrev pub Match : Type 0
Match = Link × (ReceivedClaim × List String)

-- the inner loop of `_showMatchingClaimProof`: each match sets the value again
unfoldable pub assign_from : String → Value → List Match → Object → Object
unfolding insert get
assign_from k v [] values = values
assign_from k v ((li, (rc, common)) ∷ ms) values =
    assign_from k v ms
      (insert k (if mem k common then get k rc.values else or_else v (str "")) values)

-- the outer loop, over the attributes of the request
unfoldable pub attributes_with_value : Object → List Match → Object → Object
unfolding assign_from
attributes_with_value [] ms values = values
attributes_with_value ((k, v) ∷ attributes) ms values =
    attributes_with_value attributes ms (assign_from k v ms values)

abbrev on_named : String → (ClaimRequest → ClaimRequest) → List ClaimRequest → List ClaimRequest
on_named name f requests = map (λ (c : ClaimRequest). if c.name == name then f c else c) requests

-- A change of the claim request that a link holds under a name. The commands name it so that no
-- other request of the link has the name.
unfoldable pub change_request :
    (link_name name : String) → (ClaimRequest → ClaimRequest) → Links → Links
change_request link_name name f links =
    map
      (λ (e : String × Link). (
        e.0,
        if e.0 == link_name
            then record e.1 { claim_requests = on_named name f e.1.claim_requests }
            else e.1,
      ))
      links

abbrev no_claim_req_found : String
no_claim_req_found = "No matching claim request(s) found in current keyring"

module _ {g : Signer} (x : Terminal g) where
  -- `_getOneLinkAndClaimReq`
  unfoldable pub get_one_link_and_claim_req : String → Exec (Shell g) (Option (Link × ClaimRequest))
  unfolding get_one get_matching_links_with_claim_req
  get_one_link_and_claim_req name = do
    ms ← gets (λ s. get_matching_links_with_claim_req x.lower x.is_in name s.links)
    get_one no_claim_req_found true name ms

  abbrev set_in : String → String → Option (String × String) → Exec (Shell g) Unit
  set_in attr_name attr_value none = do
    print "No context, use below command to set the context"
    print_usage (show_claim_req_usage ∷ [])
  set_in attr_name attr_value (some (link_name, name)) = modify (λ s. record s {
    links =
        change_request link_name name
          (λ c. record c { attributes = insert attr_name (str attr_value) c.attributes }) s.links;
  })

  -- `_setAttr`
  unfoldable pub set_attr : (attr_name attr_value : String) → Exec (Shell g) Unit
  unfolding print print_usage change_request insert
  set_attr attr_name attr_value = do
    context ← gets (λ s. s.context)
    set_in attr_name attr_value context

  -- the lines of a claim proof; a value that is no string cannot be put behind its name
  abbrev print_values : Object → Exec (Shell g) Unit
  print_values [] = pure tt
  print_values ((k, v) ∷ values) = do
    text ← lift (or_raise type_error (as_text g v))
    print (cat ("        " ∷ k ∷ ": " ∷ text ∷ " (verifiable)" ∷ []))
    print_values values

  abbrev print_proofs : List Match → Exec (Shell g) Unit
  print_proofs [] = pure tt
  print_proofs ((li, (rc, common)) ∷ ms) = do
    print (
        cat (
          "\n      Claim proof ("
          ∷ name_of rc.def_key
          ∷ " v"
          ∷ rc.def_key.1.0
          ∷ " from "
          ∷ li.name
          ∷ ")"
          ∷ []))
    print_values rc.values
    print_proofs ms

  -- `_showMatchingClaimProof`, of a request of a link
  unfoldable pub show_matching_claim_proof : Link → ClaimRequest → Exec (Shell g) Unit
  unfolding claim_request_str get_maching_rcvd_claims attributes_with_value change_request print
  show_matching_claim_proof li request = do
    ms ← gets (λ s. get_maching_rcvd_claims request.attributes s.links)
    let values = attributes_with_value request.attributes ms []
    modify (λ s. record s {
      links = change_request li.name request.name (λ c. record c { attributes = values }) s.links;
    })
    print (claim_request_str x.printer (record request { attributes = values }))
    print_proofs ms

  abbrev show_found : Option (Link × ClaimRequest) → Exec (Shell g) Unit
  show_found none = pure tt
  show_found (some (li, request)) = do
    modify (λ s. record s { context = some (li.name, request.name) })
    print (cat ("Found claim request \"" ∷ request.name ∷ "\" in link \"" ∷ li.name ∷ "\"" ∷ []))
    show_matching_claim_proof li request

  -- `_showClaimReq`
  unfoldable pub show_claim_req : String → Exec (Shell g) Unit
  unfolding get_one_link_and_claim_req show_matching_claim_proof print
  show_claim_req name = do found ← get_one_link_and_claim_req name; show_found found

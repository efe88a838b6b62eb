-- ===== src/Links/Printing.antt =====
-- The texts of links and claims: `Link.__str__` of sovrin/client/wallet/link.py, and `__str__`,
-- `getAttributeValue` and `getClaimDefInfoStr` of sovrin/client/wallet/claim.py.
use sovrin.Prelude.{
  ℕ, String, not, Option, none, some, List, [], ◌∷◌, map, if◌then◌else◌, String-Eq, ◌==◌, ◌&&◌, cat,
}
use Prim.Native.String.{◌++◌ as append}
use sovrin.Python.Dict.{lookup, values}
use sovrin.Python.Value.{Value, obj, Object, to_dict}
use sovrin.Python.Result.{Result, ok, err, type_error, key_error, or_raise, ◌>>=◌}
use sovrin.Links.{
  Link, ClaimRequest, AvailableClaim, ReceivedClaim, Phrase, not_synchronized, nothing, just_now,
  a_minute_ago, an_hour_ago, yesterday, seconds_ago, minutes_ago, hours_ago, days_ago, Elapsed,
  pretty_date, is_accepted, name_of,
}

-- `str` of a number and of a value, `join` and `splitlines`, and the time that has passed since a time
pub record Printer : Type 0 where
  pub to_str : ℕ → String
  pub value_text : Value → String
  pub join : (separator : String) → List String → String
  pub split_lines : String → List String
  pub elapsed : Option ℕ → Elapsed

abbrev not_yet_synchronized : String
not_yet_synchronized = "<this link has not yet been synchronized>"

abbrev waiting_for_sync : String
waiting_for_sync = "<unknown, waiting for sync>"

abbrev or_given : String → Option String → String
or_given other none = other
or_given other (some s) = if s == "" then other else s

-- the texts of `prettyDate`
abbrev phrase_text : (ℕ → String) → Phrase → String
phrase_text to_str not_synchronized = not_yet_synchronized
phrase_text to_str nothing = ""
phrase_text to_str just_now = "just now"
phrase_text to_str a_minute_ago = "a minute ago"
phrase_text to_str an_hour_ago = "an hour ago"
phrase_text to_str yesterday = "Yesterday"
phrase_text to_str (seconds_ago n) = cat (to_str n ∷ " seconds ago" ∷ [])
phrase_text to_str (minutes_ago n) = cat (to_str n ∷ " minutes ago" ∷ [])
phrase_text to_str (hours_ago n) = cat (to_str n ∷ " hours ago" ∷ [])
phrase_text to_str (days_ago n) = cat (to_str n ∷ " days ago" ∷ [])

module _ (x : Printer) where
  abbrev end_point_text : (synced : String) → Option String → String
  end_point_text synced e =
      let given = or_given waiting_for_sync e in
      if not (synced == not_yet_synchronized) && given == waiting_for_sync
      then "Not Available"
      else given

  abbrev fixed_items : Link → (synced : String) → String
  fixed_items li synced =
      let accepted = is_accepted li in
      cat (
        "\nName: "
        ∷ li.name
        ∷ "\nIdentifier: "
        ∷ li.local_identifier
        ∷ "\nTrust anchor: "
        ∷ or_given "" li.trust_anchor
        ∷ (if accepted then " (confirmed)" else " (not yet written to Sovrin)")
        ∷ "\nVerification key: <same as local identifier>\nSigning key: <hidden>\nTarget: "
        ∷ or_given waiting_for_sync li.remote_identifier
        ∷ "\nTarget Verification key: "
        ∷ (if accepted then "<same as target>" else waiting_for_sync)
        ∷ "\nTarget endpoint: "
        ∷ end_point_text synced li.remote_end_point
        ∷ "\nInvitation nonce: "
        ∷ li.nonce
        ∷ "\nInvitation status: "
        ∷ (if accepted then "Accepted" else "not verified, target verkey unknown")
        ∷ "\nLast synced: "
        ∷ synced
        ∷ "\n"
        ∷ [])

  abbrev listed : String → List String → String
  listed heading [] = ""
  listed heading (n ∷ ns) = append heading (x.join "," (n ∷ ns))

  abbrev optional_items : Link → String
  optional_items li = cat (
      listed "Claim Requests: " (map (λ (c : ClaimRequest). c.name) li.claim_requests)
      ∷ listed "Available claims: "
          (map (λ (c : AvailableClaim). name_of c.claim_def_key) (values li.available_claims))
      ∷ (if or_given "" li.link_last_sync_no == ""
          then ""
          else append "Last sync seq no: " (or_given "" li.link_last_sync_no))
      ∷ [])

  -- `Link.__str__`: a text cannot be put together with the None of `prettyDate`
  unfoldable pub link_str : Link → Result String
  unfolding pretty_date is_accepted
  link_str li = do
    phrase ← or_raise type_error (pretty_date (x.elapsed li.link_last_synced))
    let synced = phrase_text x.to_str phrase
    let items = append (fixed_items li synced) (optional_items li)
    ok (
        cat (
          "Link "
          ∷ (if is_accepted li then "" else "(not yet accepted)")
          ∷ x.join "\n\t" (x.split_lines items)
          ∷ []))

  -- `getAttributeValue`
  abbrev attribute_lines : Object → String
  attribute_lines d =
      x.join "\n      " (map (λ (e : String × Value). cat (e.0 ∷ ": " ∷ x.value_text e.1 ∷ [])) d)

  -- `ClaimRequest.__str__`
  unfoldable pub claim_request_str : ClaimRequest → String
  claim_request_str c = cat (
      "Name: "
      ∷ c.name
      ∷ "\nVersion: "
      ∷ c.version
      ∷ "\nStatus: Requested\nAttributes:\n      "
      ∷ attribute_lines c.attributes
      ∷ [])

  -- `AvailableClaimData.__str__`
  unfoldable pub available_claim_str : AvailableClaim → String
  available_claim_str c = cat (
      "Name: "
      ∷ name_of c.claim_def_key
      ∷ "\nVersion: "
      ∷ c.claim_def_key.1.0
      ∷ "\nStatus: available (not yet issued)"
      ∷ [])

  -- `ReceivedClaim.__str__`
  unfoldable pub received_claim_str : ReceivedClaim → String
  received_claim_str c = cat (
      "\nName: "
      ∷ name_of c.def_key
      ∷ "\nVersion: "
      ∷ c.def_key.1.0
      ∷ "\nStatus: "
      ∷ c.date_of_issue
      ∷ "\nAttributes: \n      "
      ∷ attribute_lines c.values
      ∷ [])

  abbrev fields_of : Value → Result Object
  fields_of (obj fs) = ok (to_dict fs)
  fields_of v = err type_error

  -- `ClaimDef.getClaimDefInfoStr`, of the definition
  unfoldable pub claim_def_info_str : Value → Result String
  unfolding lookup
  claim_def_info_str definition = do
    d ← fields_of definition
    given ← or_raise key_error (lookup "attributes" d)
    attributes ← fields_of given
    ok (cat ("Definition:\n   Attributes:\n      " ∷ attribute_lines attributes ∷ []))

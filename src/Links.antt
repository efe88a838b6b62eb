-- ===== src/Links.antt =====
-- The links of a wallet and the claims on them: sovrin/client/wallet/link.py, the data of
-- sovrin/client/wallet/claim.py, and the searches over links in sovrin/client/wallet/wallet.py.
pub mod Matching
pub mod Age
pub mod Printing
mod Tests
use sovrin.Prelude.{
  ℕ, ◌/◌, String, Bool, true, false, not, Option, none, some, List, [], ◌∷◌, ◌++◌, any, keep, find,
  map, if◌then◌else◌, ltb, nat_eq, String-Eq, ℕ-Eq, Pair-Eq, ◌==◌, ◌&&◌, ◌||◌,
}
use sovrin.Python.Dict.{Dict, lookup, insert, contains, keys, values}
use sovrin.Python.Value.{Value, str, num, Object}

-- `ClaimDefKey.key`: name, version, number of the definition, author
abbrev pub ClaimDefKey : Type 0
ClaimDefKey = String × (String × (ℕ × String))

abbrev pub name_of : ClaimDefKey → String
name_of k = k.0

pub record ClaimRequest : Type 0 where
  pub name : String
  pub version : String
  pub attributes : Object

pub record AvailableClaim : Type 0 where
  pub claim_def_key : ClaimDefKey

pub record ReceivedClaim : Type 0 where
  pub def_key : ClaimDefKey
  pub issuer_keys : Object
  pub values : Object
  pub date_of_issue : String

-- `ReceivedClaim.__init__`, `updateDateOfIssue`
abbrev pub new_received_claim : ClaimDefKey → (issuer_keys values : Object) → ReceivedClaim
new_received_claim k issuer_keys vals = record {
  def_key = k;
  issuer_keys = issuer_keys;
  values = vals;
  date_of_issue = "available (not yet issued)";
}

abbrev pub update_date_of_issue : String → ReceivedClaim → ReceivedClaim
update_date_of_issue date c = record c { date_of_issue = date }

pub record Link : Type 0 where
  pub name : String
  pub local_identifier : String
  pub verkey : String
  pub trust_anchor : Option String
  pub remote_identifier : Option String
  pub remote_end_point : Option String
  pub nonce : String
  pub invitation_data : Option Object
  pub claim_requests : List ClaimRequest
  pub available_claims : Dict ClaimDefKey AvailableClaim
  pub received_claims : Dict ClaimDefKey ReceivedClaim
  pub target_verkey : Option String
  pub link_status : Option String
  pub link_last_synced : Option ℕ
  pub link_last_sync_no : Option String

abbrev given_or : String → Option String → String
given_or fresh none = fresh
given_or fresh (some s) = if s == "" then fresh else s

-- `Link.__init__`: `last_part s` is `s.split(":")[-1]`, and `fresh` is what `getNonce` returns.
unfoldable pub new_link :
    (last_part : String → String)
    → (fresh : String) → (name local_identifier : String)
    → (trust_anchor remote_identifier remote_end_point nonce : Option String) → List ClaimRequest
    → Option Object
    → Link
new_link last_part fresh name local_identifier trust remote end_point nonce requests invitation =
    record {
      name = name;
      local_identifier = local_identifier;
      verkey = last_part local_identifier;
      trust_anchor = trust;
      remote_identifier = remote;
      remote_end_point = end_point;
      nonce = given_or fresh nonce;
      invitation_data = invitation;
      claim_requests = requests;
      available_claims = [];
      received_claims = [];
      target_verkey = none;
      link_status = none;
      link_last_synced = none;
      link_last_sync_no = none;
    }

-- `updateReceivedClaims` and `updateAvailableClaims`
unfoldable pub update_received_claims : List ReceivedClaim → Link → Link
unfolding insert
update_received_claims [] li = li
update_received_claims (c ∷ cs) li =
    update_received_claims cs
      (record li { received_claims = insert c.def_key c li.received_claims })

unfoldable pub update_available_claims : List AvailableClaim → Link → Link
unfolding insert
update_available_claims [] li = li
update_available_claims (c ∷ cs) li =
    update_available_claims cs
      (record li { available_claims = insert c.claim_def_key c li.available_claims })

unfoldable pub is_remote_endpoint_available : Link → Bool
is_remote_endpoint_available li = elim li.remote_end_point [
  | none ↦ false
  | some e ↦ not (e == "") && not (e == "Not Available")
]

unfoldable pub is_accepted : Link → Bool
is_accepted li = elim li.link_status [ none ↦ false | some status ↦ status == "Accepted" ]

-- The texts of `prettyDate`, and the time since a synchronisation, as `timedelta` has it.
pub data Phrase : Type 0 where
  not_synchronized nothing just_now a_minute_ago an_hour_ago yesterday : Phrase
  seconds_ago minutes_ago hours_ago days_ago : ℕ → Phrase

pub data Elapsed : Type 0 where
  never in_future : Elapsed
  since : (days seconds : ℕ) → Elapsed

abbrev today : ℕ → Option Phrase
today s =
    if ltb s 10
    then some just_now
    else if ltb s 60
    then some (seconds_ago s)
    else if ltb s 120
    then some a_minute_ago
    else if ltb s 3600
    then some (minutes_ago (s / 60))
    else if ltb s 7200
    then some an_hour_ago
    else if ltb s 86400
    then some (hours_ago (s / 3600))
    else none

-- `Link.prettyDate` of a time or of no time; it falls off its end, with None, in the last case.
unfoldable pub pretty_date : Elapsed → Option Phrase
pretty_date never = some not_synchronized
pretty_date in_future = some nothing
pretty_date (since days seconds) =
    if nat_eq days 0
    then today seconds
    else if nat_eq days 1
    then some yesterday
    else if ltb days 7
    then some (days_ago days)
    else none

-- The links of a wallet, by name.
abbrev pub Links : Type 0
Links = Dict String Link

-- `addLinkInvitation`
unfoldable pub add_link_invitation : Link → Links → Links
unfolding insert
add_link_invitation li links = insert li.name li links

unfoldable pub get_link_by_nonce : String → Links → Option Link
get_link_by_nonce nonce links = find (λ (li : Link). li.nonce == nonce) (values links)

abbrev is_target : String → Option String → Bool
is_target target none = false
is_target target (some r) = r == target

unfoldable pub get_link_invitation_by_target : String → Links → Option Link
get_link_invitation_by_target target links =
    find (λ (li : Link). is_target target li.remote_identifier) (values links)

-- `lower` is `str.lower`, and `is_in` the test `s in t` on strings.
module _ (lower : String → String) (is_in : String → String → Bool) where
  -- `_isMatchingName`
  abbrev pub is_matching_name : String → String → Bool
  is_matching_name source target = source == target || is_in (lower source) (lower target)

  unfoldable pub get_matching_link_invitations : String → Links → List Link
  get_matching_link_invitations name [] = []
  get_matching_link_invitations name ((k, li) ∷ links) =
      let rest = get_matching_link_invitations name links in
      if is_matching_name name k then li ∷ rest else rest

  unfoldable pub get_matching_links_with_available_claim :
      String → Links → List (Link × AvailableClaim)
  get_matching_links_with_available_claim name [] = []
  get_matching_links_with_available_claim name ((k, li) ∷ links) =
      map (λ (c : AvailableClaim). (li, c))
        (keep (λ (c : AvailableClaim). is_matching_name (name_of c.claim_def_key) name)
          (values li.available_claims))
      ++ get_matching_links_with_available_claim name links

  unfoldable pub get_matching_links_with_received_claim :
      String → Links → List (Link × ReceivedClaim)
  get_matching_links_with_received_claim name [] = []
  get_matching_links_with_received_claim name ((k, li) ∷ links) =
      map (λ (c : ReceivedClaim). (li, c))
        (keep (λ (c : ReceivedClaim). is_matching_name (name_of c.def_key) name)
          (values li.received_claims))
      ++ get_matching_links_with_received_claim name links

  unfoldable pub get_matching_links_with_claim_req : String → Links → List (Link × ClaimRequest)
  get_matching_links_with_claim_req name [] = []
  get_matching_links_with_claim_req name ((k, li) ∷ links) =
      map (λ (c : ClaimRequest). (li, c))
        (keep (λ (c : ClaimRequest). is_matching_name c.name name) li.claim_requests)
      ++ get_matching_links_with_claim_req name links

abbrev pub mem : String → List String → Bool
mem k ks = any (λ (j : String). j == k) ks

abbrev pub is_empty : List String → Bool
is_empty [] = true
is_empty (k ∷ ks) = false

-- the attributes that a claim has and no claim before it
abbrev pub common_attrs : List String → List String → ReceivedClaim → List String
common_attrs attributes matched c =
    keep (λ (k : String). not (mem k matched) && contains k c.values) attributes

-- the two loops of `getMachingRcvdClaims`, over the received claims of all links
unfoldable pub match_claims :
    (attributes : List String)
    → List (Link × ReceivedClaim)
    → (matched : List String) → List (Link × (ReceivedClaim × List String))
unfolding contains
match_claims attributes [] matched = []
match_claims attributes ((li, c) ∷ cs) matched =
    let common = common_attrs attributes matched c in
    let rest = match_claims attributes cs (matched ++ common) in
    if is_empty common then rest else (li, (c, common)) ∷ rest

unfoldable pub received_claims_of : Links → List (Link × ReceivedClaim)
received_claims_of [] = []
received_claims_of ((k, li) ∷ links) =
    map (λ (c : ReceivedClaim). (li, c)) (values li.received_claims) ++ received_claims_of links

unfoldable pub get_maching_rcvd_claims :
    (attributes : Object) → Links → List (Link × (ReceivedClaim × List String))
unfolding match_claims received_claims_of
get_maching_rcvd_claims attributes links =
    match_claims (keys attributes) (received_claims_of links) []

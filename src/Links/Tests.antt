-- ===== src/Links/Tests.antt =====
-- The theorems on links at a wallet with one link and two received claims.
use sovrin.Prelude.{◌≡◌, none, [], ◌∷◌}
use sovrin.Python.Dict.{contains, insert}
use sovrin.Python.Value.{str, Object}
use sovrin.Links.{
  Link, Links, ReceivedClaim, new_link, new_received_claim, update_received_claims,
  received_claims_of, get_maching_rcvd_claims,
}
use sovrin.Links.Matching.{times, get_maching_rcvd_claims-times}

abbrev transcript : ReceivedClaim
transcript =
    new_received_claim ("Transcript", ("1.2", (17, "Faber"))) []
      (("degree", str "BSc") ∷ ("name", str "Alice") ∷ [])

abbrev job : ReceivedClaim
job = new_received_claim ("Job", ("0.2", (21, "Acme"))) [] (("name", str "Alice") ∷ [])

abbrev faber : Link
faber =
    update_received_claims (transcript ∷ job ∷ [])
      (new_link (λ s. s) "nonce" "Faber" "Alice" none none none none [] none)

abbrev one_link : Links
one_link = ("Faber", faber) ∷ []

abbrev asked : Object
asked = ("name", str "") ∷ ("salary", str "") ∷ []

get_maching_rcvd_claims-times_example : times "name" (get_maching_rcvd_claims asked one_link) ≡ 1
unfolding received_claims_of update_received_claims new_link insert contains
get_maching_rcvd_claims-times_example = get_maching_rcvd_claims-times "name" asked one_link

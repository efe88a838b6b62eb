-- ===== src/Links/Matching.antt =====
-- Which attributes `getMachingRcvdClaims` finds, and how often.
use sovrin.Prelude.{
  ℕ, String, ◌≡◌, refl, Bool, not, List, [], ◌∷◌, ◌++◌, any, keep, length, arith, if◌then◌else◌,
  String-Eq, eq_iff, ◌==◌, ◌&&◌, any-append, ◌∙◌, suc,
}
use sovrin.Python.Dict.{contains, keys}
use sovrin.Python.Value.{Object}
use sovrin.Links.{
  Link, Links, ReceivedClaim, mem, common_attrs, is_empty, match_claims, received_claims_of,
  get_maching_rcvd_claims,
}

abbrev Match : Type 0
Match = Link × (ReceivedClaim × List String)

-- the number of matches that list the attribute
abbrev pub times : String → List Match → ℕ
times k ms = length (keep (λ (m : Match). mem k m.1.1) ms)

-- some received claim has the attribute
abbrev pub has_claim : String → List (Link × ReceivedClaim) → Bool
has_claim k cs = any (λ (e : Link × ReceivedClaim). contains k e.1.values) cs

mem-keep :
    (k : String) (q : String → Bool) (ks : List String) → mem k (keep q ks) ≡ (mem k ks && q k)
mem-keep k q [] = refl
mem-keep k q (j ∷ ks) = ground (arith, mem-keep k q ks, eq_iff j k)

times-one :
    (k : String) (li : Link) (c : ReceivedClaim) (ks : List String) (rest : List Match)
    → times k (if is_empty ks then rest else (li, (c, ks)) ∷ rest)
      ≡ (if mem k ks then suc (times k rest) else times k rest)
times-one k li c [] rest = refl
times-one k li c (j ∷ ks) rest = ground arith

times-match_claims :
    (k : String) (attributes : List String) (cs : List (Link × ReceivedClaim))
    (matched : List String)
    → times k (match_claims attributes cs matched)
      ≡ (if mem k attributes && not (mem k matched) && has_claim k cs then 1 else 0)
unfolding match_claims
times-match_claims k attributes [] matched = ground arith
times-match_claims k attributes ((li, c) ∷ cs) matched =
    let common = common_attrs attributes matched c in
    times-one k li c common (match_claims attributes cs (matched ++ common))
    ∙ ground (
      arith,
      times-match_claims k attributes cs (matched ++ common),
      any-append (λ (j : String). j == k) matched common,
      mem-keep k (λ (j : String). not (mem j matched) && contains j c.values) attributes,
    )

-- An attribute that is asked for is listed by exactly one match if some received claim of some
-- link has it, and by none otherwise; an attribute that is not asked for is listed by none.
pub get_maching_rcvd_claims-times :
    (k : String) (attributes : Object) (links : Links)
    → times k (get_maching_rcvd_claims attributes links)
      ≡ (if mem k (keys attributes) && has_claim k (received_claims_of links) then 1 else 0)
unfolding get_maching_rcvd_claims
get_maching_rcvd_claims-times k attributes links =
    ground (arith, times-match_claims k (keys attributes) (received_claims_of links) [])

-- ===== src/Cli/Choice/Exact.antt =====
-- Whether the link that is named exactly is the one that a command works on.
use sovrin.Prelude.{
  String, ◌≡◌, ap, ◌∙◌, some, none, List, [], ◌∷◌, length, ltb, if◌then◌else◌, arith, String-Eq,
}
use sovrin.Python.Result.{ok}
use sovrin.Links.{Link}
use sovrin.Wallet.{Signer}
use sovrin.Cli.{Terminal, Shell, print, print_all, print_usage}
use sovrin.Cli.Choice.{
  Matches, get_invitation_matching_links, get_one_link, print_more_than_one_link_found_msg,
  total_found, choose, get_one_link_for_further_processing,
}

module _ {g : Signer} (x : Terminal g) where
  abbrev one_exact : Link → List Link → Matches
  one_exact li others = record { exactly = li ∷ []; likely = others }

  choose-one_exact :
      (name : String) (s : Shell g) (li : Link) (others : List Link)
      → (choose x name (one_exact li others) (total_found (one_exact li others)) s).0
        ≡ ok (if ltb (length others) 2 then some li else none)
  unfolding total_found get_one_link print_more_than_one_link_found_msg print print_all print_usage
  choose-one_exact name s li [] = ground arith
  choose-one_exact name s li (a ∷ []) = ground arith
  choose-one_exact name s li (a ∷ b ∷ others) = ground arith

  -- Where one link of the keyring has exactly the name that the user gave, the command goes on with
  -- that link exactly when fewer than two other links match the name; else it goes on with none.
  pub get_one_link_for_further_processing-exact :
      (name : String) (s : Shell g) (li : Link)
      → (get_invitation_matching_links x (x.unquote name) s.links).exactly ≡ li ∷ []
      → let others = (get_invitation_matching_links x (x.unquote name) s.links).likely in
        ((get_one_link_for_further_processing x name s).0
          ≡ ok (if ltb (length others) 2 then some li else none))
  unfolding get_one_link_for_further_processing
  get_one_link_for_further_processing-exact name s li exact =
      let m = get_invitation_matching_links x (x.unquote name) s.links in
      ap
        (λ (e : List Link).
          let k : Matches = record { exactly = e; likely = m.likely } in
          (choose x name k (total_found k) s).0)
        exact
      ∙ choose-one_exact name s li m.likely

-- ===== src/Cli/Choice.antt =====
-- How a command finds the link that a user names: `_getInvitationMatchingLinks`,
-- `_getMatchingInvitationsDetail`, `_getOneLink` and `_getOneLinkForFurtherProcessing`.
pub mod Exact
use sovrin.Prelude.{
  cat, ℕ, zero, suc, String, Bool, true, false, not, Option, none, some, List, [], ◌∷◌, ◌++◌, map,
  keep, length, if◌then◌else◌, String-Eq, ◌==◌,
}
use sovrin.Python.Result.{Result, ok, err, index_error}
use sovrin.Python.Exec.{Exec, pure, lift, gets, ◌>>=◌, ◌>>◌}
use sovrin.Links.{Link, Links, get_matching_link_invitations}
use sovrin.Wallet.{Signer}
use sovrin.Cli.{
  Terminal, Shell, print, print_all, print_usage, print_no_link_found_msg, show_file_usage,
  load_file_usage,
}

-- The two dicts from the name of the keyring, which is the only one that is searched: a dict has
-- the keyring's list, or is empty.
pub record Matches : Type 0 where
  pub exactly : List Link
  pub likely : List Link

module _ {g : Signer} (x : Terminal g) where
  unfoldable pub get_invitation_matching_links : String → Links → Matches
  unfolding get_matching_link_invitations
  get_invitation_matching_links name links =
      let found = get_matching_link_invitations x.lower x.is_in name links in
      record {
        exactly = keep (λ (li : Link). li.name == name) found;
        likely = keep (λ (li : Link). not (li.name == name)) found;
      }

-- `{**exactlyMatched, **likelyMatched}`: both have the keyring's name as their key
abbrev pub merged : Matches → List Link
merged m = elim m.likely [ [] ↦ m.exactly | li ∷ ls ↦ li ∷ ls ]

-- `totalFound`
unfoldable pub total_found : Matches → ℕ
total_found m = length (merged m)

abbrev first_link : List Link → Result Link
first_link [] = err index_error
first_link (li ∷ ls) = ok li

-- `_getOneLink`
unfoldable pub get_one_link : Matches → Result Link
get_one_link m = elim m.exactly [ [] ↦ first_link m.likely | li ∷ ls ↦ ok li ]

module _ {g : Signer} (x : Terminal g) where
  -- `_printMoreThanOneLinkFoundMsg`, whose `update` is the same merge
  unfoldable pub print_more_than_one_link_found_msg : String → Matches → Exec (Shell g) Unit
  unfolding print print_all print_usage
  print_more_than_one_link_found_msg name m = do
    print (cat ("More than one link matches \"" ∷ name ∷ "\"" ∷ []))
    print_all (map (λ (li : Link). li.name) (merged m))
    print "\nRe enter the command with more specific link invitation name"
    print_usage (show_file_usage none ∷ load_file_usage none ∷ [])

  abbrev expand : String → Link → Exec (Shell g) Unit
  expand name li =
      if li.name == name
      then pure tt
      else print (cat ("Expanding " ∷ name ∷ " to \"" ∷ li.name ∷ "\"" ∷ []))

  abbrev choose : String → Matches → ℕ → Exec (Shell g) (Option Link)
  choose name m zero = do print_no_link_found_msg; pure none
  choose name m (suc zero) = do li ← lift (get_one_link m); expand name li; pure (some li)
  choose name m (suc (suc n)) = do print_more_than_one_link_found_msg name m; pure none

  -- `_getOneLinkForFurtherProcessing`
  unfoldable pub get_one_link_for_further_processing : String → Exec (Shell g) (Option Link)
  unfolding total_found print_more_than_one_link_found_msg get_one_link print_no_link_found_msg
      get_invitation_matching_links
  get_one_link_for_further_processing name = do
    m ← gets (λ s. get_invitation_matching_links x (x.unquote name) s.links)
    choose name m (total_found m)

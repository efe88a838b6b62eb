-- ===== src/Cli/Showing/Stale.antt =====
-- What becomes of the command that shows a link which was synchronised long ago.
use sovrin.Prelude.{ℕ, ◌<◌, ◌≤◌, ◌≡◌, String, true, [], ◌∷◌, String-Eq, ◌==◌}
use sovrin.Python.Result.{err, type_error}
use sovrin.Links.{Link, since}
use sovrin.Links.Age.{pretty_date-none}
use sovrin.Links.Printing.{link_str}
use sovrin.Wallet.{Signer}
use sovrin.Cli.{Terminal, Shell}
use sovrin.Cli.Choice.{get_invitation_matching_links, total_found, get_one_link}
use sovrin.Cli.Showing.{show_link}

module _ {g : Signer} (x : Terminal g) where
  link_str-stale :
      (li : Link) (days seconds : ℕ)
      → x.printer.elapsed li.link_last_synced ≡ since days seconds
      → seconds < 86400
      → 7 ≤ days
      → link_str x.printer li ≡ err type_error
  unfolding link_str
  link_str-stale li days seconds passed in_day old =
      rw passed (rw ((pretty_date-none days seconds in_day).1 old))

  -- The command that shows a link, where the name is that of the link and no other link matches it,
  -- raises a TypeError and prints nothing if the link was synchronised seven or more days ago.
  pub show_link-stale :
      (name : String) (li : Link) (days seconds : ℕ) (s : Shell g)
      → get_invitation_matching_links x (x.unquote name) s.links
        ≡ record { exactly = li ∷ []; likely = [] }
      → (li.name == name) ≡ true
      → x.printer.elapsed li.link_last_synced ≡ since days seconds
      → seconds < 86400
      → 7 ≤ days
      → show_link x name s ≡ (err type_error, s)
  unfolding show_link total_found get_one_link
  show_link-stale name li days seconds s found exact passed in_day old =
      rw found (rw exact (rw (link_str-stale li days seconds passed in_day old)))

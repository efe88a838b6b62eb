-- ===== src/Links/Age.antt =====
-- For which times `prettyDate` has a text.
use sovrin.Prelude.{ℕ, ◌<◌, ◌≤◌, ◌≡◌, ◌↔◌, none, arith}
use sovrin.Links.{since, pretty_date}

-- For a time in the past, of which `timedelta` has less than a day of seconds, `prettyDate`
-- returns no text exactly when the time is seven or more days ago.
pub pretty_date-none :
    (days seconds : ℕ) → seconds < 86400 → (pretty_date (since days seconds) ≡ none) ↔ (7 ≤ days)
unfolding pretty_date
pretty_date-none days seconds h = ground arith

-- ===== src/Domain/Names/Tests.antt =====
-- Texts that are slugs or addresses, and some that are not.
use converse_os.Prelude.{◌≡◌, ◌↔◌, refl, none, some, true, leb}
use converse_os.Prelude.Split.{str_length}
use converse_os.Prelude.Strip.{strip, lstrip, rstrip, is_space}
use converse_os.Prelude.Regex.{match_end}
use converse_os.Domain.Names.{make_slug, make_email, make_sort_order}
use converse_os.Domain.Names.Addresses.{IsAddress, make_email_iff}
use converse_os.Domain.Names.Slugs.{IsSlug, make_slug_iff}

slug_run :
    (make_slug "my-agent-2" ≡ some "my-agent-2")
    × (make_slug "-agent" ≡ none)
    × (make_slug "agent-" ≡ none)
    × (make_slug "a--b" ≡ none)
    × (make_slug "Agent" ≡ none)
    × (make_slug "agent\n" ≡ some "agent\n")
unfolding make_slug match_end
slug_run = (refl, refl, refl, refl, refl, refl)

email_run :
    (make_email (λ s. s) "ann.lee@mail.co" ≡ some "ann.lee@mail.co")
    × (make_email (λ s. s) "ann@mail.co\n" ≡ some "ann@mail.co")
    × (make_email (λ s. s) "ann@mail" ≡ none)
    × (make_email (λ s. s) "ann@mail.c" ≡ none)
    × (make_email (λ s. s) "@mail.co" ≡ none)
unfolding make_email match_end strip lstrip rstrip is_space
email_run = (refl, refl, refl, refl, refl)

sort_run : make_sort_order "name" "up" ≡ none
unfolding make_sort_order
sort_run = refl

make_slug_iff_example :
    (make_slug "my-agent-2" ≡ some "my-agent-2")
    ↔ (leb (str_length "my-agent-2") 128 ≡ true) × IsSlug "my-agent-2"
make_slug_iff_example = make_slug_iff "my-agent-2"

make_email_iff_example :
    (make_email (λ s. s) "ann@mail.co" ≡ some (strip "ann@mail.co")) ↔ IsAddress "ann@mail.co"
make_email_iff_example = make_email_iff (λ s. s) "ann@mail.co"

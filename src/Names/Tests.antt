-- ===== src/Names/Tests.antt =====
-- The tests of names at names that both validations accept.
use tit.Prelude.{◌≡◌, refl, inr, true, false, not}
use tit.Prelude.Bytes.{codes}
use tit.Names.{validate_slug, validate_username, valid_name, contains, ends_with, last_is}
use tit.Names.Components.{IsComponent, validate_slug-IsComponent}
use tit.Names.Transport.{valid_name_lem}

alice_accepted : validate_username (codes "alice-b") ≡ inr tt
unfolding validate_username last_is
alice_accepted = refl

two_dots_accepted : validate_slug (codes "a..b") ≡ inr tt
unfolding validate_slug ends_with last_is
two_dots_accepted = refl

two_dots_unreachable : valid_name (codes "a..b") 100 ≡ false
unfolding valid_name last_is contains
two_dots_unreachable = refl

valid_name_lem_example :
    (valid_name (codes "alice-b") 40 ≡ true)
    × (valid_name (codes "a..b") 100 ≡ not (contains (codes "..") (codes "a..b")))
valid_name_lem_example =
    valid_name_lem (codes "alice-b") (codes "a..b") alice_accepted two_dots_accepted

validate_slug-IsComponent_example : IsComponent (codes "alice-b") × IsComponent (codes "a..b")
validate_slug-IsComponent_example =
    validate_slug-IsComponent (codes "alice-b") (codes "a..b") alice_accepted two_dots_accepted

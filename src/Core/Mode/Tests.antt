-- ===== src/Core/Mode/Tests.antt =====
-- The unit tests of crates/muxa-core/src/mode.rs.
use muxa.Prelude.{◌≡◌, refl}
use muxa.Prelude.Text.{codes, str_ops, to_ascii_lowercase}
use muxa.Prelude.Effects.{ok, err}
use muxa.Core.Mode.{development, production, unknown, from_str, as_str}
use muxa.Core.Mode.Names.{from_str-to_ascii_lowercase, from_str-as_str}

from_str_tests :
    (from_str (codes " DEBUG ") ≡ ok development)
    × (from_str (codes "Prod") ≡ ok production)
    × (from_str (codes "staging") ≡ err (unknown (codes "staging")))
unfolding from_str str_ops
from_str_tests = (refl, refl, refl)

from_str-to_ascii_lowercase_example :
    from_str (to_ascii_lowercase (codes "RELEASE")) ≡ from_str (codes "RELEASE")
from_str-to_ascii_lowercase_example = from_str-to_ascii_lowercase (codes "RELEASE")

from_str-as_str_example : from_str (as_str production) ≡ ok production
from_str-as_str_example = from_str-as_str production

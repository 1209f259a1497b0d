-- ===== src/Auth/Csrf/Tests.antt =====
-- The unit tests of crates/muxa-auth/src/csrf.rs, over addresses of the form `scheme://host[:port]`.
use muxa.Prelude.{List, ◌≡◌, refl, ◌↔◌, true, none, some, [], ◌∷◌, if◌then◌else◌}
use muxa.Prelude.Text.{Text, codes, str_ops, strip_prefix, ◌==◌}
use muxa.Auth.Csrf.{
  Method, get, other, Urls, Headers, forbidden, from_next, TrustedOrigins, new, normalize, allowed,
  guard,
}
use muxa.Auth.Csrf.Rule.{Passes, allowed_iff}

-- An address is the host behind `http://`, with no port of its own; 255 is no readable text.
abbrev simple : Urls
simple = record {
  Url = Text;
  parse = λ s. strip_prefix s (codes "http://");
  tuple_origin = λ host. some host;
  host_str = λ host. some host;
  port = λ host. none;
  to_str = λ value. if value == (255 ∷ []) then none else some value;
}

abbrev trusted : TrustedOrigins simple
trusted = codes "app.example" ∷ []

abbrev only_origin : Text → Headers
only_origin origin = record {
  origin = some origin;
  sec_fetch_site = none;
  host = some (codes "Local");
}

abbrev from_site : Text → Headers
from_site site = record {
  origin = some (codes "http://evil.example");
  sec_fetch_site = some site;
  host = none;
}

abbrev put : Method
put = other (codes "POST")

guard_tests :
    (guard simple put (only_origin (codes "http://local")) trusted ≡ from_next)
    × (guard simple put (only_origin (codes "http://evil.example")) trusted ≡ forbidden)
    × (guard simple put (only_origin (codes "http://app.example")) trusted ≡ from_next)
    × (guard simple put (only_origin (codes "null")) trusted ≡ forbidden)
    × (guard simple put (from_site (codes "same-origin")) trusted ≡ from_next)
    × (guard simple put (from_site (codes "same-site")) trusted ≡ forbidden)
    × (guard simple get (from_site (codes "cross-site")) trusted ≡ from_next)
unfolding guard normalize str_ops
guard_tests = (refl, refl, refl, refl, refl, refl, refl)

abbrev configured : List Text
configured = codes "http://app.example" ∷ []

allowed_iff_example :
    (allowed simple put (only_origin (codes "http://local")) (new simple configured) ≡ true)
    ↔ Passes simple put (only_origin (codes "http://local")) configured
allowed_iff_example = allowed_iff simple put (only_origin (codes "http://local")) configured

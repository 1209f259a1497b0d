-- ===== src/Auth/Plugin/Tests.antt =====
-- A section with a provider that is on, one that is off, and one without a redirect URL.
use muxa.Prelude.{◌↔◌, ◌≡◌, refl, true, none, some, [], ◌∷◌}
use muxa.Prelude.Text.{Text, codes, str_ops, trim_start, trim_end}
use muxa.Prelude.Assoc.{Assoc, lookup, keys}
use muxa.Auth.Config.{
  ProviderConfig, OAuth2ProviderConfig, OidcProviderConfig, oauth2, oidc, basic, client_id,
}
use muxa.Auth.Routes.{router}
use muxa.Auth.Provider.OAuth2
use muxa.Auth.Provider.Oidc
use muxa.Auth.Provider.OAuth2.{basic_auth}
use muxa.Auth.Provider.Sample.{oauth, open_id}
use muxa.Auth.Provider.Dispatch.{Provider, plain, from_config}
use muxa.Auth.Plugin.{
  has_provider, provider_redirect, mount_path, base_of, turned_on, build_providers, build,
}
use muxa.Auth.Plugin.Providers.{IsOn, lookup-build_providers}

plugin : Unit {0}
unfolding lookup client_id OAuth2.new Oidc.new from_config has_provider provider_redirect mount_path
    base_of turned_on build_providers build router trim_start trim_end str_ops
plugin = tt

abbrev github : OAuth2ProviderConfig
github = record {
  client_id = codes "muxa";
  client_secret = [];
  auth_url = codes "https://github/auth";
  token_url = codes "https://github/token";
  userinfo_url = codes "https://github/user";
  scopes = [];
  pkce = true;
  token_auth = basic;
  subject_field = codes "id";
  email_field = none;
  name_field = none;
  redirect_url = some (codes "https://app/back");
}

abbrev acme : OidcProviderConfig
acme = record {
  issuer = codes "https://acme";
  client_id = codes "muxa";
  client_secret = [];
  scopes = [];
  metadata_ttl_secs = 3600;
  redirect_url = none;
}

abbrev sections : Assoc ProviderConfig
sections =
    (codes "acme", oidc acme)
    ∷ (codes "github", oauth2 github)
    ∷ (codes "off", oauth2 (record github { client_id = [] }))
    ∷ []

abbrev same_url : Text → Text
same_url url = url

-- Without a base URL only the provider with its own redirect URL is on.
github_alone :
    keys (build_providers oauth open_id same_url [] (codes "/auth") sections) ≡ codes "github" ∷ []
unfolding plugin
github_alone = refl

with_base_url :
    keys (build_providers oauth open_id same_url (codes "https://app") (codes "/auth") sections)
    ≡ codes "acme" ∷ codes "github" ∷ []
unfolding plugin
with_base_url = refl

trims_mount : (mount_path (codes "//auth/x/") ≡ codes "/auth/x") × (mount_path (codes "/") ≡ [])
unfolding plugin
trims_mount = (refl, refl)

abbrev github_provider : Provider oauth open_id
github_provider = plain (record {
  id = codes "github";
  client = record {
    id = codes "muxa";
    auth_url = codes "https://github/auth";
    token_url = codes "https://github/token";
    redirect = codes "https://app/back";
    auth_type = basic_auth;
    secret = none;
  };
  scopes = [];
  pkce = true;
  userinfo_url = codes "https://github/user";
  subject_field = codes "id";
  email_field = none;
  name_field = none;
})

lookup-build_providers_example :
    let providers = build_providers oauth open_id same_url [] (codes "/auth") sections in
    ((lookup (codes "github") providers ≡ some github_provider)
      ↔ IsOn oauth open_id same_url [] (codes "/auth") (codes "github") sections github_provider)
    × (has_provider (record { providers = keys providers }) (codes "github") ≡ true)
unfolding plugin
lookup-build_providers_example =
    lookup-build_providers oauth open_id same_url [] (codes "/auth") (codes "github") sections
      github_provider (refl, (refl, (refl, tt)))

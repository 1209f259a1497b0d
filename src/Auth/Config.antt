-- ===== src/Auth/Config.antt =====
-- crates/muxa-auth/src/config.rs: the `[auth]` section and its defaults. A `SecretString` is the
-- text that `expose_secret` gives.
use muxa.Prelude.{ℕ, ◌*◌, Bool, true, Option, List, [], ◌∷◌}
use muxa.Prelude.Text.{Text, codes}
use muxa.Prelude.Assoc.{Assoc}

-- `i64`
pub data ℤ : Type 0 where
  pos negsuc : ℕ → ℤ

pub data SameSite : Type 0 where
  strict lax none_site : SameSite

pub record CookieConfig : Type 0 where
  pub name : Text
  pub secure : Bool
  pub same_site : SameSite
  pub ttl_secs : ℤ

abbrev pub default_cookie : CookieConfig
default_cookie = record {
  name = codes "session";
  secure = true;
  same_site = lax;
  ttl_secs = pos (30 * 24 * 60 * 60);
}

pub data TokenAuth : Type 0 where
  basic post : TokenAuth

pub record OAuth2ProviderConfig : Type 0 where
  pub client_id : Text
  pub client_secret : Text
  pub auth_url : Text
  pub token_url : Text
  pub userinfo_url : Text
  pub scopes : List Text
  pub pkce : Bool
  pub token_auth : TokenAuth
  pub subject_field : Text
  pub email_field : Option Text
  pub name_field : Option Text
  pub redirect_url : Option Text

pub record OidcProviderConfig : Type 0 where
  pub issuer : Text
  pub client_id : Text
  pub client_secret : Text
  pub scopes : List Text
  pub metadata_ttl_secs : ℕ
  pub redirect_url : Option Text

pub data ProviderConfig : Type 0 where
  oauth2 : OAuth2ProviderConfig → ProviderConfig
  oidc : OidcProviderConfig → ProviderConfig

unfoldable pub client_id : ProviderConfig → Text
client_id (oauth2 cfg) = cfg.client_id
client_id (oidc cfg) = cfg.client_id

abbrev pub default_subject_field : Text
default_subject_field = codes "id"

abbrev pub default_oidc_scopes : List Text
default_oidc_scopes = codes "email" ∷ codes "profile" ∷ []

abbrev pub default_metadata_ttl : ℕ
default_metadata_ttl = 3600

pub record AuthConfig : Type 0 where
  pub base_url : Text
  pub mount : Text
  pub sign_in_path : Text
  pub default_next : Text
  pub error_param : Text
  pub trusted_origins : List Text
  pub cookie : CookieConfig
  pub cleanup_interval_secs : ℕ
  pub providers : Assoc ProviderConfig

abbrev pub default_auth : AuthConfig
default_auth = record {
  base_url = [];
  mount = codes "/auth";
  sign_in_path = codes "/";
  default_next = codes "/";
  error_param = codes "auth_error";
  trusted_origins = [];
  cookie = default_cookie;
  cleanup_interval_secs = 3600;
  providers = [];
}

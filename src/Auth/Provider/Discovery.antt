-- ===== src/Auth/Provider/Discovery.antt =====
-- `OidcProvider::client` of crates/muxa-auth/src/provider.rs: when a client is discovered anew.
use muxa.Prelude.{
  ℕ, ◌-◌, ◌<◌, ◌≤◌, ◌≡◌, refl, ap, ◌⊎◌, inl, inr, Bool, true, false, none, some, arith, ltb,
  if◌then◌else◌,
}
use muxa.Prelude.Text.{Text, codes}
use muxa.Prelude.Effects.{Result, ok, err, Result-cases}
use muxa.Auth.Provider.{chain_in}
use muxa.Auth.Provider.Oidc.{
  OpenId, Client, OidcProvider, Cached, Clock, cached_client, build_client, keep_built,
  discover_client, client, or_discover,
}

module _ (o : OpenId) where
  -- Why the cached client does not do: a new one is forced, none is cached, or it is too old.
  abbrev pub Discovers : OidcProvider o → Bool → Clock → Cached o → Type 0
  Discovers p force clock cache =
      (force ≡ true)
      ⊎ (cache ≡ none)
      ⊎ ((known : Client o) × (at : ℕ) × (cache ≡ some (known, at)) × (p.ttl ≤ clock.read_at - at))

  -- What `client` does: it hands out the cached client, only unforced and only while it is younger
  -- than the provider's limit; or it discovers anew, and the cache changes only where that succeeds.
  abbrev pub ClientOf :
      OidcProvider o → Bool → Clock → Cached o → Result Text (Client o) × Cached o → Type 0
  ClientOf p force clock cache (result, cache') =
      ((known : Client o) × (at : ℕ) × (force ≡ false)
        × (cache ≡ some (known, at))
        × (clock.read_at - at < p.ttl)
        × (result ≡ ok known)
        × (cache' ≡ cache))
      ⊎ (Discovers p force clock cache
          × (((metadata : o.Metadata) × (chain_in (codes "discovery")
                    (o.discover p.issuer clock.discover_at)
                  ≡ ok metadata)
                × (result ≡ ok (build_client o p metadata))
                × (cache' ≡ some (build_client o p metadata, clock.built_at)))
              ⊎ ((e : Text) × (chain_in (codes "discovery") (o.discover p.issuer clock.discover_at)
                    ≡ err e)
                  × (result ≡ err e)
                  × (cache' ≡ cache))))

  discover_client-ClientOf :
      (p : OidcProvider o) (force : Bool) (clock : Clock) (cache : Cached o)
      → Discovers p force clock cache
      → ClientOf p force clock cache (discover_client o p clock cache)
  unfolding discover_client
  discover_client-ClientOf p force clock cache why =
      elim (Result-cases (chain_in (codes "discovery") (o.discover p.issuer clock.discover_at))) [
        | inl (metadata, e) ↦ inr (
          why,
          inl (
            metadata,
            e,
            ap (λ r. (keep_built o p clock.built_at cache r).0) e,
            ap (λ r. (keep_built o p clock.built_at cache r).1) e,
          ),
        )
        | inr (message, e) ↦ inr (
          why,
          inr (
            message,
            e,
            ap (λ r. (keep_built o p clock.built_at cache r).0) e,
            ap (λ r. (keep_built o p clock.built_at cache r).1) e,
          ),
        )
      ]

  client_cached :
      (p : OidcProvider o) (clock : Clock) (known : Client o) (at : ℕ) (young : Bool)
      → ltb (clock.read_at - at) p.ttl ≡ young
      → ClientOf p false clock
          (some (known, at))
          (or_discover o p clock (some (known, at)) (if young then some known else none))
  client_cached p clock known at true h = inl (known, at, refl, refl, ground arith, refl, refl)
  client_cached p clock known at false h =
      discover_client-ClientOf p false clock (some (known, at))
        (inr (inr (known, at, refl, ground (arith, h))))

  -- `client` hands out the client it has cached where a new one is not forced and the cached one is
  -- younger than the provider's limit. Where one is forced, none is cached, or it is not younger, it
  -- discovers: a client built from what was
  -- discovered is handed out and cached with the time, and a failure leaves the cache as it was.
  pub client_cases :
      (p : OidcProvider o) (force : Bool) (clock : Clock) (cache : Cached o)
      → ClientOf p force clock cache (client o p force clock cache)
  unfolding client cached_client
  client_cases p true clock cache = discover_client-ClientOf p true clock cache (inl refl)
  client_cases p false clock none = discover_client-ClientOf p false clock none (inr (inl refl))
  client_cases p false clock (some (known, at)) =
      client_cached p clock known at (ltb (clock.read_at - at) p.ttl) refl

-- ===== src/Auth/Provider/Identified.antt =====
-- crates/muxa-auth/src/provider.rs: what stands behind an identity from an OpenID Connect provider.
use muxa.Prelude.{◌≡◌, refl, sym, ap, false, Option, none, some}
use muxa.Prelude.Text.{Text}
use muxa.Prelude.Effects.{Result, ok, err, ok_inj, err-ne-ok, ◌>>=◌}
use muxa.Auth.Identity.{ExternalIdentity}
use muxa.Auth.Pending.{PendingLogin}
use muxa.Auth.Provider.Checks.{
  CheckedBy, Redeemed, HashMatches, check_claims_lem, redeem-Redeemed, check_hash-HashMatches,
}
use muxa.Auth.Provider.Oidc.{
  OpenId, Client, OidcProvider, Cached, Clock, client, with_nonce, with_client, redeem,
  check_claims, check_hash, identity_of, conclude, proceed, identify,
}

module _ (o : OpenId) where
  open o use {Url, Value, IdToken, TokenResponse, Claims}

  -- What `identify` has seen when it gives an identity.
  abbrev pub VerifiedIdentity :
      Text
      → PendingLogin
      → OidcProvider o
      → Clock
      → Clock
      → Cached o
      → ExternalIdentity Value
      → Type 0
  VerifiedIdentity code pending p clock clock' cache identity =
      (nonce : Text) × (first checker : Client o) × (token : TokenResponse) × (id_token : IdToken)
      × (claims : Claims) × (pending.nonce ≡ some nonce)
      × ((client o p false clock cache).0 ≡ ok first)
      × Redeemed o first code pending token id_token
      × CheckedBy o p clock' id_token nonce first checker claims
      × HashMatches o token id_token claims checker
      × (identity ≡ identity_of o p claims)

  conclude-ok :
      (p : OidcProvider o) (token : TokenResponse) (id_token : IdToken)
      (r : Result Text (Claims × Client o) × Cached o) (identity : ExternalIdentity Value)
      → (conclude o p token id_token r).0 ≡ ok identity
      → (claims : Claims) × (checker : Client o) × (r.0 ≡ ok (claims, checker))
        × (check_hash o token id_token claims checker ≡ ok tt)
        × (identity ≡ identity_of o p claims)
  conclude-ok p token id_token (err m, cache) identity h = absurd (err-ne-ok h)
  conclude-ok p token id_token (ok (claims, checker), cache) identity h =
      of (check_hash o token id_token claims checker) refl h
    where
      of :
          (r : Result Text Unit)
          → check_hash o token id_token claims checker ≡ r
          → (r >>= (λ hash_ok. ok (identity_of o p claims))) ≡ ok identity
          → (claims' : Claims) × (checker' : Client o) × (◌≡◌ {A = Result Text (Claims × Client o)}
              (ok (claims, checker))
              (ok (claims', checker')))
            × (check_hash o token id_token claims' checker' ≡ ok tt)
            × (identity ≡ identity_of o p claims')
      of (err m) e h' = absurd (err-ne-ok h')
      of (ok _) e h' = (claims, checker, refl, e, sym (ok_inj h'))

  proceed-VerifiedIdentity :
      (code : Text) (pending : PendingLogin) (p : OidcProvider o) (clock clock' : Clock)
      (cache cache' : Cached o) (nonce : Text) (first : Client o)
      (r : Result Text (TokenResponse × IdToken)) (identity : ExternalIdentity Value)
      → pending.nonce ≡ some nonce
      → (client o p false clock cache).0 ≡ ok first
      → redeem o first code pending ≡ r
      → (proceed o p nonce clock' first cache' r).0 ≡ ok identity
      → VerifiedIdentity code pending p clock clock' cache identity
  proceed-VerifiedIdentity code pending p clock clock' cache cache' nonce first (err m) identity en
        ec er h =
      absurd (err-ne-ok h)
  proceed-VerifiedIdentity code pending p clock clock' cache cache' nonce first
        (ok (token, id_token)) identity en ec er h =
      let (claims, checker, e, hash, made) =
        conclude-ok p token id_token (check_claims o p id_token nonce clock' first cache') identity
          h in
      (
        nonce,
        first,
        checker,
        token,
        id_token,
        claims,
        en,
        ec,
        redeem-Redeemed o first code pending token id_token er,
        check_claims_lem o p id_token nonce clock' first cache' claims checker e,
        check_hash-HashMatches o token id_token claims checker hash,
        made,
      )

  first-VerifiedIdentity :
      (code : Text) (pending : PendingLogin) (p : OidcProvider o) (clock clock' : Clock)
      (cache : Cached o) (nonce : Text) (r : Result Text (Client o) × Cached o)
      (identity : ExternalIdentity Value)
      → pending.nonce ≡ some nonce
      → client o p false clock cache ≡ r
      → (with_client o r (λ current cache'.
          proceed o p nonce clock' current cache' (redeem o current code pending))).0
        ≡ ok identity
      → VerifiedIdentity code pending p clock clock' cache identity
  first-VerifiedIdentity code pending p clock clock' cache nonce (err m, cache') identity en ec h =
      absurd (err-ne-ok h)
  first-VerifiedIdentity code pending p clock clock' cache nonce (ok first, cache') identity en ec
        h =
      proceed-VerifiedIdentity code pending p clock clock' cache cache' nonce first
        (redeem o first code pending) identity en (ap (λ r. r.0) ec) refl h

  nonce-VerifiedIdentity :
      (code : Text) (pending : PendingLogin) (p : OidcProvider o) (clock clock' : Clock)
      (cache : Cached o) (nonce : Option Text) (identity : ExternalIdentity Value)
      → pending.nonce ≡ nonce
      → (with_nonce o code pending p clock clock' cache nonce).0 ≡ ok identity
      → VerifiedIdentity code pending p clock clock' cache identity
  nonce-VerifiedIdentity code pending p clock clock' cache none identity en h = absurd (err-ne-ok h)
  nonce-VerifiedIdentity code pending p clock clock' cache (some nonce) identity en h =
      first-VerifiedIdentity code pending p clock clock' cache nonce (client o p false clock cache)
        identity en refl h

  -- Where `identify` gives an identity, the sign-in had a nonce, the code was exchanged for an ID
  -- token, with the verifier remembered and by the client in use, and the identity is what that token claims: its claims held against
  -- the sign-in's nonce, by that client or, only after that client has refused them, by one built
  -- from a forced discovery; and a hash of the access token in the claims is the one that the
  -- client which accepted them makes.
  pub identify-VerifiedIdentity :
      (code : Text) (pending : PendingLogin) (p : OidcProvider o) (clock clock' : Clock)
      (cache : Cached o) (identity : ExternalIdentity Value)
      → (identify o code pending p clock clock' cache).0 ≡ ok identity
      → VerifiedIdentity code pending p clock clock' cache identity
  unfolding identify
  identify-VerifiedIdentity code pending p clock clock' cache identity h =
      nonce-VerifiedIdentity code pending p clock clock' cache pending.nonce identity refl h

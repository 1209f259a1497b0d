-- ===== src/Auth/Provider/Checks.antt =====
-- crates/muxa-auth/src/provider.rs: what each check of an OpenID Connect sign-in lets pass.
use muxa.Prelude.{
  Bool, true, false, if◌then◌else◌, ◌≡◌, refl, sym, ap, ◌∙◌, ◌⊎◌, inl, inr, Option, none, some,
}
use muxa.Prelude.Text.{Text, codes}
use muxa.Prelude.Effects.{Result, ok, err, bind-ok, ok_inj, err-ne-ok}
use muxa.Auth.Pending.{PendingLogin}
use muxa.Auth.Provider.Contexts.{ok-of_chain, ok-of_context}
use muxa.Auth.Provider.{in_context, chain_in}
use muxa.Auth.Provider.Oidc.{
  OpenId, Client, OidcProvider, Cached, Clock, client, or_recheck, with_client, redeem, or_err,
  matches_hash, hash_mismatch, checked, check_claims, check_hash,
}

module _ (o : OpenId) where
  open o use {Url, Value, IdToken, TokenResponse, Claims}

  -- The claims hold by the first client, or by one built from a new discovery after the first has
  -- refused them.
  abbrev pub CheckedBy :
      OidcProvider o → Clock → IdToken → Text → Client o → Client o → Claims → Type 0
  CheckedBy p clock id_token nonce first checker claims =
      (o.claims id_token checker nonce ≡ ok claims)
      × ((checker ≡ first)
          ⊎ ((e : Text) × (cache : Cached o) × (o.claims id_token first nonce ≡ err e)
              × ((client o p true clock cache).0 ≡ ok checker)))

  recheck-CheckedBy :
      (p : OidcProvider o) (id_token : IdToken) (nonce : Text) (clock : Clock) (first : Client o)
      (cache : Cached o) (e : Text) (r : Result Text (Client o) × Cached o) (claims : Claims)
      (checker : Client o)
      → o.claims id_token first nonce ≡ err e
      → client o p true clock cache ≡ r
      → (with_client o r (λ rediscovered cache'.
          checked o rediscovered cache'
            (in_context (codes "id token") (o.claims id_token rediscovered nonce)))).0
        ≡ ok (claims, checker)
      → CheckedBy p clock id_token nonce first checker claims
  recheck-CheckedBy p id_token nonce clock first cache e (err m, cache') claims checker refused he
        h =
      absurd (err-ne-ok h)
  recheck-CheckedBy p id_token nonce clock first cache e (ok rediscovered, cache') claims checker
        refused he h =
      of (o.claims id_token rediscovered nonce) refl h
    where
      of :
          (r : Result Text Claims)
          → o.claims id_token rediscovered nonce ≡ r
          → (checked o rediscovered cache' (in_context (codes "id token") r)).0
            ≡ ok (claims, checker)
          → CheckedBy p clock id_token nonce first checker claims
      of (err m) e' h' = absurd (err-ne-ok h')
      of (ok found) e' h' =
          let e'' = ok_inj h' in
          (
            ap (λ c. o.claims id_token c nonce) (sym (ap (λ r. r.1) e''))
                ∙ (e' ∙ ap ok (ap (λ r. r.0) e'')),
            inr (e, cache, refused, ap (λ r. r.0) he ∙ ap ok (ap (λ r. r.1) e'')),
          )

  check_claims-CheckedBy :
      (p : OidcProvider o) (id_token : IdToken) (nonce : Text) (clock : Clock) (first : Client o)
      (cache : Cached o) (r : Result Text Claims) (claims : Claims) (checker : Client o)
      → o.claims id_token first nonce ≡ r
      → (or_recheck o p id_token nonce clock first cache r).0 ≡ ok (claims, checker)
      → CheckedBy p clock id_token nonce first checker claims
  check_claims-CheckedBy p id_token nonce clock first cache (ok found) claims checker e h =
      let e' = ok_inj h in
      (
        ap (λ c. o.claims id_token c nonce) (sym (ap (λ r. r.1) e'))
            ∙ (e ∙ ap ok (ap (λ r. r.0) e')),
        inl (sym (ap (λ r. r.1) e')),
      )
  check_claims-CheckedBy p id_token nonce clock first cache (err m) claims checker e h =
      recheck-CheckedBy p id_token nonce clock first cache m (client o p true clock cache) claims
        checker e refl h

  pub check_claims_lem :
      (p : OidcProvider o) (id_token : IdToken) (nonce : Text) (clock : Clock) (first : Client o)
      (cache : Cached o) (claims : Claims) (checker : Client o)
      → (check_claims o p id_token nonce clock first cache).0 ≡ ok (claims, checker)
      → CheckedBy p clock id_token nonce first checker claims
  unfolding check_claims
  check_claims_lem p id_token nonce clock first cache claims checker h =
      check_claims-CheckedBy p id_token nonce clock first cache (o.claims id_token first nonce)
        claims checker refl h

  -- The code was exchanged, with the verifier remembered, for a response that has the ID token.
  abbrev pub Redeemed : Client o → Text → PendingLogin → TokenResponse → IdToken → Type 0
  Redeemed first code pending token id_token =
      (o.token_endpoint first ≡ ok tt)
      × (o.request_token first code pending.pkce_verifier ≡ ok token)
      × (o.id_token token ≡ some id_token)

  some-of_or_err : (e : Text) (r : Option IdToken) (a : IdToken) → or_err o e r ≡ ok a → r ≡ some a
  some-of_or_err e none a h = absurd (err-ne-ok h)
  some-of_or_err e (some b) a h = ap some (ok_inj h)

  pub redeem-Redeemed :
      (first : Client o) (code : Text) (pending : PendingLogin) (token : TokenResponse)
      (id_token : IdToken)
      → redeem o first code pending ≡ ok (token, id_token)
      → Redeemed first code pending token id_token
  unfolding redeem
  redeem-Redeemed first code pending token id_token h =
      let (_, endpoint, h1) =
        bind-ok (in_context (codes "token endpoint") (o.token_endpoint first)) _ (token, id_token)
          h in
      let (token', response, h2) =
        bind-ok
          (chain_in (codes "token exchange") (o.request_token first code pending.pkce_verifier)) _
          (token, id_token) h1 in
      let (id_token', present, h3) =
        bind-ok (or_err o (codes "token response has no id_token") (o.id_token token')) _
          (token, id_token) h2 in
      let e = ok_inj h3 in
      (
        ok-of_context (codes "token endpoint") (o.token_endpoint first) tt endpoint,
        ok-of_chain (codes "token exchange") (o.request_token first code pending.pkce_verifier)
              token' response
            ∙ ap (λ r. ok r.0) e,
        ap (λ r. o.id_token r.0) (sym e)
            ∙ (some-of_or_err (codes "token response has no id_token") (o.id_token token') id_token'
                  present
                ∙ ap (λ r. some r.1) e),
      )

  -- The claims have no hash of the access token, or the one that its algorithm and key make of it.
  abbrev pub HashMatches : TokenResponse → IdToken → Claims → Client o → Type 0
  HashMatches token id_token claims checker =
      (o.access_token_hash claims ≡ none)
      ⊎ ((expected actual : Text) × (alg : o.Alg) × (key : o.Key) × (o.access_token_hash claims
            ≡ some expected)
          × (o.signing_alg id_token ≡ ok alg)
          × (o.signing_key id_token checker ≡ ok key)
          × (o.hash_of (o.access_token token) alg key ≡ ok actual)
          × (o.hash_eq actual expected ≡ true))

  true-of_ok :
      (same : Bool) (e : Text)
      → ◌≡◌ {A = Result Text Unit} (if same then ok tt else err e) (ok tt)
      → same ≡ true
  true-of_ok true e h = refl
  true-of_ok false e h = absurd (err-ne-ok h)

  matches_hash-HashMatches :
      (token : TokenResponse) (id_token : IdToken) (claims : Claims) (checker : Client o)
      (hash : Option Text)
      → o.access_token_hash claims ≡ hash
      → matches_hash o token id_token checker hash ≡ ok tt
      → HashMatches token id_token claims checker
  matches_hash-HashMatches token id_token claims checker none e h = inl e
  matches_hash-HashMatches token id_token claims checker (some expected) e h =
      let (alg, signed, h1) =
        bind-ok (in_context (codes "id token alg") (o.signing_alg id_token)) _ tt h in
      let (key, keyed, h2) =
        bind-ok (in_context (codes "id token key") (o.signing_key id_token checker)) _ tt h1 in
      let (actual, hashed, h3) =
        bind-ok (in_context (codes "at_hash") (o.hash_of (o.access_token token) alg key)) _ tt h2 in
      inr (
        expected,
        actual,
        alg,
        key,
        e,
        ok-of_context (codes "id token alg") (o.signing_alg id_token) alg signed,
        ok-of_context (codes "id token key") (o.signing_key id_token checker) key keyed,
        ok-of_context (codes "at_hash") (o.hash_of (o.access_token token) alg key) actual hashed,
        true-of_ok (o.hash_eq actual expected) (hash_mismatch o) h3,
      )

  pub check_hash-HashMatches :
      (token : TokenResponse) (id_token : IdToken) (claims : Claims) (checker : Client o)
      → check_hash o token id_token claims checker ≡ ok tt
      → HashMatches token id_token claims checker
  unfolding check_hash
  check_hash-HashMatches token id_token claims checker h =
      matches_hash-HashMatches token id_token claims checker (o.access_token_hash claims) refl h

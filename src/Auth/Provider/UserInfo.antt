-- ===== src/Auth/Provider/UserInfo.antt =====
-- `OAuth2Provider` of crates/muxa-auth/src/provider.rs: what stands behind an identity.
use muxa.Prelude.{
  ◌⊎◌, inl, inr, Bool-cases, arith, ◌≡◌, ◌≢◌, refl, false, not, Option, none, some, [], ◌∷◌,
}
use muxa.Prelude.Text.{is_empty, Text, codes}
use muxa.Prelude.Effects.{ok, bind-ok, ok_inj}
use mathlib.Core.Path.{subst}
use muxa.Prelude.Assoc.{keep_if}
use muxa.Auth.Identity.{ExternalIdentity}
use muxa.Auth.Pending.{PendingLogin}
use muxa.Auth.Provider.Contexts.{ok-of_chain, ok-of_context}
use muxa.Auth.Provider.{in_context, chain_in}
use muxa.Auth.Provider.{Scalar, string, number, neither}
use muxa.Auth.Provider.OAuth2.{
  subject_in, OAuth, Wire, OAuth2Provider, subject, string_field, no_field, or_err, identify,
  as_str,
}

some-of_or_err :
    (o : OAuth) (e : Text) (r : Option Text) (a : Text) → or_err o e r ≡ ok a → r ≡ some a
some-of_or_err o e none a h = absurd cc
some-of_or_err o e (some b) a h = cc

module _ (o : OAuth) where
  open o use {Value}

  -- The profile has the field, and the subject is its string, which is not empty, or its number.
  abbrev pub IsSubject : Text → Value → Text → Type 0
  IsSubject field profile id =
      (value : Value) × (o.get profile field ≡ some value)
      × (((o.scalar value ≡ string id) × (is_empty id ≡ false)) ⊎ (o.scalar value ≡ number id))

  IsSubject-of_scalar :
      (scalar : Scalar) (id : Text)
      → subject_in o (some scalar) ≡ some id
      → ((scalar ≡ string id) × (is_empty id ≡ false)) ⊎ (scalar ≡ number id)
  IsSubject-of_scalar (string s) id h = elim (Bool-cases (is_empty s)) [
    | inl empty ↦ absurd (ground (arith, empty))
    | inr full ↦ inl (ground (arith, full), ground (arith, full))
  ]
  IsSubject-of_scalar (number s) id h = inr (ground (arith, h))
  IsSubject-of_scalar neither id h = absurd cc

  IsSubject-of_value :
      (field : Text) (profile : Value) (id : Text) (value : Option Value)
      → o.get profile field ≡ value
      → subject_in o (elim value [ none ↦ none | some v ↦ some (o.scalar v) ]) ≡ some id
      → IsSubject field profile id
  IsSubject-of_value field profile id none e h = absurd cc
  IsSubject-of_value field profile id (some value) e h =
      (value, e, IsSubject-of_scalar (o.scalar value) id h)

  IsSubject-of_subject :
      (field : Text) (profile : Value) (id : Text)
      → subject o field profile ≡ some id
      → IsSubject field profile id
  unfolding subject
  IsSubject-of_subject field profile id h =
      IsSubject-of_value field profile id (o.get profile field) refl h

  -- The profile has the field, with a string in it that is not empty.
  abbrev pub HasString : Value → Text → Text → Type 0
  HasString profile field s =
      (value : Value) × (o.get profile field ≡ some value) × (o.scalar value ≡ string s) × (s ≢ [])

  -- The string that the profile has in a configured field; none where no field is configured, or
  -- where it has none there.
  abbrev pub FieldOf : Value → Option Text → Option Text → Type 0
  FieldOf profile field (some s) = (name : Text) × (field ≡ some name) × HasString profile name s
  FieldOf profile field none =
      (name : Text) → field ≡ some name → (s : Text) → ¬ HasString profile name s

  in_scalar :
      (profile : Value) (name : Text) (value : Value) (scalar : Scalar)
      → o.get profile name ≡ some value
      → o.scalar value ≡ scalar
      → FieldOf profile (some name) (keep_if (λ s. not (is_empty s)) (as_str o scalar))
  in_scalar profile name value (string []) e k =
      λ field same s (v, g, c, full). ground (arith, e, k, same, g, c, full)
  in_scalar profile name value (string (c ∷ s)) e k = (name, refl, (value, e, k, λ h. cc))
  in_scalar profile name value (number n) e k =
      λ field same s (v, g, c, full). ground (arith, e, k, same, g, c)
  in_scalar profile name value neither e k =
      λ field same s (v, g, c, full). ground (arith, e, k, same, g, c)

  in_field :
      (profile : Value) (name : Text) (value : Option Value)
      → o.get profile name ≡ value
      → FieldOf profile (some name) (elim value [
        | none ↦ none
        | some v ↦ keep_if (λ s. not (is_empty s)) (as_str o (o.scalar v))
      ])
  in_field profile name none e = λ field same s (v, g, c, full). ground (arith, e, same, g)
  in_field profile name (some value) e = in_scalar profile name value (o.scalar value) e refl

  string_field-FieldOf :
      (profile : Value) (field : Option Text) → FieldOf profile field (string_field o profile field)
  unfolding string_field
  string_field-FieldOf profile none = λ field same s h. ground (arith, same)
  string_field-FieldOf profile (some name) = in_field profile name (o.get profile name) refl

  -- What `identify` has seen when it gives an identity.
  abbrev pub Seen :
      Wire o → Text → PendingLogin → OAuth2Provider o → ExternalIdentity Value → Type 0
  Seen wire code pending p identity =
      (token : Text) × (body : o.Body) × (wire.exchange_code p.client code pending.pkce_verifier
        ≡ ok token)
      × (wire.userinfo p.userinfo_url token ≡ ok body)
      × (o.json body ≡ ok identity.profile)
      × IsSubject p.subject_field identity.profile identity.subject
      × (identity.provider ≡ p.id)
      × FieldOf identity.profile p.email_field identity.email
      × (identity.email_verified ≡ false)
      × FieldOf identity.profile p.name_field identity.name

  -- Where `identify` gives an identity, the code was exchanged with the verifier that was remembered,
  -- and the userinfo was asked with the token received; the subject is the non-empty string, or the
  -- number, that the profile has in the configured field; the identity names this provider, its email
  -- is never taken as verified; and email and name are the non-empty strings that the profile has in
  -- their configured fields, and absent exactly where it has none.
  pub identify-Seen :
      (wire : Wire o) (code : Text) (pending : PendingLogin) (p : OAuth2Provider o)
      (identity : ExternalIdentity Value)
      → identify o wire code pending p ≡ ok identity
      → Seen wire code pending p identity
  unfolding identify
  identify-Seen wire code pending p identity h =
      let (token, exchanged, h1) =
        bind-ok
          (chain_in (codes "token exchange")
            (wire.exchange_code p.client code pending.pkce_verifier))
          _ identity h in
      let (body, sent, h2) =
        bind-ok (in_context (codes "userinfo") (wire.userinfo p.userinfo_url token)) _ identity
          h1 in
      let (profile, read, h3) =
        bind-ok (in_context (codes "userinfo body") (o.json body)) _ identity h2 in
      let (found, named, h4) =
        bind-ok (or_err o (no_field o p.subject_field) (subject o p.subject_field profile)) _
          identity h3 in
      subst (Seen wire code pending p) (ok_inj h4) (
        token,
        body,
        ok-of_chain (codes "token exchange")
            (wire.exchange_code p.client code pending.pkce_verifier) token exchanged,
        ok-of_context (codes "userinfo") (wire.userinfo p.userinfo_url token) body sent,
        ok-of_context (codes "userinfo body") (o.json body) profile read,
        IsSubject-of_subject p.subject_field profile found (
            some-of_or_err o (no_field o p.subject_field) (subject o p.subject_field profile) found
              named),
        refl,
        string_field-FieldOf profile p.email_field,
        refl,
        string_field-FieldOf profile p.name_field,
      )

-- ===== src/Auth/Csrf/Rule.antt =====
-- The rule that the head of crates/muxa-auth/src/csrf.rs states, and `allowed` against it.
use muxa.Prelude.{
  ◌++◌, ℕ, ◌≡◌, ◌≢◌, refl, ◌↔◌, ◌⊎◌, inl, inr, true, Option, none, some, List, [], ◌∷◌, any,
  keep_some, arith, Bool-cases, Option-cases, if◌then◌else◌,
}
use muxa.Prelude.Text.{Text, codes, decimal, ◌==◌, eq_ignore_ascii_case}
use muxa.Prelude.Text.Laws.{==_iff, ==_refl}
use muxa.Auth.Csrf.{
  Method, get, head, options, other, Urls, Headers, forbidden, from_next, ◌>>=◌, TrustedOrigins,
  new, normalize, contains, origin_host, same_host, is_safe, trusted_origin, allowed, guard,
}

module _ (u : Urls) where
  -- The origin of the address and a listed one have one serialized form.
  abbrev pub Lists : List Text → Text → Type 0
  Lists [] o = ⊥
  Lists (origin ∷ origins) o = (normalize u origin ≡ some o) ⊎ Lists origins o

  member-keep_some :
      (origins : List Text) (o : Text)
      → (any (λ t. t == o) (keep_some (normalize u) origins) ≡ true) ↔ Lists origins o
  member-keep_some [] o = (λ h. cc, λ h. absurd h)
  member-keep_some (origin ∷ origins) o = elim (Option-cases (normalize u origin)) [
    | inl bad ↦ (
      λ h. ground (arith, bad, (member-keep_some origins o).0),
      λ h. ground (arith, bad, (member-keep_some origins o).1),
    )
    | inr (t, good) ↦ (
      λ h. ground (arith, good, ==_iff t o, (member-keep_some origins o).0),
      λ h. ground (arith, good, ==_iff t o, (member-keep_some origins o).1),
    )
  ]

  -- An origin is trusted exactly when its serialized form is that of a configured origin.
  contains-new_iff :
      (origins : List Text) (origin : Text)
      → (contains u (new u origins) origin ≡ true)
        ↔ ((o : Text) × (normalize u origin ≡ some o) × Lists origins o)
  unfolding contains new
  contains-new_iff origins origin = elim (Option-cases (normalize u origin)) [
    | inl bad ↦ (λ h. ground (arith, bad), λ (o, e, h). ground (arith, bad, e))
    | inr (t, good) ↦ (
      λ h. (t, good, (member-keep_some origins t).0 (ground (arith, good))),
      λ (o, e, h). ground (arith, good, e, (member-keep_some origins o).1 h),
    )
  ]

  -- The serialized origin of an address.
  abbrev pub SerializesTo : Text → Text → Type 0
  SerializesTo address o =
      (url : u.Url) × (u.parse address ≡ some url) × (u.tuple_origin url ≡ some o)

  -- One of the configured origins has the serialized form `o`.
  abbrev pub Configured : List Text → Text → Type 0
  Configured [] o = ⊥
  Configured (origin ∷ origins) o = SerializesTo origin o ⊎ Configured origins o

  normalize_iff : (address o : Text) → (normalize u address ≡ some o) ↔ SerializesTo address o
  unfolding normalize
  normalize_iff address o = elim (Option-cases (u.parse address)) [
    | inl bad ↦ (λ h. ground (arith, bad), λ (url, p, q). ground (arith, bad, p))
    | inr (url, good) ↦
        (λ h. (url, good, ground (arith, good, h)), λ (url', p, q). ground (arith, good, p, q))
  ]

  Lists-iff : (origins : List Text) (o : Text) → Lists origins o ↔ Configured origins o
  Lists-iff [] o = (λ h. h, λ h. h)
  Lists-iff (origin ∷ origins) o = (
    λ h. elim h [
      | inl e ↦ inl ((normalize_iff origin o).0 e)
      | inr l ↦ inr ((Lists-iff origins o).0 l)
    ],
    λ h. elim h [
      | inl e ↦ inl ((normalize_iff origin o).1 e)
      | inr l ↦ inr ((Lists-iff origins o).1 l)
    ],
  )

  -- The address has the serialized form of a configured origin.
  abbrev pub IsTrusted : List Text → Text → Type 0
  IsTrusted origins origin = (o : Text) × SerializesTo origin o × Configured origins o

  contains_iff :
      (origins : List Text) (origin : Text)
      → (contains u (new u origins) origin ≡ true) ↔ IsTrusted origins origin
  contains_iff origins origin = (
    λ h.
        let (o, e, l) = (contains-new_iff origins origin).0 h in
        (o, (normalize_iff origin o).0 e, (Lists-iff origins o).0 l),
    λ (o, e, l).
        (contains-new_iff origins origin).1
          (o, (normalize_iff origin o).1 e, (Lists-iff origins o).1 l),
  )

  -- The host of an address, with the port behind a colon where it has one of its own.
  abbrev pub HostOf : u.Url → Text → Type 0
  HostOf url name =
      (host : Text) × (u.host_str url ≡ some host)
      × (((u.port url ≡ none) × (name ≡ host))
          ⊎ ((port : ℕ) × (u.port url ≡ some port) × (name ≡ host ++ b':' ∷ decimal port)))

  origin_host_iff : (url : u.Url) (name : Text) → (origin_host u url ≡ some name) ↔ HostOf url name
  unfolding origin_host
  origin_host_iff url name = elim (Option-cases (u.host_str url)) [
    | inl bare ↦ (λ h. ground (arith, bare), λ (host, e, _). ground (arith, bare, e))
    | inr (host, known) ↦ elim (Option-cases (u.port url)) [
      | inl own ↦ (
        λ h. (host, known, inl (own, ground (arith, known, own, h))),
        λ (host', e, rest). elim rest [
          | inl (_, n) ↦ ground (arith, known, own, e, n)
          | inr (port, p, _) ↦ ground (arith, own, p)
        ],
      )
      | inr (port, open_port) ↦ (
        λ h. (host, known, inr (port, open_port, ground (arith, known, open_port, h))),
        λ (host', e, rest). elim rest [
          | inl (p, _) ↦ ground (arith, open_port, p)
          | inr (port', p, n) ↦ ground (arith, known, open_port, e, p, n)
        ],
      )
    ]
  ]

  abbrev pub IsSafe : Method → Type 0
  IsSafe method = (method ≡ get) ⊎ (method ≡ head) ⊎ (method ≡ options)

  is_safe_iff : (method : Method) → (is_safe u method ≡ true) ↔ IsSafe method
  is_safe_iff get = (λ h. inl refl, λ h. refl)
  is_safe_iff head = (λ h. inr (inl refl), λ h. refl)
  is_safe_iff options = (λ h. inr (inr refl), λ h. refl)
  is_safe_iff (other name) = (
    λ h. ground (arith, h),
    λ h. elim h [
      | inl e ↦ ground (arith, e)
      | inr (inl e) ↦ ground (arith, e)
      | inr (inr e) ↦ ground (arith, e)
    ],
  )

  module _ (method : Method) (headers : Headers) (origins : List Text) where
    abbrev trusted : TrustedOrigins u
    trusted = new u origins

    -- The ways to pass, as the file's head lists them.
    pub data Passes : Type 0 where
      safe_method : IsSafe method → Passes
      same_origin : headers.sec_fetch_site ≡ some (codes "same-origin") → Passes
      user_started : headers.sec_fetch_site ≡ some (codes "none") → Passes
      from_trusted :
          (origin : Text)
          → (headers.origin >>= u.to_str) ≡ some origin
          → IsTrusted origins origin
          → Passes
      no_origin : headers.sec_fetch_site ≡ none → (headers.origin >>= u.to_str) ≡ none → Passes
      own_host :
          headers.sec_fetch_site ≡ none
          → (origin : Text) → (headers.origin >>= u.to_str) ≡ some origin
          → (url : u.Url) (name host : Text) → u.parse origin ≡ some url
          → HostOf url name
          → (headers.host >>= u.to_str) ≡ some host
          → eq_ignore_ascii_case name host ≡ true
          → Passes

    abbrev OwnHost : Text → Option Text → Type 0
    OwnHost origin value =
        (url : u.Url) × (name : Text) × (host : Text) × (u.parse origin ≡ some url)
        × (origin_host u url ≡ some name)
        × (value ≡ some host)
        × (eq_ignore_ascii_case name host ≡ true)

    OwnHost-of_same_host :
        (origin : Text) (value : Option Text)
        → same_host u origin value ≡ true
        → OwnHost origin value
    unfolding same_host
    OwnHost-of_same_host origin none h = elim (Option-cases (u.parse origin)) [
      | inl p ↦ ground (arith, p)
      | inr (url, p) ↦ ground (arith, p)
    ]
    OwnHost-of_same_host origin (some host) h = elim (Option-cases (u.parse origin)) [
      | inl p ↦ ground (arith, p)
      | inr (url, p) ↦ elim (Option-cases (origin_host u url)) [
        | inl q ↦ ground (arith, p, q)
        | inr (name, q) ↦ (url, name, host, p, q, refl, ground (arith, p, q))
      ]
    ]

    same_host_of :
        (origin : Text) (url : u.Url) (name host : Text) (value : Option Text)
        → u.parse origin ≡ some url
        → origin_host u url ≡ some name
        → value ≡ some host
        → eq_ignore_ascii_case name host ≡ true
        → same_host u origin value ≡ true
    unfolding same_host
    same_host_of origin url name host value p q r e = rw r (rw (p, same_host) (rw q e))

    Passes_of_allowed : allowed u method headers trusted ≡ true → Passes
    unfolding allowed
    Passes_of_allowed h = elim (Bool-cases (is_safe u method)) [
      | inl safe ↦ safe_method ((is_safe_iff method).0 safe)
      | inr changes ↦ elim (Option-cases headers.sec_fetch_site) [
        | inr (site, e) ↦ elim (Bool-cases (site == codes "same-origin")) [
          | inl s ↦ same_origin (ground (arith, e, s, ==_iff site (codes "same-origin")))
          | inr s ↦ elim (Bool-cases (site == codes "none")) [
            | inl n ↦ user_started (ground (arith, e, n, ==_iff site (codes "none")))
            | inr n ↦ elim (Option-cases (headers.origin >>= u.to_str)) [
              | inl o ↦ ground (arith, h, changes, e, s, n, o)
              | inr (origin, o) ↦
                  from_trusted origin o
                    ((contains_iff origins origin).0 (ground (arith, h, changes, e, s, n, o)))
            ]
          ]
        ]
        | inl e ↦ elim (Option-cases (headers.origin >>= u.to_str)) [
          | inl o ↦ no_origin e o
          | inr (origin, o) ↦ elim (Bool-cases (contains u trusted origin)) [
            | inl t ↦ from_trusted origin o ((contains_iff origins origin).0 t)
            | inr t ↦
                let (url, name, host, p, q, r, m) =
                  OwnHost-of_same_host origin (headers.host >>= u.to_str)
                    (ground (arith, h, changes, e, o, t)) in
                own_host e origin o url name host p ((origin_host_iff url name).0 q) r m
          ]
        ]
      ]
    ]

    allowed_of_Passes : Passes → allowed u method headers trusted ≡ true
    unfolding allowed
    allowed_of_Passes (safe_method e) = ground (arith, (is_safe_iff method).1 e)
    allowed_of_Passes (same_origin e) = ground (arith, e, ==_refl (codes "same-origin"))
    allowed_of_Passes (user_started e) = ground (arith, e, ==_refl (codes "none"))
    allowed_of_Passes (from_trusted origin e t) =
        ground (arith, e, (contains_iff origins origin).1 t)
    allowed_of_Passes (no_origin e o) = ground (arith, e, o)
    allowed_of_Passes (own_host e origin o url name host p q r m) = ground (
      arith,
      e,
      o,
      same_host_of origin url name host (headers.host >>= u.to_str) p
          ((origin_host_iff url name).1 q) r m,
    )

    -- A request passes exactly if its method is `GET`, `HEAD` or `OPTIONS`, or `Sec-Fetch-Site` is
    -- `same-origin` or `none`, or its readable `Origin` has the serialized form of a configured
    -- origin, or, without `Sec-Fetch-Site`, it has no readable `Origin` or one whose host, with the
    -- port where it has its own, is, but for case, that of `Host`.
    pub allowed_iff : (allowed u method headers trusted ≡ true) ↔ Passes
    allowed_iff = (Passes_of_allowed, allowed_of_Passes)

  -- A state-changing request whose `Sec-Fetch-Site` is neither `same-origin` nor `none` reaches
  -- the app exactly if it has a readable `Origin` that is trusted, and is refused else.
  guard_refuses :
      (name site : Text) (headers : Headers) (trusted : TrustedOrigins u)
      → headers.sec_fetch_site ≡ some site
      → site ≢ codes "same-origin"
      → site ≢ codes "none"
      → guard u (other name) headers trusted
        ≡ (if trusted_origin u trusted (headers.origin >>= u.to_str) then from_next else forbidden)
  unfolding guard allowed
  guard_refuses name site headers trusted e s n =
      ground (arith, e, ==_iff site (codes "same-origin"), ==_iff site (codes "none"))

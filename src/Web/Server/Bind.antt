-- ===== src/Web/Server/Bind.antt =====
-- `bind` of crates/muxa-web/src/lib.rs: which address the server listens on.
use muxa.Prelude.{
  Bool, ◌≢◌, true, false, Bool-cases, Option-cases, eqb, arith, if◌then◌else◌, ℕ, ◌≡◌, refl, sym,
  ap, ◌∙◌, ◌⊎◌, inl, inr, Option, none, some, List, [], ◌∷◌, ◌++◌, All,
}
use mathlib.Core.Path.{subst}
use muxa.Prelude.Text.{Text, str_ops}
use muxa.Prelude.Effects.{Result, ok, err, Result-cases, bind-ok, bind-err}
use muxa.Web.Server.{unwrap_or, strip_suffix, bind_host, Net, listen_on, bind_from, bind}

strip_suffix_of : (d : ℕ) (s inner : Text) → strip_suffix d s ≡ some inner → s ≡ inner ++ d ∷ []
unfolding strip_suffix
strip_suffix_of d [] inner h = ground (arith, h)
strip_suffix_of d (c ∷ []) inner h = ground (arith, h)
strip_suffix_of d (c ∷ e ∷ s) inner h = elim (Option-cases (strip_suffix d (e ∷ s))) [
  | inl missed ↦ ground (arith, h, missed)
  | inr (init, ends) ↦ ground (arith, h, ends, strip_suffix_of d (e ∷ s) init ends)
]

strip_suffix-append : (d : ℕ) (inner : Text) → strip_suffix d (inner ++ d ∷ []) ≡ some inner
unfolding strip_suffix
strip_suffix-append d [] = ground arith
strip_suffix-append d (c ∷ []) = ground (arith, strip_suffix-append d [])
strip_suffix-append d (c ∷ e ∷ s) = rw (strip_suffix-append d (e ∷ s)) refl

-- The host without the brackets around it; one that is not in brackets stays.
abbrev pub Unbracketed : Text → Text → Type 0
Unbracketed host name =
    (host ≡ b'[' ∷ (name ++ b']' ∷ []))
    ⊎ (((inner : Text) → host ≢ b'[' ∷ (inner ++ b']' ∷ [])) × (name ≡ host))

bind_host-bracket :
    (rest : Text) → bind_host (b'[' ∷ rest) ≡ unwrap_or (strip_suffix b']' rest) (b'[' ∷ rest)
unfolding bind_host str_ops
bind_host-bracket rest = refl

bind_host-other : (c : ℕ) (rest : Text) → c ≢ b'[' → bind_host (c ∷ rest) ≡ c ∷ rest
unfolding bind_host str_ops
bind_host-other c rest h = ground (arith, h)

bind_host-Unbracketed : (host : Text) → Unbracketed host (bind_host host)
unfolding bind_host str_ops
bind_host-Unbracketed [] = inr (λ inner e. ground (arith, e), refl)
bind_host-Unbracketed (c ∷ rest) = elim (Bool-cases (eqb c b'[')) [
  | inr other ↦
      let ne : c ≢ b'[' = ground (arith, other) in
      inr (λ inner e. ground (arith, ne, e), bind_host-other c rest ne)
  | inl bracket ↦ elim (Option-cases (strip_suffix b']' rest)) [
    | inr (inner, ends) ↦
        let same : c ≡ b'[' = ground (arith, bracket) in
        inl (
          subst (λ d. d ∷ rest ≡ b'[' ∷ (bind_host (d ∷ rest) ++ b']' ∷ [])) (sym same)
            (rw (bind_host-bracket rest)
              (rw ends (ap {B = Text} (λ t. b'[' ∷ t) (strip_suffix_of b']' rest inner ends)))))
    | inl missed ↦
        let same : c ≡ b'[' = ground (arith, bracket) in
        inr (
          λ inner e. ground (arith, missed, e, strip_suffix-append b']' inner),
          subst (λ d. bind_host (d ∷ rest) ≡ d ∷ rest) (sym same)
              (rw (bind_host-bracket rest) (rw missed refl)),
        )
  ]
]

module _ (net : Net) where
  open net use {Addr, Socket, Listener, Error}

  -- A socket of the address's family.
  abbrev pub Opens : Addr → Result Error Socket → Type 0
  Opens addr r =
      ((net.is_ipv4 addr ≡ true) × (net.new_v4 ≡ r))
      ⊎ ((net.is_ipv4 addr ≡ false) × (net.new_v6 ≡ r))

  -- A listener on the address: opened, made to reuse the address, bound to it and listening.
  pub record Listens (backlog : ℕ) (addr : Addr) (listener : Listener) : Type 0 where
    pub socket : Socket
    pub opened : Opens addr (ok socket)
    pub reusable : Socket
    pub reuses : net.set_reuseaddr socket ≡ ok reusable
    pub bound : Socket
    pub binds : net.bind addr reusable ≡ ok bound
    pub listens : net.listen backlog bound ≡ ok listener

  -- The step at which it fails to listen on the address.
  pub data FailsWith (backlog : ℕ) (addr : Addr) (e : Error) : Type 0 where
    opening : Opens addr (err e) → FailsWith backlog addr e
    reusing :
        (socket : Socket)
        → Opens addr (ok socket)
        → net.set_reuseaddr socket ≡ err e
        → FailsWith backlog addr e
    binding :
        (socket reusable : Socket)
        → Opens addr (ok socket)
        → net.set_reuseaddr socket ≡ ok reusable
        → net.bind addr reusable ≡ err e
        → FailsWith backlog addr e
    listening :
        (socket reusable bound : Socket)
        → Opens addr (ok socket)
        → net.set_reuseaddr socket ≡ ok reusable
        → net.bind addr reusable ≡ ok bound
        → net.listen backlog bound ≡ err e
        → FailsWith backlog addr e

  Opens-of_choice :
      (addr : Addr) (r : Result Error Socket)
      → (if net.is_ipv4 addr then net.new_v4 else net.new_v6) ≡ r
      → Opens addr r
  Opens-of_choice addr r h = go (net.is_ipv4 addr) refl h
    where
      go :
          (four : Bool)
          → net.is_ipv4 addr ≡ four
          → (if four then net.new_v4 else net.new_v6) ≡ r
          → Opens addr r
      go true e k = inl (e, k)
      go false e k = inr (e, k)

  Listens-of_ok :
      (addr : Addr) (backlog : ℕ) (listener : Listener)
      → listen_on net addr backlog ≡ ok listener
      → Listens backlog addr listener
  unfolding listen_on
  Listens-of_ok addr backlog listener h =
      let (socket, o, h1) =
        bind-ok (if net.is_ipv4 addr then net.new_v4 else net.new_v6) _ listener h in
      let (reusable, r, h2) = bind-ok (net.set_reuseaddr socket) _ listener h1 in
      let (bound, b, h3) = bind-ok (net.bind addr reusable) _ listener h2 in
      record {
        socket = socket;
        opened = Opens-of_choice addr (ok socket) o;
        reusable = reusable;
        reuses = r;
        bound = bound;
        binds = b;
        listens = h3;
      }

  FailsWith-of_err :
      (addr : Addr) (backlog : ℕ) (e : Error)
      → listen_on net addr backlog ≡ err e
      → FailsWith backlog addr e
  unfolding listen_on
  FailsWith-of_err addr backlog e h =
      elim (bind-err (if net.is_ipv4 addr then net.new_v4 else net.new_v6) _ e h) [
        | inl o ↦ opening (Opens-of_choice addr (err e) o)
        | inr (socket, o, h1) ↦ elim (bind-err (net.set_reuseaddr socket) _ e h1) [
          | inl r ↦ reusing socket (Opens-of_choice addr (ok socket) o) r
          | inr (reusable, r, h2) ↦ elim (bind-err (net.bind addr reusable) _ e h2) [
            | inl b ↦ binding socket reusable (Opens-of_choice addr (ok socket) o) r b
            | inr (bound, b, h3) ↦
                listening socket reusable bound (Opens-of_choice addr (ok socket) o) r b h3
          ]
        ]
      ]

  -- Nothing can listen on the address.
  abbrev pub Fails : ℕ → Addr → Type 0
  Fails backlog addr = (e : Error) × FailsWith backlog addr e

  abbrev pub Binds : Text → ℕ → List Addr → Option Error → Result Error Listener → Type 0
  Binds host backlog addrs last_err r =
      ((before after : List Addr) × (addr : Addr) × (listener : Listener) × (addrs
          ≡ before ++ addr ∷ after)
        × All (Fails backlog) before
        × Listens backlog addr listener
        × (r ≡ ok listener))
      ⊎ (All (Fails backlog) addrs
          × (((addrs ≡ []) × (r ≡ err (unwrap_or last_err (net.no_address host))))
              ⊎ ((before : List Addr) × (addr : Addr) × (e : Error) × (addrs ≡ before ++ addr ∷ [])
                  × FailsWith backlog addr e
                  × (r ≡ err e))))

  bind_from-found :
      (host : Text) (backlog : ℕ) (addr : Addr) (addrs : List Addr) (last_err : Option Error)
      (listener : Listener)
      → listen_on net addr backlog ≡ ok listener
      → bind_from net host backlog (addr ∷ addrs) last_err ≡ ok listener
  unfolding bind_from
  bind_from-found host backlog addr addrs last_err listener e = rw (e, bind_from) refl

  bind_from-failed :
      (host : Text) (backlog : ℕ) (addr : Addr) (addrs : List Addr) (last_err : Option Error)
      (x : Error)
      → listen_on net addr backlog ≡ err x
      → bind_from net host backlog (addr ∷ addrs) last_err
        ≡ bind_from net host backlog addrs (some x)
  unfolding bind_from
  bind_from-failed host backlog addr addrs last_err x e = rw (e, bind_from) refl

  bind_from-Binds :
      (host : Text) (backlog : ℕ) (addrs : List Addr) (last_err : Option Error)
      → Binds host backlog addrs last_err (bind_from net host backlog addrs last_err)
  unfolding bind_from
  bind_from-Binds host backlog [] last_err = inr (tt, inl (refl, refl))
  bind_from-Binds host backlog (addr ∷ addrs) last_err =
      elim (Result-cases (listen_on net addr backlog)) [
        | inl (listener, e) ↦ inl (
          [],
          addrs,
          addr,
          listener,
          refl,
          tt,
          Listens-of_ok addr backlog listener e,
          bind_from-found host backlog addr addrs last_err listener e,
        )
        | inr (x, e) ↦ elim (bind_from-Binds host backlog addrs (some x)) [
          | inl (before, after, a, l, split, fails, listens, r) ↦ inl (
            addr ∷ before,
            after,
            a,
            l,
            ap {B = List Addr} (λ t. addr ∷ t) split,
            ((x, FailsWith-of_err addr backlog x e), fails),
            listens,
            bind_from-failed host backlog addr addrs last_err x e ∙ r,
          )
          | inr (fails, inl (empty, r)) ↦ inr (
            ((x, FailsWith-of_err addr backlog x e), fails),
            inr (
              [],
              addr,
              x,
              ap {B = List Addr} (λ t. addr ∷ t) empty,
              FailsWith-of_err addr backlog x e,
              bind_from-failed host backlog addr addrs last_err x e ∙ r,
            ),
          )
          | inr (fails, inr (before, a, y, split, failed, r)) ↦ inr (
            ((x, FailsWith-of_err addr backlog x e), fails),
            inr (
              addr ∷ before,
              a,
              y,
              ap {B = List Addr} (λ t. addr ∷ t) split,
              failed,
              bind_from-failed host backlog addr addrs last_err x e ∙ r,
            ),
          )
        ]
      ]

  bind_ok :
      (host : Text) (port backlog : ℕ) (addrs : List Addr)
      → net.lookup_host (bind_host host) port ≡ ok addrs
      → bind net host port backlog ≡ bind_from net host backlog addrs none
  unfolding bind
  bind_ok host port backlog addrs found = rw (found, bind) refl

  -- The host is looked up, without its brackets where it is in brackets. Where that fails, it is the
  -- error; else the server listens on the first address of the host that it can listen on, with a
  -- socket of the address's family that reuses the address, is bound to it and has the backlog, all
  -- addresses before it having failed at some step; and where there is none, the error is that of the
  -- last address, or that the host has no address.
  pub bind_cases :
      (host : Text) (port backlog : ℕ)
      → (name : Text) × Unbracketed host name
        × (((e : Error) × (net.lookup_host name port ≡ err e)
              × (bind net host port backlog ≡ err e))
            ⊎ ((addrs : List Addr) × (net.lookup_host name port ≡ ok addrs)
                × Binds host backlog addrs none (bind net host port backlog)))
  unfolding bind
  bind_cases host port backlog = (
    bind_host host,
    bind_host-Unbracketed host,
    elim (Result-cases (net.lookup_host (bind_host host) port)) [
      | inr (e, failed) ↦ inl (e, failed, rw (failed, bind) refl)
      | inl (addrs, found) ↦ inr (
        addrs,
        found,
        subst (Binds host backlog addrs none) (sym (bind_ok host port backlog addrs found))
            (bind_from-Binds host backlog addrs none),
      )
    ],
  )

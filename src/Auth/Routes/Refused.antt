-- ===== src/Auth/Routes/Refused.antt =====
-- `refuse` of crates/muxa-auth/src/routes.rs: where the browser is sent with a refusal.
use muxa.Prelude.{
  ◌≡◌, refl, ◌⊎◌, inl, inr, ◌↔◌, true, false, Option, none, some, [], ◌∷◌, Bool-cases, arith,
}
use muxa.Prelude.Text.{Text, codes, ◌==◌}
use muxa.Prelude.Text.Laws.{==_iff}
use muxa.Auth.Redirect.{with_query}
use muxa.Auth.Identity.{Refusal}
use muxa.Auth.Routes.{Backend, Flow, Response, redirect, Return, param_or, refuse, asks_link}

module _ (b : Backend) (flow : Flow b) (x : Refusal) where
  -- The refusal's code in its parameter, or the configured one: on the page that a link came from,
  -- and else on the sign-in page, with the page to go on to where it is known.
  abbrev pub SentBack : Option Return → Response → Type 0
  SentBack none r =
      r
      ≡ redirect
          (with_query b.finish flow.sign_in_path ((param_or x.param flow.error_param, x.code) ∷ []))
  SentBack (some to) r =
      ((to.link ≡ true)
        × (r
            ≡ redirect
                (with_query b.finish to.next ((param_or x.param flow.error_param, x.code) ∷ []))))
      ⊎ ((to.link ≡ false)
          × (r
              ≡ redirect (
                  with_query b.finish flow.sign_in_path
                    ((param_or x.param flow.error_param, x.code) ∷ (codes "next", to.next) ∷ []))))

  pub refuse-SentBack : (back : Option Return) → SentBack back (refuse b flow x back)
  unfolding refuse
  refuse-SentBack none = refl
  refuse-SentBack (some to) = elim (Bool-cases to.link) [
    | inl links ↦ inl (links, rw (links, refuse) refl)
    | inr signs ↦ inr (signs, rw (signs, refuse) refl)
  ]

-- The values of the query's `link` that ask for a link.
abbrev pub AsksLink : Option Text → Type 0
AsksLink value = (value ≡ some (codes "1")) ⊎ (value ≡ some (codes "true"))

pub asks_link_iff :
    (b : Backend) (value : Option Text) → (asks_link b value ≡ true) ↔ AsksLink value
asks_link_iff b none = (λ h. ground (arith, h), λ h. elim h [ inl e ↦ cc | inr e ↦ cc ])
asks_link_iff b (some value) = (
  λ h. elim (Bool-cases (value == codes "1")) [
    | inl one ↦ inl (ground (arith, ==_iff value (codes "1"), one))
    | inr other ↦ inr (ground (arith, ==_iff value (codes "true"), other, h))
  ],
  λ h. elim h [
    | inl e ↦ ground (arith, ==_iff value (codes "1"), e)
    | inr e ↦ ground (arith, ==_iff value (codes "true"), e)
  ],
)

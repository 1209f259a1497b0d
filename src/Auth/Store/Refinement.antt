-- ===== src/Auth/Store/Refinement.antt =====
-- crates/muxa-auth/src/store.rs refines a map from ids to sessions that knows no sweeping.
use muxa.Prelude.{
  ℕ, zero, suc, ◌≤◌, ◌≡◌, refl, sym, ap, ◌∙◌, ◌⊎◌, inl, inr, not, Option, none, some, ltb, arith,
  Bool-cases, if◌then◌else◌,
}
use mathlib.Core.Path.{subst}
use muxa.Prelude.Text.{Text, ◌==◌}
use muxa.Prelude.Effects.{Result, ok, err, Result-cases, ok_inj, err-ne-ok}
use muxa.Prelude.Assoc.{keep_if}
use muxa.Auth.Store.{
  Error, decode_error, decoded, Postgres, backend_error, Session, backend, encoded, row_of,
  with_row, answered, connected_state, connected, found, encode, save, delete, delete_expired, load,
  create, create_loop, turn, Created,
}
use muxa.Auth.Store.Laws.{Updated, Failed, Table}

module _ (pg : Postgres) where
  open pg use {State, Data, Value}

  -- The abstract store: what stands under each id. A session past its expiry date may still stand.
  abbrev pub Sessions : Type 0
  Sessions = Text → Option (Value × ℕ)

  abbrev pub put : Text → Option (Value × ℕ) → Sessions → Sessions
  put id row m j = if id == j then row else m j

module _ (pg : Postgres) (t : Table pg) where
  open pg use {State, Data, Value}

  -- A run of operations that succeed, on the table and on the abstract store. A sweep, at a time not
  -- later than `now`, is no step of the abstract store.
  pub data Run (now : ℕ) : State → Sessions pg → Type 0 where
    starts : (s : State) → Run now s (t.rows s)
    saved :
        (session : Session Data) (value : Value) (s s' : State) (m : Sessions pg)
        → Run now s m
        → pg.to_value session.content ≡ ok value
        → save pg session s ≡ (ok tt, s')
        → Run now s' (put pg session.id (some (value, session.expiry_date)) m)
    created :
        (fuel : ℕ) (drawn : ℕ → Text) (session session' : Session Data) (value : Value)
        (s s' : State) (m : Sessions pg)
        → Run now s m
        → pg.to_value session.content ≡ ok value
        → create pg fuel drawn session s ≡ some (ok tt, (session', s'))
        → Run now s' (put pg session'.id (some (value, session'.expiry_date)) m)
    deleted :
        (id : Text) (s s' : State) (m : Sessions pg)
        → Run now s m
        → delete pg id s ≡ (ok tt, s')
        → Run now s' (put pg id none m)
    swept :
        (at : ℕ) (s s' : State) (m : Sessions pg)
        → Run now s m
        → at ≤ now
        → delete_expired pg at s ≡ (ok tt, s')
        → Run now s' m

  abbrev pub live : ℕ → Option (Value × ℕ) → Option (Value × ℕ)
  live now row = keep_if (λ (r : Value × ℕ). ltb now r.1) row

  -- What a statement that succeeded did.
  done_of :
      (P : State → Type 0) (s s' : State) (r : Result Text Unit × State)
      → Failed pg s r ⊎ ((r.0 ≡ ok tt) × P r.1)
      → answered pg r ≡ (ok tt, s')
      → P s'
  done_of P s s' r (inl (e, failed, same)) h =
      absurd (err-ne-ok (sym (ap (backend pg) failed) ∙ ap (λ x. x.0) h))
  done_of P s s' r (inr (fine, p)) h = subst P (ap (λ x. x.1) h) p

  save-Updated :
      (session : Session Data) (v : Value) (s s' : State) (value : Result Text Value)
      (conn : Result Text Unit)
      → value ≡ ok v
      → with_row pg
          (encoded pg value)
          (backend pg conn)
          s
          (λ v. answered pg (pg.upsert (row_of pg session v) s))
          (λ e. (err e, s))
        ≡ (ok tt, s')
      → Updated pg t.rows session.id (some (v, session.expiry_date)) s s'
  save-Updated session v s s' (err e) conn ev h = absurd (err-ne-ok ev)
  save-Updated session v s s' (ok w) (err e) ev h = absurd (err-ne-ok (ap (λ x. x.0) h))
  save-Updated session v s s' (ok w) (ok _) ev h =
      subst (λ x. Updated pg t.rows session.id (some (x, session.expiry_date)) s s') (ok_inj ev)
        (done_of (Updated pg t.rows session.id (some (w, session.expiry_date)) s) s s'
          (pg.upsert (row_of pg session w) s) (t.upsert_law (row_of pg session w) s) h)

  made_inj : {a b : Created pg} → ◌≡◌ {A = Option (Created pg)} (some a) (some b) → a ≡ b
  made_inj h = cc

  -- A creation that succeeds has written the session that it gives back.
  create_loop-Updated :
      (fuel : ℕ) (drawn : ℕ → Text) (v : Value) (session session' : Session Data) (s s' : State)
      → create_loop pg fuel drawn v session s ≡ some (ok tt, (session', s'))
      → Updated pg t.rows session'.id (some (v, session'.expiry_date)) s s'
  unfolding create_loop
  create_loop-Updated zero drawn v session session' s s' h = absurd cc
  create_loop-Updated (suc fuel) drawn v session session' s s' h =
      let w = pg.insert (row_of pg session v) s in
      let rest = create_loop pg fuel (λ n. drawn (suc n)) v (record session { id = drawn 0 }) in
      elim (t.insert_law (row_of pg session v) s) [
        | inl (e, failed, same) ↦ absurd (
            err-ne-ok
              (ap (λ r. r.0) (made_inj (sym (ap (λ r. turn pg session rest (r, w.1)) failed) ∙ h))))
        | inr (inl (new, one, updated)) ↦
            let eq = made_inj (sym (ap (λ r. turn pg session rest (r, w.1)) one) ∙ h) in
            subst
              (λ (p : Session Data × State).
                Updated pg t.rows p.0.id (some (v, p.0.expiry_date)) s p.1)
              (ap (λ r. r.1) eq) updated
        | inr (inr (old, taken, none_inserted, same)) ↦
            subst (λ s0. Updated pg t.rows session'.id (some (v, session'.expiry_date)) s0 s') same
              (create_loop-Updated fuel (λ n. drawn (suc n)) v (record session { id = drawn 0 })
                session' w.1 s' (sym (ap (λ r. turn pg session rest (r, w.1)) none_inserted) ∙ h))
      ]

  create-Updated :
      (fuel : ℕ) (drawn : ℕ → Text) (v : Value) (session session' : Session Data) (s s' : State)
      (value : Result Text Value) (conn : Result Text Unit)
      → value ≡ ok v
      → with_row pg
          (encoded pg value)
          (backend pg conn)
          s
          (λ v. create_loop pg fuel drawn v session s)
          (λ e. some (err e, (session, s)))
        ≡ some (ok tt, (session', s'))
      → Updated pg t.rows session'.id (some (v, session'.expiry_date)) s s'
  create-Updated fuel drawn v session session' s s' (err e) conn ev h = absurd (err-ne-ok ev)
  create-Updated fuel drawn v session session' s s' (ok w) (err e) ev h =
      absurd (err-ne-ok (ap (λ r. r.0) (made_inj h)))
  create-Updated fuel drawn v session session' s s' (ok w) (ok _) ev h =
      subst (λ x. Updated pg t.rows session'.id (some (x, session'.expiry_date)) s s') (ok_inj ev)
        (create_loop-Updated fuel drawn w session session' s s' h)

  connected-done :
      (P : State → Type 0) (s s' : State) (conn : Result Text Unit) (r : Result Text Unit × State)
      → Failed pg s r ⊎ ((r.0 ≡ ok tt) × P r.1)
      → connected_state pg conn s r ≡ (ok tt, s')
      → P s'
  connected-done P s s' (err e) r law h = absurd (err-ne-ok (ap (λ x. x.0) h))
  connected-done P s s' (ok _) r law h = done_of P s s' r law h

  live_put :
      (now : ℕ) (id j : Text) (row a b : Option (Value × ℕ))
      → live now a ≡ live now b
      → live now (if id == j then row else a) ≡ live now (if id == j then row else b)
  live_put now id j row a b e = elim (Bool-cases (id == j)) [
    | inl same ↦ rw same refl
    | inr other ↦ rw other e
  ]

  live_swept :
      (now at : ℕ) (row : Option (Value × ℕ))
      → at ≤ now
      → live now (keep_if (λ (r : Value × ℕ). not (ltb r.1 at)) row) ≡ live now row
  live_swept now at none h = refl
  live_swept now at (some (value, expires)) h = elim (Bool-cases (ltb expires at)) [
    | inl past ↦ ground (arith, past)
    | inr future ↦ ground (arith, future)
  ]

  -- After a run, the table and the abstract store have the same live sessions.
  live_rows :
      (now : ℕ) (s : State) (m : Sessions pg)
      → Run now s m
      → (id : Text) → live now (t.rows s id) ≡ live now (m id)
  unfolding save create delete delete_expired encode
  live_rows now s m (starts _) id = refl
  live_rows now s' _ (saved session value s _ m run ev h) id =
      ap (live now)
        (save-Updated session value s s' (pg.to_value session.content) (pg.get s) ev h id)
      ∙ live_put now session.id id (some (value, session.expiry_date)) (t.rows s id) (m id)
          (live_rows now s m run id)
  live_rows now s' _ (created fuel drawn session session' value s _ m run ev h) id =
      ap (live now) (
        create-Updated fuel drawn value session session' s s' (pg.to_value session.content)
          (pg.get s) ev h id)
      ∙ live_put now session'.id id (some (value, session'.expiry_date)) (t.rows s id) (m id)
          (live_rows now s m run id)
  live_rows now s' _ (deleted gone s _ m run h) id =
      ap (live now) (
        connected-done (Updated pg t.rows gone none s) s s' (pg.get s) (pg.delete_id gone s)
          (t.delete_law gone s) h id)
      ∙ live_put now gone id none (t.rows s id) (m id) (live_rows now s m run id)
  live_rows now s' m (swept at s _ _ run early h) id =
      ap (live now) (
        connected-done
          (λ s'.
            (j : Text) → t.rows s' j ≡ keep_if (λ (r : Value × ℕ). not (ltb r.1 at)) (t.rows s j))
          s s' (pg.get s) (pg.delete_before at s) (t.delete_before_law at s) h id)
      ∙ (live_swept now at (t.rows s id) early ∙ live_rows now s m run id)

  -- The pool has no connection, or the query fails.
  abbrev pub FailsToLoad : ℕ → Text → State → Text → Type 0
  FailsToLoad now id s e = (pg.get s ≡ err e) ⊎ (pg.first id now s ≡ err e)

  found_or_failed :
      (now : ℕ) (id : Text) (s : State) (m : Sessions pg) (conn : Result Text Unit)
      → pg.get s ≡ conn
      → live now (t.rows s id) ≡ live now (m id)
      → ((e : Text) × FailsToLoad now id s e
          × (connected pg conn (found pg id (pg.first id now s)) ≡ err (backend_error e)))
        ⊎ (connected pg conn (found pg id (pg.first id now s)) ≡ found pg id (ok (live now (m id))))
  found_or_failed now id s m (err e) ec h = inl (e, inl ec, refl)
  found_or_failed now id s m (ok _) ec h = elim (t.first_law id now s) [
    | inl (e, failed) ↦ inl (e, inr failed, ap (found pg id) failed)
    | inr answer ↦ inr (ap (found pg id) (answer ∙ ap ok h))
  ]

  -- The session that a live row holds, decoded.
  abbrev pub SessionOf : Text → Option (Value × ℕ) → Result Error (Option (Session Data)) → Type 0
  SessionOf id none answer = answer ≡ ok none
  SessionOf id (some (value, expires)) answer =
      ((e : Text) × (pg.from_value value ≡ err e) × (answer ≡ err (decode_error e)))
      ⊎ ((content : Data) × (pg.from_value value ≡ ok content)
          × (answer ≡ ok (some (record { id = id; content = content; expiry_date = expires }))))

  found-SessionOf : (id : Text) (row : Option (Value × ℕ)) → SessionOf id row (found pg id (ok row))
  found-SessionOf id none = refl
  found-SessionOf id (some (value, expires)) = elim (Result-cases (pg.from_value value)) [
    | inl (content, e) ↦ inr (content, e, ap (decoded pg id expires) e)
    | inr (m, e) ↦ inl (m, e, ap (decoded pg id expires) e)
  ]

  -- The store refines a map from ids to sessions in which nothing is ever swept: after any run of
  -- saves, creations, deletions and sweeps that succeed, with sweeps at times not later than `now`, loading a session at `now`
  -- gives what stands in that map under its id, if it expires later than `now`, decoded; or the
  -- pool has no connection or the query fails, and that is the error.
  pub load-refines :
      (now : ℕ) (s : State) (m : Sessions pg) (id : Text)
      → Run now s m
      → ((e : Text) × FailsToLoad now id s e × (load pg id now s ≡ err (backend_error e)))
        ⊎ SessionOf id (live now (m id)) (load pg id now s)
  unfolding load
  load-refines now s m id run =
      elim (found_or_failed now id s m (pg.get s) refl (live_rows now s m run id)) [
        | inl failed ↦ inl failed
        | inr e ↦
            inr (
              subst (SessionOf id (live now (m id))) (sym e) (found-SessionOf id (live now (m id))))
      ]

-- ===== src/DieselSentry/Sql/Cut.antt =====
-- `write_sql` of crates/diesel-sentry/src/lib.rs: chunk by chunk, what a search of the whole finds.
use muxa.Prelude.{
  ℕ, zero, suc, ◌+◌, ◌-◌, ◌≤◌, ◌≡◌, refl, sym, ap, ◌∙◌, ◌⊎◌, inl, inr, Bool, true, false, Option,
  none, some, [], ◌∷◌, ◌++◌, arith, Bool-cases,
}
use mathlib.Core.List.{append-nil, append_assoc}
use muxa.Prelude.Text.{Text, len, len_utf8, strip_prefix, starts_with}
use muxa.DieselSentry.Sql.{
  binds_marker, Display, ends, writes, split_at, before_first, after_search, write_str, render,
}

-- What plain formatting writes: every chunk, as long as it accepts.
unfoldable pub rendered : Display → Text
rendered (ends success) = []
rendered (writes chunk rest) = chunk ++ rendered (rest true)

abbrev pub cut_or_all : Text → Option Text → Text
cut_or_all all none = all
cut_or_all all (some before) = before

abbrev pub with_front : Text → Option Text → Option Text
with_front front none = none
with_front front (some before) = some (front ++ before)

-- A marker no longer than what it is looked for in does not reach into what comes behind.
starts_with-of_append :
    (m s t : Text) → len m ≤ len s → starts_with (s ++ t) m ≡ true → starts_with s m ≡ true
unfolding starts_with strip_prefix len
starts_with-of_append [] s t h e = refl
starts_with-of_append (d ∷ m) [] t h e = absurd (ground arith)
starts_with-of_append (d ∷ m) (c ∷ s) t h e = ground (arith, starts_with-of_append m s t)

append-split_at : (n : ℕ) (s : Text) → (split_at n s).0 ++ (split_at n s).1 ≡ s
unfolding split_at
append-split_at zero s = refl
append-split_at (suc n) [] = refl
append-split_at (suc n) (c ∷ s) = ap (λ t. c ∷ t) (append-split_at (suc n - len_utf8 c) s)

-- How far back a search may start: at the start, or one marker's length before the end.
abbrev LooksBack : ℕ → Text → Text → Type 0
LooksBack n m s = (n ≡ 0) ⊎ (n + len m ≤ len s)

not_before :
    (m s : Text) (c : ℕ)
    → before_first m (c ∷ s) ≡ none
    → (starts_with (c ∷ s) m ≡ false) × (before_first m s ≡ none)
unfolding before_first
not_before m s c h = (ground arith, ground arith)

with_front_nil : (o : Option Text) → o ≡ with_front [] o
with_front_nil none = refl
with_front_nil (some b) = refl

before_first_cons :
    (m s : Text) (c : ℕ) (front : Text) (o : Option Text)
    → starts_with (c ∷ s) m ≡ false
    → before_first m s ≡ with_front front o
    → before_first m (c ∷ s) ≡ with_front (c ∷ front) o
unfolding before_first
before_first_cons m s c front none here e = rw (here, e) refl
before_first_cons m s c front (some b) here e = rw (here, e) refl

starts_with_append-false :
    (m s t : Text) → len m ≤ len s → starts_with s m ≡ false → starts_with (s ++ t) m ≡ false
starts_with_append-false m s t h e = ground (arith, starts_with-of_append m s t h)

-- A search that starts one marker's length before the end of a text without the marker finds what a
-- search of the whole finds.
before_first-append :
    (n : ℕ) (m s t : Text)
    → before_first m s ≡ none
    → LooksBack n m s
    → before_first m (s ++ t)
      ≡ with_front (split_at n (s ++ t)).0 (before_first m (split_at n (s ++ t)).1)
unfolding split_at len
before_first-append zero m s t h b = with_front_nil (before_first m (s ++ t))
before_first-append (suc n) m [] t h b = absurd (ground arith)
before_first-append (suc n) m (c ∷ s) t h b =
    let (here, later) = not_before m s c h in
    before_first_cons m (s ++ t) c (split_at (suc n - len_utf8 c) (s ++ t)).0
      (before_first m (split_at (suc n - len_utf8 c) (s ++ t)).1)
      (starts_with_append-false m (c ∷ s) t (ground arith) here)
      (before_first-append (suc n - len_utf8 c) m s t later (ground arith))

len-le-of_starts_with : (m s : Text) → starts_with s m ≡ true → len m ≤ len s
unfolding starts_with strip_prefix len
len-le-of_starts_with [] s h = omega arith
len-le-of_starts_with (d ∷ m) [] h = cc
len-le-of_starts_with (d ∷ m) (c ∷ s) h = ground (arith, len-le-of_starts_with m s)

pub before_later :
    (m s : Text) (c : ℕ) (b : Text)
    → starts_with (c ∷ s) m ≡ false
    → before_first m (c ∷ s) ≡ some b
    → (b' : Text) × (before_first m s ≡ some b') × (b ≡ c ∷ b')
unfolding before_first
before_later m s c b here h = of (before_first m s) refl
  where
    of :
        (o : Option Text)
        → before_first m s ≡ o
        → (b' : Text) × (before_first m s ≡ some b') × (b ≡ c ∷ b')
    of none e = absurd (ground arith)
    of (some b') e = (b', e, ground arith)

len-le-of_before_first : (m s b : Text) → before_first m s ≡ some b → len m ≤ len s
unfolding before_first len
len-le-of_before_first m [] b h = len-le-of_starts_with m [] (ground arith)
len-le-of_before_first m (c ∷ s) b h = elim (Bool-cases (starts_with (c ∷ s) m)) [
  | inl here ↦ len-le-of_starts_with m (c ∷ s) here
  | inr later ↦
      let (b', e, _) = before_later m s c b later h in
      omega (arith, len-le-of_before_first m s b' e)
]

pub starts_with-append : (m s t : Text) → starts_with s m ≡ true → starts_with (s ++ t) m ≡ true
unfolding starts_with strip_prefix
starts_with-append [] s t e = refl
starts_with-append (d ∷ m) [] t e = cc
starts_with-append (d ∷ m) (c ∷ s) t e = ground (arith, starts_with-append m s t)

len-le-cons : (m s : Text) (c : ℕ) → len m ≤ len s → len m ≤ len (c ∷ s)
unfolding len
len-le-cons m s c h = omega arith

before_first_nil : (m t b : Text) → before_first m [] ≡ some b → before_first m t ≡ some b
unfolding before_first starts_with strip_prefix
before_first_nil [] [] b h = h
before_first_nil [] (c ∷ t) b h = h
before_first_nil (d ∷ m) t b h = cc

-- What is found stays found.
before_first-stays : (m s t b : Text) → before_first m s ≡ some b → before_first m (s ++ t) ≡ some b
unfolding before_first
before_first-stays m [] t b h = before_first_nil m t b h
before_first-stays m (c ∷ s) t b h = elim (Bool-cases (starts_with (c ∷ s) m)) [
  | inl here ↦ rw (starts_with-append m (c ∷ s) t here) (ground (arith, h))
  | inr later ↦
      let (b', e, q) = before_later m s c b later h in
      before_first_cons m (s ++ t) c [] (some b')
        (starts_with_append-false m (c ∷ s) t (len-le-cons m s c (len-le-of_before_first m s b' e))
          later)
        (before_first-stays m s t b' e)
      ∙ ap some (sym q)
]

render-cut :
    (query : Display) (kept : Text)
    → render query (record { buf = kept; cut = true }) ≡ record { buf = kept; cut = true }
unfolding render write_str
render-cut (ends success) kept = refl
render-cut (writes chunk rest) kept = render-cut (rest false) kept

after_search_front :
    (written front : Text) (o : Option Text)
    → after_search written front o ≡ after_search written [] (with_front front o)
after_search_front written front none = refl
after_search_front written front (some b) = refl

-- The search goes from one marker's length before the chunk, and finds what a search from the start
-- of all that is written finds.
write_str-eq :
    (chunk buf : Text)
    → before_first binds_marker buf ≡ none
    → write_str chunk (record { buf = buf; cut = false })
      ≡ after_search (buf ++ chunk) [] (before_first binds_marker (buf ++ chunk))
unfolding write_str
write_str-eq chunk buf h =
    let front = (split_at (len buf - len binds_marker) (buf ++ chunk)).0 in
    let back = (split_at (len buf - len binds_marker) (buf ++ chunk)).1 in
    after_search_front (buf ++ chunk) front (before_first binds_marker back)
    ∙ ap (after_search (buf ++ chunk) []) (
        sym (
          before_first-append (len buf - len binds_marker) binds_marker buf chunk h (ground arith)))

-- One chunk, and what follows it.
render_writes :
    (chunk : Text) (rest : Bool → Display) (buf : Text) (o : Option Text)
    → before_first binds_marker buf ≡ none
    → before_first binds_marker (buf ++ chunk) ≡ o
    → (render (writes chunk rest) (record { buf = buf; cut = false })).buf
      ≡ (let (accepted, sink) = after_search (buf ++ chunk) [] o in render (rest accepted) sink).buf
unfolding render
render_writes chunk rest buf o h e =
    ap (λ r. (render (rest r.0) r.1).buf)
      (write_str-eq chunk buf h ∙ ap (after_search (buf ++ chunk) []) e)

pub render-eq :
    (query : Display) (buf : Text)
    → before_first binds_marker buf ≡ none
    → (render query (record { buf = buf; cut = false })).buf
      ≡ cut_or_all (buf ++ rendered query) (before_first binds_marker (buf ++ rendered query))
unfolding render rendered
render-eq (ends success) buf h = rw (append-nil buf, h) refl
render-eq (writes chunk rest) buf h =
    of (before_first binds_marker (buf ++ chunk)) refl (render-eq (rest true) (buf ++ chunk))
  where
    all : Text
    all = buf ++ (chunk ++ rendered (rest true))

    of :
        (o : Option Text)
        → before_first binds_marker (buf ++ chunk) ≡ o
        → (before_first binds_marker (buf ++ chunk) ≡ none
            → (render (rest true) (record { buf = buf ++ chunk; cut = false })).buf
              ≡ cut_or_all
                  ((buf ++ chunk) ++ rendered (rest true))
                  (before_first binds_marker ((buf ++ chunk) ++ rendered (rest true))))
        → (render (writes chunk rest) (record { buf = buf; cut = false })).buf
          ≡ cut_or_all all (before_first binds_marker all)
    of none e later =
        render_writes chunk rest buf none h e
        ∙ (later e
            ∙ ap (λ t. cut_or_all t (before_first binds_marker t))
                (append_assoc buf chunk (rendered (rest true))))
    of (some b) e later =
        render_writes chunk rest buf (some b) h e
        ∙ (ap (λ sink. sink.buf) (render-cut (rest false) b)
            ∙ ap (cut_or_all all) (
                sym (
                  ap (before_first binds_marker)
                    (sym (append_assoc buf chunk (rendered (rest true))))
                  ∙ before_first-stays binds_marker (buf ++ chunk) (rendered (rest true)) b e)))

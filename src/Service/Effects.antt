-- ===== src/Service/Effects.antt =====
-- Steps on the stores: what a step has written stays where a later step fails.
use personal_cfo_os.Base.{◌≡◌, refl, ap, Bool, true, false, Option, none, some, if◌then◌else◌}
use personal_cfo_os.Errors.{Result, ok, err, RuntimeError}

abbrev pub Step : Type 0 → Type 0 → Type 0
Step S A = S → S × Result A

abbrev pub IsError : {A : Type 0} → Result A → Type 0
IsError (ok a) = ⊥
IsError (err e) = Unit

module _ {S : Type 0} where
  abbrev pub and_then : {A C : Type 0} → S × Result A → (A → Step S C) → S × Result C
  and_then (s, ok a) f = f a s
  and_then (s, err e) f = (s, err e)

  infixl 5 ◌>>=◌ ◌>>◌
  abbrev pub ◌>>=◌ : {A C : Type 0} → Step S A → (A → Step S C) → Step S C
  ◌>>=◌ m f s = and_then (m s) f

  abbrev pub ◌>>◌ : {A C : Type 0} → Step S A → Step S C → Step S C
  ◌>>◌ m n = m >>= λ a. n

  abbrev pub pure : {A : Type 0} → A → Step S A
  pure a s = (s, ok a)

  abbrev pub fails : {A : Type 0} → RuntimeError → Step S A
  fails e s = (s, err e)

  abbrev pub skip : Step S (Unit {0})
  skip = pure tt

  -- `if err := check; err != nil { return err }`
  abbrev pub unless_error : Option RuntimeError → Step S (Unit {0})
  unless_error none = skip
  unless_error (some e) = fails e

  -- A write to one store, which leaves it as it was where it fails.
  abbrev pub written : {X : Type 0} → (X → S) → S → Result X → S × Result (Unit {0})
  written put s (ok x) = (put x, ok tt)
  written put s (err e) = (s, err e)

  abbrev pub lifted : {A : Type 0} → Result A → Step S A
  lifted (ok a) = pure a
  lifted (err e) = fails e

  -- `if x != nil { ... }`
  abbrev pub on_some : {A : Type 0} → Option A → (A → Step S (Unit {0})) → Step S (Unit {0})
  on_some none f = skip
  on_some (some a) f = f a

  abbrev pub when : Bool → Step S (Unit {0}) → Step S (Unit {0})
  when true m = m
  when false m = skip

  pub and_then-ok :
      {A C : Type 0} (r : S × Result A) (f : A → Step S C) (t : S) (c : C)
      → and_then r f ≡ (t, ok c)
      → (u : S) × (a : A) × (r ≡ (u, ok a)) × (f a u ≡ (t, ok c))
  and_then-ok (u, ok a) f t c h = (u, a, refl, h)
  and_then-ok (u, err e) f t c h = cc

  -- A predicate on the stores that a step keeps, where it fails as well.
  pub record Keeps {A : Type 0} (K : S → Type 0) (m : Step S A) : Type 0 where
    pub keeps : (s : S) → K s → K (m s).0

  -- A step that fails, and keeps a predicate on the stores.
  pub record Refuses {A : Type 0} (K : S → Type 0) (m : Step S A) : Type 0 where
    pub refuses : (s : S) → K s → K (m s).0 × IsError (m s).1

  and_then-keeps :
      {A C : Type 0} (K : S → Type 0) (r : S × Result A) (f : A → Step S C)
      → K r.0
      → ((a : A) → Keeps K (f a))
      → K (and_then r f).0
  and_then-keeps K (s, ok a) f k h = (h a).keeps s k
  and_then-keeps K (s, err e) f k h = k

  pub >>=-Keeps :
      {A C : Type 0} {K : S → Type 0} {m : Step S A} {f : A → Step S C}
      → Keeps K m
      → ((a : A) → Keeps K (f a))
      → Keeps K (m >>= f)
  >>=-Keeps {K = K} {m = m} {f = f} h g = record {
    keeps = λ s k. and_then-keeps K (m s) f (h.keeps s k) g;
  }

  and_then-Refuses :
      {A C : Type 0} (K : S → Type 0) (r : S × Result A) (f : A → Step S C)
      → K r.0
      → ((a : A) → Refuses K (f a))
      → K (and_then r f).0 × IsError (and_then r f).1
  and_then-Refuses K (s, ok a) f k h = (h a).refuses s k
  and_then-Refuses K (s, err e) f k h = (k, tt)

  pub >>=-Refuses :
      {A C : Type 0} {K : S → Type 0} {m : Step S A} {f : A → Step S C}
      → Keeps K m
      → ((a : A) → Refuses K (f a))
      → Refuses K (m >>= f)
  >>=-Refuses {K = K} {m = m} {f = f} h g = record {
    refuses = λ s k. and_then-Refuses K (m s) f (h.keeps s k) g;
  }

  Refuses-and_then :
      {A C : Type 0} (K : S → Type 0) (r : S × Result A) (f : A → Step S C)
      → K r.0 × IsError r.1
      → K (and_then r f).0 × IsError (and_then r f).1
  Refuses-and_then K (s, ok a) f h = absurd h.1
  Refuses-and_then K (s, err e) f h = h

  pub Refuses->>= :
      {A C : Type 0} {K : S → Type 0} {m : Step S A} (f : A → Step S C)
      → Refuses K m
      → Refuses K (m >>= f)
  Refuses->>= {K = K} {m = m} f h = record {
    refuses = λ s k. Refuses-and_then K (m s) f (h.refuses s k);
  }

  pub pure-Keeps : {A : Type 0} {K : S → Type 0} {a : A} → Keeps K (pure a)
  pure-Keeps = record { keeps = λ s k. k }

  pub fails-Keeps : {A : Type 0} {K : S → Type 0} {e : RuntimeError} → Keeps K (fails {A = A} e)
  fails-Keeps = record { keeps = λ s k. k }

  pub unless_error-Keeps : {K : S → Type 0} (o : Option RuntimeError) → Keeps K (unless_error o)
  unless_error-Keeps none = pure-Keeps
  unless_error-Keeps (some e) = fails-Keeps

  pub lifted-Keeps : {A : Type 0} {K : S → Type 0} (r : Result A) → Keeps K (lifted r)
  lifted-Keeps (ok a) = pure-Keeps
  lifted-Keeps (err e) = fails-Keeps

  pub on_some-Keeps :
      {A : Type 0} {K : S → Type 0} (o : Option A) {f : A → Step S (Unit {0})}
      → ((a : A) → Keeps K (f a))
      → Keeps K (on_some o f)
  on_some-Keeps none h = pure-Keeps
  on_some-Keeps (some a) h = h a

  pub if-Keeps :
      {A : Type 0} {K : S → Type 0} (b : Bool) {m n : Step S A}
      → Keeps K m
      → Keeps K n
      → Keeps K (if b then m else n)
  if-Keeps true h g = h
  if-Keeps false h g = g

  pub written-keeps :
      {X : Type 0} (K : S → Type 0) (put : X → S) (s : S) (r : Result X)
      → K s
      → ((x : X) → K (put x))
      → K (written put s r).0
  written-keeps K put s (ok x) k h = h x
  written-keeps K put s (err e) k h = k

  -- The same, where what was written is known.
  pub written-keeps_ok :
      {X : Type 0} (K : S → Type 0) (put : X → S) (s : S) (r : Result X)
      → K s
      → ((x : X) → r ≡ ok x → K (put x))
      → K (written put s r).0
  written-keeps_ok K put s (ok x) k h = h x refl
  written-keeps_ok K put s (err e) k h = k

  pub written-ok :
      {X : Type 0} (put : X → S) (s : S) (r : Result X) (t : S) (u : Unit {0})
      → written put s r ≡ (t, ok u)
      → (x : X) × (r ≡ ok x) × (put x ≡ t)
  written-ok put s (ok x) t u h = (x, refl, ap (λ y. y.0) h)
  written-ok put s (err e) t u h = cc

  abbrev pub by_result :
      {A C : Type 0} → S × Result A → (A → Step S C) → (RuntimeError → Step S C) → S × Result C
  by_result (s, ok a) f g = f a s
  by_result (s, err e) f g = g e s

  -- A step whose error the code handles itself.
  abbrev pub on_result :
      {A C : Type 0} → Step S A → (A → Step S C) → (RuntimeError → Step S C) → Step S C
  on_result m f g s = by_result (m s) f g

  by_result-keeps :
      {A C : Type 0} (K : S → Type 0) (r : S × Result A) (f : A → Step S C)
      (g : RuntimeError → Step S C)
      → K r.0
      → ((a : A) → Keeps K (f a))
      → ((e : RuntimeError) → Keeps K (g e))
      → K (by_result r f g).0
  by_result-keeps K (s, ok a) f g k h i = (h a).keeps s k
  by_result-keeps K (s, err e) f g k h i = (i e).keeps s k

  pub on_result-Keeps :
      {A C : Type 0} {K : S → Type 0} {m : Step S A} {f : A → Step S C}
      {g : RuntimeError → Step S C}
      → Keeps K m
      → ((a : A) → Keeps K (f a))
      → ((e : RuntimeError) → Keeps K (g e))
      → Keeps K (on_result m f g)
  on_result-Keeps {K = K} {m = m} {f = f} {g = g} h i j = record {
    keeps = λ s k. by_result-keeps K (m s) f g (h.keeps s k) i j;
  }

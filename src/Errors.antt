-- ===== src/Errors.antt =====
-- internal/runtime/store.go: the errors of the runtime's stores, and Go's pair of a result and an error.
use personal_cfo_os.Base.{
  String, ◌≡◌, refl, ◌⊎◌, inl, inr, Bool, true, false, Option, none, some, arith,
}

-- `failure` is an error made by `fmt.Errorf` or `errors.New`, which unwraps to nothing.
pub data RuntimeError : Type 0 where
  conflict : (resource id reason : String) → RuntimeError
  not_found : (resource id : String) → RuntimeError
  invalid_transition : (resource id from to reason : String) → RuntimeError
  failure : (message : String) → RuntimeError

-- `errors.Is(err, target)` through `Unwrap`.
abbrev pub is_conflict : RuntimeError → Bool
is_conflict (conflict resource id reason) = true
is_conflict (invalid_transition resource id from to reason) = true
is_conflict _ = false

abbrev pub is_not_found : RuntimeError → Bool
is_not_found (not_found resource id) = true
is_not_found _ = false

pub data Result {ℓ} (A : Type ℓ) : Type ℓ where
  ok : A → Result A
  err : RuntimeError → Result A

infixl 5 ◌>>=◌
abbrev pub ◌>>=◌ {ℓ κ} : {A : Type ℓ} {B : Type κ} → Result A → (A → Result B) → Result B
ok a >>= f = f a
err e >>= f = err e

-- `if err := check; err != nil { return err }`
abbrev pub unless {ℓ} : {A : Type ℓ} → Option RuntimeError → Result A → Result A
unless none r = r
unless (some e) r = err e

-- `value, ok := m[key]; if !ok { return error }`
abbrev pub or_fail {ℓ} : {A : Type ℓ} → Option A → RuntimeError → Result A
or_fail none e = err e
or_fail (some a) e = ok a

pub unless-ok {ℓ} :
    {A : Type ℓ} (c : Option RuntimeError) (r : Result A) (a : A)
    → unless c r ≡ ok a
    → (c ≡ none) × (r ≡ ok a)
unless-ok none r a h = (refl, h)
unless-ok (some e) r a h = cc

pub or_fail-ok {ℓ} :
    {A : Type ℓ} (o : Option A) (e : RuntimeError) (a : A) → or_fail o e ≡ ok a → o ≡ some a
or_fail-ok none e a h = cc
or_fail-ok (some b) e a h = ground arith

pub >>=-ok {ℓ κ} :
    {A : Type ℓ} {B : Type κ} (m : Result A) (f : A → Result B) (b : B)
    → (m >>= f) ≡ ok b
    → (a : A) × (m ≡ ok a) × (f a ≡ ok b)
>>=-ok (ok a) f b h = (a, refl, h)
>>=-ok (err e) f b h = cc

pub Result-cases {ℓ} :
    {A : Type ℓ} (r : Result A) → ((a : A) × (r ≡ ok a)) ⊎ ((e : RuntimeError) × (r ≡ err e))
Result-cases (ok a) = inl (a, refl)
Result-cases (err e) = inr (e, refl)

-- ===== src/Common/Results.antt =====
-- What a Go call gives back: a value, an error value, or a panic.
use Prim.Native.String.{String}
use mathlib.Core.Path.{◌≡◌, refl}
use mathlib.Core.Logic.{◌≢◌, ◌⊎◌, inl, inr}
use native.Mathlib.Omega.{arith}
use mathlib.Core.Option.{Option, none, some}

pub data Error : Type 0 where
  -- fmt.Errorf of this program, by its text; an error of a library, by its source
  failed : String → Error
  library : String → Error

pub data Result {ℓ} (A : Type ℓ) : Type ℓ where
  ok : A → Result A
  err : Error → Result A
  panicked : Result A

-- A call that changes the state S: what was changed before an error or a panic stays changed.
abbrev pub Act {ℓ} : (State Value : Type ℓ) → Type ℓ
Act State Value = State → Result Value × State

module _ {ℓ} {S A : Type ℓ} where
  abbrev pub pure : A → Act S A
  pure a s = (ok a, s)

  abbrev pub raise : Error → Act S A
  raise e s = (err e, s)

  abbrev pub panic : Act S A
  panic s = (panicked, s)

  -- a call that changes nothing
  abbrev pub lift : Result A → Act S A
  lift r s = (r, s)

  -- a library call that gives a value or an error
  abbrev pub try : Option A → Error → Act S A
  try none e s = (err e, s)
  try (some a) e s = (ok a, s)

  -- a pointer that is dereferenced; none is nil, and panics
  abbrev pub deref : Option A → Act S A
  deref none s = panic s
  deref (some a) s = pure a s

module _ {ℓ} {S A B : Type ℓ} where
  abbrev pub continue : Result A → (A → Act S B) → Act S B
  continue (ok a) f s = f a s
  continue (err e) f s = (err e, s)
  continue panicked f s = (panicked, s)

  -- The first call if there is no value, else the second one with the value.
  abbrev pub on_none : Option A → Act S B → (A → Act S B) → Act S B
  on_none none absent present s = absent s
  on_none (some a) absent present s = present a s

  infixl 5 ◌>>=◌ ◌>>◌
  abbrev pub ◌>>=◌ : Act S A → (A → Act S B) → Act S B
  ◌>>=◌ call next before = let (outcome, after) = call before in continue outcome next after

  abbrev pub ◌>>◌ : Act S A → Act S B → Act S B
  call >> next = call >>= λ _. next

abbrev pub map_ok {ℓ} : {A B : Type ℓ} → (A → B) → Result A → Result B
map_ok f (ok a) = ok (f a)
map_ok f (err e) = err e
map_ok f panicked = panicked

-- A call whose error is dropped.
abbrev pub ignore {ℓ} : {S A : Type ℓ} → Act S A → Act S (Unit {ℓ})
ignore m s =
    let (r, s') = m s in
    elim r [ ok a ↦ (ok tt, s') | err e ↦ (ok tt, s') | panicked ↦ (panicked, s') ]

-- The result of a call that changes nothing.
abbrev pub result : {A : Type 0} → Act (Unit {0}) A → Result A
result m = (m tt).0

-- A call that does not panic is ignored: its state is kept.
pub ignore_lem :
    {S A : Type 0} (m : Act S A) (s : S) → (m s).0 ≢ panicked → ignore m s ≡ (ok tt, (m s).1)
ignore_lem m s h = ground arith

-- A pair with a known result.
pub pair_eq : {S A : Type 0} (p : Result A × S) (r : Result A) → p.0 ≡ r → p ≡ (r, p.1)
pair_eq p r h = λ i. (h i, p.1)

pub Result-cases :
    {A : Type 0} (r : Result A)
    → ((a : A) × (r ≡ ok a)) ⊎ (((e : Error) × (r ≡ err e)) ⊎ (r ≡ panicked))
Result-cases (ok a) = inl (a, refl)
Result-cases (err e) = inr (inl (e, refl))
Result-cases panicked = inr (inr refl)

pub ok_inj : {A : Type 0} (a b : A) → ◌≡◌ {A = Result A} (ok a) (ok b) → a ≡ b
ok_inj a b same = cc

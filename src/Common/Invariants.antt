-- ===== src/Common/Invariants.antt =====
-- Predicates on the state that a call keeps, one rule for each way to build a call.
use mathlib.Core.Bool.{Bool, true, false}
use mathlib.Core.Path.{◌≡◌, refl}
use mathlib.Core.Option.{Option, none, some}
use uplink_relay.Common.Results.{
  Error, Result, ok, err, panicked, Act, pure, raise, panic, lift, try, deref, on_none, continue,
  ignore, ◌>>=◌,
}
use uplink_relay.Common.Tests.{if◌then◌else◌}

-- The call keeps P, whether it returns, gives an error or panics.
pub record Preserves {S A : Type 0} (P : S → Type 0) (m : Act S A) : Type 0 where
  pub at : (s : S) → P s → P (m s).1

module _ {S A : Type 0} {P : S → Type 0} where
  pub pure-Preserves : (a : A) → Preserves P (pure a)
  pure-Preserves a = record { at = λ s h. h }

  pub raise-Preserves : (e : Error) → Preserves P (raise {A = A} e)
  raise-Preserves e = record { at = λ s h. h }

  pub panic-Preserves : Preserves P (panic {A = A})
  panic-Preserves = record { at = λ s h. h }

  pub lift-Preserves : (r : Result A) → Preserves P (lift r)
  lift-Preserves r = record { at = λ s h. h }

  pub try-Preserves : (o : Option A) (e : Error) → Preserves P (try o e)
  try-Preserves none e = record { at = λ s h. h }
  try-Preserves (some a) e = record { at = λ s h. h }

  pub deref-Preserves : (o : Option A) → Preserves P (deref o)
  deref-Preserves none = record { at = λ s h. h }
  deref-Preserves (some a) = record { at = λ s h. h }

  pub read-Preserves : (f : S → Result A) → Preserves P (λ s. (f s, s))
  read-Preserves f = record { at = λ s h. h }

  pub ignore-Preserves : (m : Act S A) → Preserves P m → Preserves P (ignore m)
  ignore-Preserves m keeps = record { at = λ s h. settle (m s).0 (m s).1 (keeps.at s h) }
    where
      settle : (r : Result A) (s : S) → P s → P (ignore (λ _. (r, s)) s).1
      settle (ok a) s h = h
      settle (err e) s h = h
      settle panicked s h = h

  pub if-Preserves :
      (b : Bool) (m n : Act S A) → Preserves P m → Preserves P n → Preserves P (if b then m else n)
  if-Preserves true m n km kn = km
  if-Preserves false m n km kn = kn

module _ {S A B : Type 0} {P : S → Type 0} where
  pub on_none-Preserves :
      (o : Option A) (m : Act S B) (f : A → Act S B)
      → Preserves P m
      → ((a : A) → Preserves P (f a))
      → Preserves P (on_none o m f)
  on_none-Preserves none m f km kf = record { at = λ s h. km.at s h }
  on_none-Preserves (some a) m f km kf = record { at = λ s h. (kf a).at s h }

  continue-Preserves :
      (r : Result A) (f : A → Act S B) → ((a : A) → Preserves P (f a)) → Preserves P (continue r f)
  continue-Preserves (ok a) f kf = kf a
  continue-Preserves (err e) f kf = record { at = λ s h. h }
  continue-Preserves panicked f kf = record { at = λ s h. h }

  pub bind-Preserves :
      (m : Act S A) (f : A → Act S B)
      → Preserves P m
      → ((a : A) → Preserves P (f a))
      → Preserves P (m >>= f)
  bind-Preserves m f km kf = record {
    at = λ s h. (continue-Preserves (m s).0 f kf).at (m s).1 (km.at s h);
  }

  -- The rest of the block may use what was tried.
  pub bind_try-Preserves :
      (o : Option A) (e : Error) (f : A → Act S B)
      → ((a : A) → o ≡ some a → Preserves P (f a))
      → Preserves P (try o e >>= f)
  bind_try-Preserves none e f kf = record { at = λ s h. h }
  bind_try-Preserves (some a) e f kf = kf a refl

  pub bind_lift-Preserves :
      (r : Result A) (f : A → Act S B)
      → ((a : A) → r ≡ ok a → Preserves P (f a))
      → Preserves P (lift r >>= f)
  bind_lift-Preserves (ok a) f kf = record { at = λ s h. (kf a refl).at s h }
  bind_lift-Preserves (err e) f kf = record { at = λ s h. h }
  bind_lift-Preserves panicked f kf = record { at = λ s h. h }

-- The branch may use the test.
pub if_known-Preserves :
    {S A : Type 0} {P : S → Type 0} (b : Bool) (m n : Act S A)
    → (b ≡ true → Preserves P m)
    → Preserves P n
    → Preserves P (if b then m else n)
if_known-Preserves true m n km kn = km refl
if_known-Preserves false m n km kn = kn

pub ruleset preserves_rules = (
  pure-Preserves, raise-Preserves, panic-Preserves, lift-Preserves, try-Preserves, ignore-Preserves,
  if-Preserves, deref-Preserves, on_none-Preserves, bind-Preserves,
)

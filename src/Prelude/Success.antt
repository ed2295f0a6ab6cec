-- ===== src/Prelude/Success.antt =====
-- Inversion of actions that succeed: a chain of calls returns a value only if each of them did.
use mathlib.Core.Path.{◌≡◌, refl}
use mathlib.Core.Bool.{Bool, true, false}
use aristo.Prelude.Tests.{if◌then◌else◌}
use aristo.Prelude.Errors.{Error}
use aristo.Prelude.Go.{Result, ok, err, panic, then_try, Act, reject_if, lift, continue, ◌>>=◌}

module _ {S A B : Type 0} where
  continue-ok :
      (r : Result A) (f : A → Act S B) (s : S) (b : B)
      → (continue r f s).0 ≡ ok b
      → (a : A) × ((r ≡ ok a) × ((f a s).0 ≡ ok b))
  continue-ok (ok a) f s b h = (a, (refl, h))
  continue-ok (err e) f s b h = cc
  continue-ok (panic c) f s b h = cc

  pub bind-ok :
      (m : Act S A) (f : A → Act S B) (s : S) (b : B)
      → ((m >>= f) s).0 ≡ ok b
      → (a : A) × (((m s).0 ≡ ok a) × ((f a (m s).1).0 ≡ ok b))
  bind-ok m f s b h = continue-ok (m s).0 f (m s).1 b h

  pub lift-ok :
      (r : Result A) (f : A → Act S B) (s : S) (b : B)
      → ((lift r >>= f) s).0 ≡ ok b
      → (a : A) × ((r ≡ ok a) × ((f a s).0 ≡ ok b))
  lift-ok r f s b h = continue-ok r f s b h

module _ {S B : Type 0} where
  pub reject_if-ok :
      (c : Bool) (e : Error) (f : Unit {0} → Act S B) (s : S) (b : B)
      → ((reject_if c e >>= f) s).0 ≡ ok b
      → (c ≡ false) × ((f tt s).0 ≡ ok b)
  reject_if-ok true e f s b h = cc
  reject_if-ok false e f s b h = (refl, h)

module _ {A B : Type 0} where
  pub try-ok :
      (r : Result A) (f : A → Result B) (b : B)
      → then_try r f ≡ ok b
      → (a : A) × ((r ≡ ok a) × (f a ≡ ok b))
  try-ok (ok a) f b h = (a, (refl, h))
  try-ok (err e) f b h = cc
  try-ok (panic c) f b h = cc

pub if-ok :
    {A : Type 0} (c : Bool) (e : Error) (r : Result A) (a : A)
    → (if c then err e else r) ≡ ok a
    → (c ≡ false) × (r ≡ ok a)
if-ok true e r a h = cc
if-ok false e r a h = (refl, h)

-- The same with the state that is left.
module _ {S A B : Type 0} where
  continue-returns :
      (r : Result A) (f : A → Act S B) (s t : S) (b : B)
      → continue r f s ≡ (ok b, t)
      → (a : A) × ((r ≡ ok a) × (f a s ≡ (ok b, t)))
  continue-returns (ok a) f s t b h = (a, (refl, h))
  continue-returns (err e) f s t b h = cc
  continue-returns (panic c) f s t b h = cc

  pub bind-returns :
      (m : Act S A) (f : A → Act S B) (s t : S) (b : B)
      → (m >>= f) s ≡ (ok b, t)
      → (a : A) × (((m s).0 ≡ ok a) × (f a (m s).1 ≡ (ok b, t)))
  bind-returns m f s t b h = continue-returns (m s).0 f (m s).1 t b h

module _ {S B : Type 0} where
  pub reject_if-returns :
      (c : Bool) (e : Error) (f : Unit {0} → Act S B) (s t : S) (b : B)
      → (reject_if c e >>= f) s ≡ (ok b, t)
      → (c ≡ false) × (f tt s ≡ (ok b, t))
  reject_if-returns true e f s t b h = cc
  reject_if-returns false e f s t b h = (refl, h)

-- ===== src/Prelude/Preserves.antt =====
-- Invariants of actions: one rule for each way in which the program builds one, as a rule set.
use mathlib.Core.Path.{◌≡◌, refl}
use mathlib.Core.Bool.{Bool, true, false}
use aristo.Prelude.Tests.{if◌then◌else◌}
use aristo.Prelude.Errors.{Error}
use aristo.Prelude.Go.{
  Crash, Result, ok, err, panic, Act, pure, fail, crash, lift, gets, store, stored, reject_if,
  continue, ◌>>=◌,
}

-- Whether `m` returns, fails or panics, it keeps `P`.
pub record Preserves {S A : Type 0} (P : S → Type 0) (m : Act S A) : Type 0 where
  pub step : (s : S) → P s → P (m s).1

module _ {S A : Type 0} {P : S → Type 0} where
  pub Preserves-pure : (a : A) → Preserves P (pure a)
  Preserves-pure a = record { step = λ s h. h }

  pub Preserves-fail : (e : Error) → Preserves P (fail {A = A} e)
  Preserves-fail e = record { step = λ s h. h }

  pub Preserves-crash : (c : Crash) → Preserves P (crash {A = A} c)
  Preserves-crash c = record { step = λ s h. h }

  pub Preserves-lift : (r : Result A) → Preserves P (lift r)
  Preserves-lift r = record { step = λ s h. h }

  pub Preserves-gets : (f : S → Result A) → Preserves P (gets f)
  Preserves-gets f = record { step = λ s h. h }

  stored-case :
      (a : A) (s : S) (r : Result S) → ((t : S) → r ≡ ok t → P t) → P s → P (stored a s r).1
  stored-case a s (ok t) new old = new t refl
  stored-case a s (err e) new old = old
  stored-case a s (panic c) new old = old

  pub Preserves-store :
      (f : S → Result S) (a : A) → ((s t : S) → P s → f s ≡ ok t → P t) → Preserves P (store f a)
  Preserves-store f a h = record { step = λ s p. stored-case a s (f s) (λ t. h s t p) p }

  pub Preserves-if :
      (b : Bool) (m n : Act S A)
      → (b ≡ true → Preserves P m)
      → (b ≡ false → Preserves P n)
      → Preserves P (if b then m else n)
  Preserves-if true m n h k = h refl
  Preserves-if false m n h k = k refl

module _ {S : Type 0} {P : S → Type 0} where
  pub Preserves-reject_if : (b : Bool) (e : Error) → Preserves P (reject_if b e)
  Preserves-reject_if true e = record { step = λ s h. h }
  Preserves-reject_if false e = record { step = λ s h. h }

module _ {S A B : Type 0} {P : S → Type 0} where
  Preserves-continue :
      (r : Result A) (f : A → Act S B) → ((a : A) → Preserves P (f a)) → Preserves P (continue r f)
  Preserves-continue (ok a) f h = record { step = λ s p. (h a).step s p }
  Preserves-continue (err e) f h = record { step = λ s p. p }
  Preserves-continue (panic c) f h = record { step = λ s p. p }

  pub Preserves-bind :
      (m : Act S A) (f : A → Act S B)
      → Preserves P m
      → ((a : A) → Preserves P (f a))
      → Preserves P (m >>= f)
  Preserves-bind m f hm hf = record {
    step = λ s p. (Preserves-continue (m s).0 f hf).step (m s).1 (hm.step s p);
  }

-- The rule for a bound that each step may use up.
module _ {S A B : Type 0} {Q R : S → Type 0} where
  continue-lands :
      (r : Result A) (f : A → Act S B)
      → ((a : A) (s : S) → Q s → R (f a s).1)
      → ((s : S) → Q s → R s)
      → (s : S) → Q s
      → R (continue r f s).1
  continue-lands (ok a) f hf weaken s q = hf a s q
  continue-lands (err e) f hf weaken s q = weaken s q
  continue-lands (panic c) f hf weaken s q = weaken s q

  pub bind-lands :
      {P : S → Type 0} (m : Act S A) (f : A → Act S B)
      → ((s : S) → P s → Q (m s).1)
      → ((a : A) (s : S) → Q s → R (f a s).1)
      → ((s : S) → Q s → R s)
      → (s : S) → P s
      → R ((m >>= f) s).1
  bind-lands m f hm hf weaken s p = continue-lands (m s).0 f hf weaken (m s).1 (hm s p)

pub ruleset preserves_rules = (
  Preserves-pure, Preserves-fail, Preserves-crash, Preserves-lift, Preserves-gets, Preserves-if,
  Preserves-reject_if, Preserves-bind,
)

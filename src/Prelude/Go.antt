-- ===== src/Prelude/Go.antt =====
-- What a Go function returns: a value, an error, or a panic. A method that mutates its receiver
-- is an `Act`: what was written before an error stays written, so the state comes back beside it.
use mathlib.Core.Bool.{Bool, true, false}
use mathlib.Core.Path.{◌≡◌, refl}
use mathlib.Core.Logic.{◌⊎◌, inl, inr}
use aristo.Prelude.Errors.{Error}

pub data Crash : Type 0 where
  -- close of a nil channel, close of a closed channel, index or slice out of range, nil pointer
  close_nil close_closed out_of_range nil_pointer : Crash
  -- assignment to an entry of a nil map
  nil_map : Crash
  -- a goroutine waits for a lock that it holds itself
  self_deadlock : Crash
  -- a call of `panic`, and a type assertion that fails
  panicked wrong_type : Crash

pub data Result {ℓ} (A : Type ℓ) : Type ℓ where
  ok : A → Result A
  err : Error → Result A
  panic : Crash → Result A

abbrev pub Act {ℓ} : Type ℓ → Type ℓ → Type ℓ
Act S A = S → Result A × S

module _ {ℓ κ} {A : Type ℓ} {B : Type κ} where
  -- if err != nil { return err }
  abbrev pub then_try : Result A → (A → Result B) → Result B
  then_try (ok a) f = f a
  then_try (err e) f = err e
  then_try (panic c) f = panic c

module _ {ℓ} {S A : Type ℓ} where
  abbrev pub pure : A → Act S A
  pure a s = (ok a, s)

  abbrev pub fail : Error → Act S A
  fail e s = (err e, s)

  abbrev pub crash : Crash → Act S A
  crash c s = (panic c, s)

  abbrev pub lift : Result A → Act S A
  lift r s = (r, s)

  -- A read of the state.
  abbrev pub gets : (S → Result A) → Act S A
  gets f s = (f s, s)

  -- A write that fails leaves the state as it was.
  abbrev pub stored : A → S → Result S → Result A × S
  stored a s (ok t) = (ok a, t)
  stored a s (err e) = (err e, s)
  stored a s (panic c) = (panic c, s)

  abbrev pub store : (S → Result S) → A → Act S A
  store f a s = stored a s (f s)

pub Result-cases {ℓ} :
    {A : Type ℓ} (r : Result A)
    → ((a : A) × (r ≡ ok a)) ⊎ ((e : Error) × (r ≡ err e)) ⊎ ((c : Crash) × (r ≡ panic c))
Result-cases (ok a) = inl (a, refl)
Result-cases (err e) = inr (inl (e, refl))
Result-cases (panic c) = inr (inr (c, refl))

module _ {ℓ} {S A B : Type ℓ} where
  abbrev pub continue : Result A → (A → Act S B) → Act S B
  continue (ok a) f s = f a s
  continue (err e) f s = (err e, s)
  continue (panic c) f s = (panic c, s)

  infixl 5 ◌>>=◌ ◌>>◌
  abbrev pub ◌>>=◌ : Act S A → (A → Act S B) → Act S B
  ◌>>=◌ m f s = let (r, t) = m s in continue r f t

  abbrev pub ◌>>◌ : Act S A → Act S B → Act S B
  m >> n = m >>= λ _. n

-- if cond { return err }
abbrev pub reject_if : {S : Type 0} → Bool → Error → Act S (Unit {0})
reject_if true e s = (err e, s)
reject_if false e s = (ok tt, s)

abbrev pub IsOk {ℓ} : {A : Type ℓ} → Result A → Type 0
IsOk (ok a) = Unit
IsOk (err e) = ⊥
IsOk (panic c) = ⊥

-- ===== src/Base/Yields.antt =====
-- Calls that keep a predicate on the state, however they end, and whose result satisfies another.
use mathlib.Core.Bool.{Bool, true, false}
use riscvm.Base.Test.{if◌then◌else◌}
use riscvm.Base.Results.{Error, Outcome, ok, err, panic, timeout, M, pure, fail, crash, next, gets}
use riscvm.Base.Results.{modify, lift, ◌>>=◌, ◌>>◌}

-- A result, where there is one, satisfies `Q`.
abbrev pub Holds : {A : Type 0} → (A → Type 0) → Outcome A → Type 0
Holds Q (ok a) = Q a
Holds Q (err e) = Unit
Holds Q panic = Unit
Holds Q timeout = Unit

abbrev pub Anything : {A : Type 0} → A → Type 0
Anything a = Unit

-- Any result will do.
pub any-Holds : {A : Type 0} (r : Outcome A) → Holds Anything r
any-Holds (ok a) = tt
any-Holds (err e) = tt
any-Holds panic = tt
any-Holds timeout = tt

pub record Yields {S A : Type 0} (P : S → Type 0) (Q : A → Type 0) (m : M S A) : Type 0 where
  pub yields : (s : S) → P s → P (m s).1 × Holds Q (m s).0

module _ {S : Type 0} (P : S → Type 0) where
  pub pure-Yields : {A : Type 0} (Q : A → Type 0) (a : A) → Q a → Yields P Q (pure a)
  pure-Yields Q a q = record { yields = λ s p. (p, q) }

  pub fail-Yields : {A : Type 0} (Q : A → Type 0) (e : Error) → Yields P Q (fail e)
  fail-Yields Q e = record { yields = λ s p. (p, tt) }

  pub crash-Yields : {A : Type 0} (Q : A → Type 0) → Yields P Q crash
  crash-Yields Q = record { yields = λ s p. (p, tt) }

  pub gets-Yields :
      {A : Type 0} (Q : A → Type 0) (f : S → A) → ((s : S) → P s → Q (f s)) → Yields P Q (gets f)
  gets-Yields Q f k = record { yields = λ s p. (p, k s p) }

  pub modify-Yields : (f : S → S) → ((s : S) → P s → P (f s)) → Yields P Anything (modify f)
  modify-Yields f k = record { yields = λ s p. (k s p, tt) }

  pub if-Yields :
      {A : Type 0} (Q : A → Type 0) (t : Bool) (m k : M S A)
      → Yields P Q m
      → Yields P Q k
      → Yields P Q (if t then m else k)
  if-Yields Q true m k p q = p
  if-Yields Q false m k p q = q

  pub if_state-Yields :
      {A : Type 0} (Q : A → Type 0) (t : S → Bool) (m k : M S A)
      → Yields P Q m
      → Yields P Q k
      → Yields P Q (λ s. if t s then m s else k s)
  if_state-Yields Q t m k p q = record {
    yields = λ s x. either (t s) s (p.yields s x) (q.yields s x);
  }
    where
      either :
          (b : Bool) (s : S)
          → P (m s).1 × Holds Q (m s).0
          → P (k s).1 × Holds Q (k s).0
          → P (if b then m s else k s).1 × Holds Q (if b then m s else k s).0
      either true s x y = x
      either false s x y = y

  yielded :
      {A B : Type 0} (R : A → Type 0) (Q : B → Type 0) (f : A → M S B) (x : Outcome A × S)
      → ((a : A) → R a → Yields P Q (f a))
      → P x.1 × Holds R x.0
      → P (next f x).1 × Holds Q (next f x).0
  yielded R Q f (ok a, s) k (p, r) = (k a r).yields s p
  yielded R Q f (err e, s) k (p, r) = (p, tt)
  yielded R Q f (panic, s) k (p, r) = (p, tt)
  yielded R Q f (timeout, s) k (p, r) = (p, tt)

  pub bind-Yields :
      {A B : Type 0} (R : A → Type 0) (Q : B → Type 0) (m : M S A) (f : A → M S B)
      → Yields P R m
      → ((a : A) → R a → Yields P Q (f a))
      → Yields P Q (m >>= f)
  bind-Yields R Q m f y k = record { yields = λ s p. yielded R Q f (m s) k (y.yields s p) }

  pub then-Yields :
      {B : Type 0} (Q : B → Type 0) (m : M S (Unit {0})) (k : M S B)
      → Yields P Anything m
      → Yields P Q k
      → Yields P Q (m >> k)
  then-Yields Q m k y z = record {
    yields = λ s p. yielded Anything Q (λ _. k) (m s) (λ _ _. z) (y.yields s p);
  }

  pub lift-Yields : {A : Type 0} (Q : A → Type 0) (r : Outcome A) → Holds Q r → Yields P Q (lift r)
  lift-Yields Q r h = record { yields = λ s p. (p, h) }

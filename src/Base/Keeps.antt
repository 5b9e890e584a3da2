-- ===== src/Base/Keeps.antt =====
-- Calls that keep a predicate on how they end and on the state, and the rules by which `search`
-- proves it of the code.
use mathlib.Core.Path.{◌≡◌, refl}
use mathlib.Core.Bool.{Bool, true, false}
use riscvm.Base.Test.{if◌then◌else◌}
use riscvm.Base.Results.{Error, Outcome, ok, err, panic, timeout, M, pure, fail, next, gets}
use riscvm.Base.Results.{◌>>=◌, ◌>>◌}

-- How a call ended, its value left out.
pub data Ending : Type 0 where
  returned : Ending
  failed : Error → Ending
  panicked ran_out : Ending

abbrev pub ending : {A : Type 0} → Outcome A → Ending
ending (ok a) = returned
ending (err e) = failed e
ending panic = panicked
ending timeout = ran_out

-- From a state where `P returned` holds, `P` holds of the way in which `m` ends and of the state
-- that it leaves.
pub record Keeps {S A : Type 0} (P : Ending → S → Type 0) (m : M S A) : Type 0 where
  pub keeps : (s : S) → P returned s → P (ending (m s).0) (m s).1

-- A predicate that an error does not falsify.
pub record ToleratesErrors {S : Type 0} (P : Ending → S → Type 0) : Type 0 where
  pub tolerates : (e : Error) (s : S) → P returned s → P (failed e) s

module _ {S : Type 0} (P : Ending → S → Type 0) where
  pub pure-Keeps : {A : Type 0} (a : A) → Keeps P (pure a)
  pure-Keeps a = record { keeps = λ s p. p }

  pub gets-Keeps : {A : Type 0} (f : S → A) → Keeps P (gets f)
  gets-Keeps f = record { keeps = λ s p. p }

  pub fail-Keeps : {A : Type 0} → ToleratesErrors P → (e : Error) → Keeps {A = A} P (fail e)
  fail-Keeps t e = record { keeps = λ s p. t.tolerates e s p }

  pub if-Keeps :
      {A : Type 0} (t : Bool) (m k : M S A) → Keeps P m → Keeps P k → Keeps P (if t then m else k)
  if-Keeps true m k p q = p
  if-Keeps false m k p q = q

  -- The same for a call that looks at its state first.
  pub if_state-Keeps :
      {A : Type 0} (t : S → Bool) (m k : M S A)
      → Keeps P m
      → Keeps P k
      → Keeps P (λ s. if t s then m s else k s)
  if_state-Keeps t m k p q = record { keeps = λ s x. either (t s) s (p.keeps s x) (q.keeps s x) }
    where
      either :
          (b : Bool) (s : S)
          → P (ending (m s).0) (m s).1
          → P (ending (k s).0) (k s).1
          → P (ending (if b then m s else k s).0) (if b then m s else k s).1
      either true s x y = x
      either false s x y = y

  -- A call whose text depends on the state that it starts in.
  pub at_state-Keeps :
      {A : Type 0} (f : S → M S A) → ((s : S) → Keeps P (f s)) → Keeps P (λ s. f s s)
  at_state-Keeps f k = record { keeps = λ s p. (k s).keeps s p }

  kept_next :
      {A B : Type 0} (f : A → M S B) (x : Outcome A × S)
      → ((a : A) → Keeps P (f a))
      → P (ending x.0) x.1
      → P (ending (next f x).0) (next f x).1
  kept_next f (ok a, s) k p = (k a).keeps s p
  kept_next f (err e, s) k p = p
  kept_next f (panic, s) k p = p
  kept_next f (timeout, s) k p = p

  pub bind-Keeps :
      {A B : Type 0} (m : M S A) (f : A → M S B)
      → Keeps P m
      → ((a : A) → Keeps P (f a))
      → Keeps P (m >>= f)
  bind-Keeps m f k l = record { keeps = λ s p. kept_next f (m s) l (k.keeps s p) }

  pub then-Keeps :
      {B : Type 0} (m : M S (Unit {0})) (k : M S B) → Keeps P m → Keeps P k → Keeps P (m >> k)
  then-Keeps m k p q = record { keeps = λ s x. kept_next (λ _. k) (m s) (λ _. q) (p.keeps s x) }

-- What a call returns, when it returns, satisfies `Q`.
pub record Gives {S A : Type 0} (Q : A → Type 0) (m : M S A) : Type 0 where
  pub gives : (s : S) (a : A) → (m s).0 ≡ ok a → Q a

module _ {S B : Type 0} (Q : B → Type 0) where
  given_next :
      {A : Type 0} (f : A → M S B) (x : Outcome A × S) (r : B)
      → ((a : A) → Gives Q (f a))
      → (next f x).0 ≡ ok r
      → Q r
  given_next f (ok a, s) r k h = (k a).gives s r h
  given_next f (err e, s) r k h = absurd (cc h)
  given_next f (panic, s) r k h = absurd (cc h)
  given_next f (timeout, s) r k h = absurd (cc h)

  pub bind-Gives :
      {A : Type 0} (m : M S A) (f : A → M S B) → ((a : A) → Gives Q (f a)) → Gives Q (m >>= f)
  bind-Gives m f k = record { gives = λ s r h. given_next f (m s) r k h }

  pub then-Gives : (m : M S (Unit {0})) (k : M S B) → Gives Q k → Gives Q (m >> k)
  then-Gives m k g = record { gives = λ s r h. given_next (λ _. k) (m s) r (λ _. g) h }

-- A call whose rest relies on what its first part returns.
pub bind_given-Keeps :
    {S A B : Type 0} (P : Ending → S → Type 0) (Q : A → Type 0) (m : M S A) (f : A → M S B)
    → Keeps P m
    → Gives Q m
    → ((a : A) → Q a → Keeps P (f a))
    → Keeps P (m >>= f)
bind_given-Keeps {S} {A} {B} P Q m f k g l = record {
  keeps = λ s p. rest (m s) (k.keeps s p) (g.gives s);
}
  where
    rest :
        (x : Outcome A × S)
        → P (ending x.0) x.1
        → ((a : A) → x.0 ≡ ok a → Q a)
        → P (ending (next f x).0) (next f x).1
    rest (ok a, s) p q = (l a (q a refl)).keeps s p
    rest (err e, s) p q = p
    rest (panic, s) p q = p
    rest (timeout, s) p q = p

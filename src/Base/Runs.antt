-- ===== src/Base/Runs.antt =====
-- What holds of every run of code that changes a state or throws: a relation between the states
-- before and behind it, and an exception that the program itself throws.
use mathlib.Core.Bool.{Bool, true, false}
use wembed.Base.Tests.{if◌then◌else◌}
use wembed.Base.Results.{
  Exception, out_of_fuel, Result, ok, throw, ◌>>=◌, return, fail, throw_if, assert,
}

-- Every exception but the one of a loop of the model that has no fuel left.
abbrev pub IsRaised : Exception → Type 0
IsRaised out_of_fuel = ⊥
IsRaised _ = Unit {0}

abbrev pub Outcome : {S A : Type 0} → (S → S → Type 0) → S → Result (A × S) → Type 0
Outcome R s (ok (a, t)) = R s t
Outcome R s (throw e) = IsRaised e

pub record Runs {S A : Type 0} (R : S → S → Type 0) (c : S → Result (A × S)) : Type 0 where
  pub at : (s : S) → Outcome R s (c s)

module _ {S : Type 0} {R : S → S → Type 0} where
  Outcome-bind :
      {A B : Type 0} (trans : (s t u : S) → R s t → R t u → R s u) (s : S) (r : Result (A × S))
      (f : A → S → Result (B × S))
      → Outcome R s r
      → ((a : A) → Runs R (f a))
      → Outcome R s (elim r [ ok (a, t) ↦ f a t | throw e ↦ throw e ])
  Outcome-bind {B = B} trans s (ok (a, t)) f h k = after (f a t) h ((k a).at t)
    where
      after : (r : Result (B × S)) → R s t → Outcome R t r → Outcome R s r
      after (ok (b, u)) p q = trans s t u p q
      after (throw e) p q = q
  Outcome-bind trans s (throw e) f h k = h

  pub Runs-bind :
      {A B : Type 0} {c : S → Result (A × S)} {f : A → S → Result (B × S)}
      → ((s t u : S) → R s t → R t u → R s u)
      → Runs R c
      → ((a : A) → Runs R (f a))
      → Runs R (c >>= f)
  unfolding ◌>>=◌
  Runs-bind {c = c} {f = f} trans h k = record { at = λ s. Outcome-bind trans s (c s) f (h.at s) k }

  pub Runs-if :
      {A : Type 0} (b : Bool) {c d : S → Result (A × S)}
      → Runs R c
      → Runs R d
      → Runs R (if b then c else d)
  Runs-if true h k = h
  Runs-if false h k = k

  pub Runs-fail : {A : Type 0} (e : Exception) → IsRaised e → Runs {A = A} R (fail e)
  Runs-fail e h = record { at = λ s. h }

  pub Runs-return : {A : Type 0} (same : (s : S) → R s s) (a : A) → Runs R (return {S = S} a)
  Runs-return same a = record { at = λ s. same s }

  pub Runs-throw_if :
      (same : (s : S) → R s s) (b : Bool) (e : Exception)
      → IsRaised e
      → Runs R (throw_if {S = S} b e)
  Runs-throw_if same true e h = record { at = λ s. h }
  Runs-throw_if same false e h = record { at = λ s. same s }

  pub Runs-assert : (same : (s : S) → R s s) (b : Bool) → Runs R (assert {S = S} b)
  Runs-assert same true = record { at = λ s. same s }
  Runs-assert same false = record { at = λ s. tt }

module _ {S : Type 0} (R : S → S → Type 0) where
  then_at :
      {A B : Type 0} (Q : S → Type 0) (s : S) (r : Result (A × S)) (f : A → S → Result (B × S))
      → Outcome (λ x t. Q t) s r
      → ((a : A) (t : S) → Q t → Outcome R s (f a t))
      → Outcome R s (elim r [ ok (a, t) ↦ f a t | throw e ↦ throw e ])
  then_at Q s (ok (a, t)) f h k = k a t h
  then_at Q s (throw e) f h k = h

  -- What holds of the states behind the first part is there for the second one.
  pub Outcome-then :
      {A B : Type 0} (Q : S → Type 0) (c : S → Result (A × S)) (f : A → S → Result (B × S)) (s : S)
      → Outcome (λ x t. Q t) s (c s)
      → ((a : A) (t : S) → Q t → Outcome R s (f a t))
      → Outcome R s ((c >>= f) s)
  unfolding ◌>>=◌
  Outcome-then Q c f s h k = then_at Q s (c s) f h k

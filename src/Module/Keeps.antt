-- ===== src/Module/Keeps.antt =====
-- What holds of a run that does not throw.
use wembed.Base.{Result, ok, throw}

abbrev pub Post : {S A : Type 0} → (S → S → Type 0) → S → Result (A × S) → Type 0
Post R s (ok (a, t)) = R s t
Post R s (throw e) = Unit {0}

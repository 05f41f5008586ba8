-- ===== src/Base/Preserve.antt =====
-- Operations that keep a reflexive and transitive relation between the states before and after.
-- The rules follow the shape of a `do` block, so a proof is one term for each operation.
use mathlib.Core.Bool.{Bool, true, false}
use chaop.Base.State.{Stateful, ◌>>=◌, ◌>>◌, pure, gets, done}
use mathlib.Core.Option.{Option, none, some}
use chaop.Base.Tests.{if◌then◌else◌}

pub record Preorder (S : Type 0) : Type 1 where
  pub rel : S → S → Type 0
  pub reflexive : (s : S) → rel s s
  pub transitive : (s t u : S) → rel s t → rel t u → rel s u

pub record Keeps {S A : Type 0} (R : Preorder S) (m : Stateful S A) : Type 0 where
  pub along : (s : S) → R.rel s (m s).1

module _ {S : Type 0} {R : Preorder S} where
  pub pure-Keeps : {A : Type 0} (a : A) → Keeps R (pure a)
  unfolding pure
  pure-Keeps a = record { along = λ s. R.reflexive s }

  pub done-Keeps : Keeps R done
  unfolding done
  done-Keeps = record { along = λ s. R.reflexive s }

  pub gets-Keeps : {A : Type 0} (f : S → A) → Keeps R (gets f)
  unfolding gets
  gets-Keeps f = record { along = λ s. R.reflexive s }

  pub bind-Keeps :
      {A B : Type 0} {m : Stateful S A} {f : A → Stateful S B}
      → Keeps R m
      → ((a : A) → Keeps R (f a))
      → Keeps R (m >>= f)
  unfolding ◌>>=◌
  bind-Keeps {m = m} {f = f} h k = record {
    along = λ s. R.transitive s (m s).1 _ (h.along s) ((k (m s).0).along (m s).1);
  }

  pub then-Keeps :
      {A B : Type 0} {m : Stateful S A} {k : Stateful S B}
      → Keeps R m
      → Keeps R k
      → Keeps R (m >> k)
  unfolding ◌>>◌
  then-Keeps {m = m} {k = k} h g = record {
    along = λ s. R.transitive s (m s).1 _ (h.along s) (g.along (m s).1);
  }

  pub if-Keeps :
      {A : Type 0} (b : Bool) {m k : Stateful S A}
      → Keeps R m
      → Keeps R k
      → Keeps R (if b then m else k)
  if-Keeps true h g = h
  if-Keeps false h g = g

  pub option-Keeps :
      {A B : Type 0} (o : Option A) {m : Stateful S B} {k : A → Stateful S B}
      → Keeps R m
      → ((a : A) → Keeps R (k a))
      → Keeps R (elim o [ none ↦ m | some a ↦ k a ])
  option-Keeps none h g = h
  option-Keeps (some a) h g = g a

-- Every outcome of an operation, with the state it leaves, satisfies a predicate.
pub record Ensures {S A : Type 0} (P : A → S → Type 0) (m : Stateful S A) : Type 0 where
  pub holds : (s : S) → P (m s).0 (m s).1

module _ {S : Type 0} {A B : Type 0} {P : B → S → Type 0} where
  pub bind-Ensures :
      (m : Stateful S A) {f : A → Stateful S B} → ((a : A) → Ensures P (f a)) → Ensures P (m >>= f)
  unfolding ◌>>=◌
  bind-Ensures m h = record { holds = λ s. (h (m s).0).holds (m s).1 }

  pub then-Ensures : (m : Stateful S A) {k : Stateful S B} → Ensures P k → Ensures P (m >> k)
  unfolding ◌>>◌
  then-Ensures m h = record { holds = λ s. h.holds (m s).1 }

-- A read of the state brings a fact about what it read.
module _ {S A B : Type 0} {P : B → S → Type 0} where
  pub gets-Ensures :
      (f : S → A) (Q : A → Type 0) (k : A → Stateful S B)
      → ((s : S) → Q (f s))
      → ((a : A) → Q a → Ensures P (k a))
      → Ensures P (gets f >>= k)
  unfolding gets ◌>>=◌
  gets-Ensures f Q k fact h = record { holds = λ s. (h (f s) (fact s)).holds s }

module _ {S B : Type 0} {P : B → S → Type 0} where
  pub if-Ensures :
      (b : Bool) {m k : Stateful S B} → Ensures P m → Ensures P k → Ensures P (if b then m else k)
  if-Ensures true h g = h
  if-Ensures false h g = g

-- The continuation may use what the first operation ensures.
module _ {S A B : Type 0} {P : B → S → Type 0} (Q : A → S → Type 0) where
  pub chain-Ensures :
      {m : Stateful S A} (k : A → Stateful S B)
      → Ensures Q m
      → ((a : A) (s : S) → Q a s → P (k a s).0 (k a s).1)
      → Ensures P (m >>= k)
  unfolding ◌>>=◌
  chain-Ensures {m = m} k h g = record { holds = λ s. g (m s).0 (m s).1 (h.holds s) }

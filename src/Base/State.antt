-- ===== src/Base/State.antt =====
-- The state monad, and relations that a step keeps between the states before and after.

abbrev pub Stateful : Type 0 → Type 0 → Type 0
Stateful S A = S → A × S

infixl 5 ◌>>=◌ ◌>>◌
unfoldable pub ◌>>=◌ : {S A B : Type 0} → Stateful S A → (A → Stateful S B) → Stateful S B
◌>>=◌ m f s = let (a, s') = m s in f a s'

unfoldable pub ◌>>◌ : {S A B : Type 0} → Stateful S A → Stateful S B → Stateful S B
◌>>◌ m k s = let (a, s') = m s in k s'

unfoldable pub pure : {S A : Type 0} → A → Stateful S A
pure a s = (a, s)

unfoldable pub gets : {S A : Type 0} → (S → A) → Stateful S A
gets f s = (f s, s)

unfoldable pub done : {S : Type 0} → Stateful S (Unit {0})
done s = (tt, s)

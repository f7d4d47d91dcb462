-- ===== src/Base/Tests.antt =====
-- Boolean tests on the native numbers, the conditional, and results that may be errors.
use Prim.Native.Nat.{ℕ, ◌≤◌, ◌<◌, compare, Ordering}
use mathlib.Core.Path.{◌≡◌, refl, subst}
use mathlib.Core.Logic.{◌↔◌, ◌⊎◌, inl, inr}
use mathlib.Core.Bool.{Bool, true, false, ◌&&◌}
use mathlib.Core.Option.{Option, none, some}
use native.Mathlib.Omega.{arith}

abbrev pub ltb : ℕ → ℕ → Bool
ltb a b = elim (compare a b) [ Ordering.lt ↦ true | _ ↦ false ]

abbrev pub leb : ℕ → ℕ → Bool
leb a b = elim (compare a b) [ Ordering.gt ↦ false | _ ↦ true ]

infix 50 ◌==◌
abbrev pub ◌==◌ : ℕ → ℕ → Bool
a == b = elim (compare a b) [ Ordering.eq ↦ true | _ ↦ false ]

infix 1 if◌then◌else◌
abbrev pub if◌then◌else◌ {ℓ} : {A : Type ℓ} → Bool → A → A → A
if true then x else y = x
if false then x else y = y

pub ltb→lt : (a b : ℕ) → ltb a b ≡ true → a < b
ltb→lt a b h = ground arith

pub leb→le : (a b : ℕ) → leb a b ≡ true → a ≤ b
leb→le a b h = ground arith

pub ==_iff : (a b : ℕ) → ((a == b) ≡ true) ↔ (a ≡ b)
==_iff a b = ground arith

pub and-true : (a b : Bool) → (a && b) ≡ true → (a ≡ true) × (b ≡ true)
and-true true true h = (refl, refl)
and-true true false h = cc
and-true false b h = cc

-- To split on a computed value and keep the equation.
pub Bool-cases : (b : Bool) → (b ≡ true) ⊎ (b ≡ false)
Bool-cases true = inl refl
Bool-cases false = inr refl

pub Option-cases {ℓ} : {A : Type ℓ} (o : Option A) → (o ≡ none) ⊎ ((a : A) × (o ≡ some a))
Option-cases none = inl refl
Option-cases (some a) = inr (a, refl)

-- What a service method returns: a value, or the exception that it throws.
pub data Result {ℓ κ} (E : Type κ) (A : Type ℓ) : Type (ℓ ⊔ κ) where
  ok : A → Result E A
  err : E → Result E A

infixl 5 ◌>>=◌ ◌>>◌
unfoldable pub ◌>>=◌ {ℓ κ μ} :
    {E : Type μ} {A : Type ℓ} {B : Type κ} → Result E A → (A → Result E B) → Result E B
ok a >>= f = f a
err e >>= f = err e

abbrev pub ◌>>◌ {ℓ μ} : {E : Type μ} {B : Type ℓ} → Result E (Unit {0}) → Result E B → Result E B
m >> k = m >>= λ _. k

-- `if (!test) throw e`
abbrev pub require {μ} : {E : Type μ} → Bool → E → Result E (Unit {0})
require true e = ok tt
require false e = err e

-- `if (!found) throw e`
abbrev pub or_throw {ℓ μ} : {E : Type μ} {A : Type ℓ} → Option A → E → Result E A
or_throw none e = err e
or_throw (some a) e = ok a

-- Inversion of a step that did not throw.
pub require-ok {μ} : {E : Type μ} (b : Bool) (e : E) {u : Unit {0}} → require b e ≡ ok u → b ≡ true
require-ok true e h = refl
require-ok false e h = cc

pub or_throw-ok {ℓ μ} :
    {E : Type μ} {A : Type ℓ} (o : Option A) (e : E) {a : A} → or_throw o e ≡ ok a → o ≡ some a
or_throw-ok none e h = cc
or_throw-ok (some x) e h = cc

pub >>=-eq-ok {ℓ κ μ} :
    {E : Type μ} {A : Type ℓ} {B : Type κ} (m : Result E A) (f : A → Result E B) {b : B}
    → (m >>= f) ≡ ok b
    → (a : A) × (m ≡ ok a) × (f a ≡ ok b)
unfolding ◌>>=◌
>>=-eq-ok (ok a) f h = (a, refl, h)
>>=-eq-ok (err e) f h = cc

-- A method throws, or answers with a value that `P` holds of.
pub data Ends {ℓ κ μ} {E : Type μ} {A : Type ℓ} (P : A → Type κ)
    : Result E A → Type (ℓ ⊔ κ ⊔ μ) where
  answers : {a : A} → P a → Ends P (ok a)
  throws : {e : E} → Ends P (err e)

pub Ends-bind {ℓ κ ν μ} :
    {E : Type μ} {A : Type ℓ} {B : Type κ} {P : B → Type ν} {m : Result E A} {f : A → Result E B}
    → ((a : A) → m ≡ ok a → Ends P (f a))
    → Ends P (m >>= f)
unfolding ◌>>=◌
Ends-bind {m = ok a} h = h a refl
Ends-bind {m = err e} h = throws

pub Ends-ok {ℓ κ μ} :
    {E : Type μ} {A : Type ℓ} {P : A → Type κ} {r : Result E A} {a : A} → Ends P r → r ≡ ok a → P a
Ends-ok {P} (answers p) h = subst P (cc h) p
Ends-ok throws h = cc

pub Ends-then {ℓ κ ν ξ μ} :
    {E : Type μ} {A : Type ℓ} {B : Type κ} {Q : A → Type ξ} {P : B → Type ν} {m : Result E A}
    {f : A → Result E B}
    → Ends Q m
    → ((a : A) → Q a → Ends P (f a))
    → Ends P (m >>= f)
unfolding ◌>>=◌
Ends-then (answers {a} q) h = h a q
Ends-then throws h = throws

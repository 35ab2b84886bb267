-- ===== src/Prelude/Tests.antt =====
-- Boolean tests on the native numbers, the conditional, and the wrap-around of Go's uint64.
use Prim.Native.Nat.{ℕ, ◌+◌, ◌%◌, ◌^◌, compare, Ordering}
use mathlib.Core.Path.{◌≡◌, refl, subst}
use mathlib.Core.Logic.{◌⊎◌, inl, inr}
use mathlib.Core.Bool.{Bool, true, false}
use mathlib.Core.Option.{Option, none, some, some-injective}

abbrev pub ltb : ℕ → ℕ → Bool
ltb a b = elim (compare a b) [ Ordering.lt ↦ true | _ ↦ false ]

abbrev pub leb : ℕ → ℕ → Bool
leb a b = elim (compare a b) [ Ordering.gt ↦ false | _ ↦ true ]

infix 50 ◌==◌
abbrev pub ◌==◌ : ℕ → ℕ → Bool
a == b = elim (compare a b) [ Ordering.eq ↦ true | _ ↦ false ]

infix 1 if◌then◌else◌
abbrev pub if◌then◌else◌ {ℓ} : {A : Type ℓ} → Bool → A → A → A
if true then x else y = x
if false then x else y = y

-- `n++` on a uint64.
abbrev pub incr64 : ℕ → ℕ
incr64 n = (n + 1) % 2 ^ 64

-- An entry of a map or of a heap, written.
abbrev pub update {ℓ} : {A : Type ℓ} → (ℕ → A) → ℕ → A → ℕ → A
update f k v j = if j == k then v else f j

-- To split on a computed value and keep the equation.
pub Bool-cases : (b : Bool) → (b ≡ true) ⊎ (b ≡ false)
Bool-cases true = inl refl
Bool-cases false = inr refl

pub Option-cases {ℓ} : {A : Type ℓ} (o : Option A) → (o ≡ none) ⊎ ((a : A) × (o ≡ some a))
Option-cases none = inl refl
Option-cases (some a) = inr (a, refl)

-- Go code that may panic: `none` is the panic.
infixl 5 ◌>>=◌
abbrev pub ◌>>=◌ {ℓ κ} : {A : Type ℓ} {B : Type κ} → Option A → (A → Option B) → Option B
none >>= f = none
some a >>= f = f a

pub >>=-eq-some {ℓ κ} :
    {A : Type ℓ} {B : Type κ} (m : Option A) (f : A → Option B) {b : B}
    → (m >>= f) ≡ some b
    → (a : A) × (m ≡ some a) × (f a ≡ some b)
>>=-eq-some none f h = cc
>>=-eq-some (some a) f h = (a, refl, h)

-- `P` of the value, if there is one.
pub record Each {ℓ κ} {A : Type ℓ} (P : A → Type κ) (m : Option A) : Type (ℓ ⊔ κ) where
  pub at : (a : A) → m ≡ some a → P a

module _ {ℓ κ} {A : Type ℓ} {P : A → Type κ} where
  pub Each-none : Each P none
  Each-none = record { at = λ a e. cc }

  pub Each-some : {a : A} → P a → Each P (some a)
  Each-some h = record { at = λ b e. subst P (some-injective _ _ e) h }

  pub Each-if :
      (b : Bool) (m n : Option A)
      → (b ≡ true → Each P m)
      → (b ≡ false → Each P n)
      → Each P (if b then m else n)
  Each-if true m n h k = h refl
  Each-if false m n h k = k refl

  pub Each-mono {μ} : {Q : A → Type μ} {m : Option A} → ((a : A) → P a → Q a) → Each P m → Each Q m
  Each-mono f h = record { at = λ a e. f a (h.at a e) }

  pub Each-bind {μ} :
      {B : Type μ} (m : Option B) (f : B → Option A)
      → ((b : B) → m ≡ some b → Each P (f b))
      → Each P (m >>= f)
  Each-bind none f h = Each-none
  Each-bind (some b) f h = h b refl

-- ===== src/Prelude/Options.antt =====
-- Chains of steps that may fail, for `do` blocks over an option.
use spellbook.Prelude.Tests.{if◌then◌else◌}
use mathlib.Core.Path.{◌≡◌, refl, sym, ◌∙◌, subst}
use mathlib.Core.Bool.{Bool, true, false, not, ◌&&◌}
use mathlib.Core.Option.{Option, none, some, some-injective}

infixl 5 ◌>>=◌ ◌>>◌
abbrev pub ◌>>=◌ {ℓ κ} : {A : Type ℓ} {B : Type κ} → Option A → (A → Option B) → Option B
none >>= f = none
some a >>= f = f a

abbrev pub ◌>>◌ {ℓ} : {B : Type ℓ} → Option (Unit {0}) → Option B → Option B
m >> k = m >>= λ _. k

-- `if not b: raise`
abbrev pub guard : Bool → Option (Unit {0})
guard true = some tt
guard false = none

pub bind-some {ℓ κ} :
    {A : Type ℓ} {B : Type κ} (m : Option A) (f : A → Option B) (b : B)
    → (m >>= f) ≡ some b
    → (a : A) × (m ≡ some a) × (f a ≡ some b)
bind-some none f b h = absurd cc
bind-some (some a) f b h = (a, refl, h)

pub bind_of {ℓ κ} :
    {A : Type ℓ} {B : Type κ} (m : Option A) (f : A → Option B) (a : A)
    → m ≡ some a
    → (m >>= f) ≡ f a
bind_of m f a h = rw h

pub guard-some {ℓ} :
    {B : Type ℓ} (t : Bool) (k : Option B) (b : B)
    → (guard t >> k) ≡ some b
    → (t ≡ true) × (k ≡ some b)
guard-some true k b h = (refl, h)
guard-some false k b h = absurd cc

-- A chain that succeeds goes on from what its first step gave.
pub bind_same {ℓ κ} :
    {A : Type ℓ} {B : Type κ} (m : Option A) (f : A → Option B) (a : A) (b : B)
    → m ≡ some a
    → (m >>= f) ≡ some b
    → f a ≡ some b
bind_same m f a b h k = sym (bind_of m f a h) ∙ k

pub if-some {ℓ} :
    {A : Type ℓ} (t : Bool) (x : Option A) (a : A)
    → (if t then x else none) ≡ some a
    → (t ≡ true) × (x ≡ some a)
if-some true x a h = (refl, h)
if-some false x a h = absurd cc

-- What holds of one value holds of the other.
pub some-carry {ℓ κ} : {A : Type ℓ} (P : A → Type κ) {a b : A} → some a ≡ some b → P a → P b
some-carry P h p = subst P (some-injective _ _ h) p

-- The branch that is taken.
pub if_true {ℓ} : {A : Type ℓ} (t : Bool) (x y z : A) → t ≡ true → (if t then x else y) ≡ z → x ≡ z
if_true true x y z h k = k
if_true false x y z h k = absurd cc

pub if_false {ℓ} :
    {A : Type ℓ} (t : Bool) (x y z : A) → t ≡ false → (if t then x else y) ≡ z → y ≡ z
if_false true x y z h k = absurd cc
if_false false x y z h k = k

pub guard-true : (t : Bool) → guard t ≡ some tt → t ≡ true
guard-true true h = refl
guard-true false h = absurd cc

pub both : (a b : Bool) → (a && b) ≡ true → (a ≡ true) × (b ≡ true)
both true b h = (refl, h)
both false b h = absurd cc

pub not-true : (t : Bool) → not t ≡ true → t ≡ false
not-true true h = absurd cc
not-true false h = refl

pub guard_of {ℓ} : {B : Type ℓ} (t : Bool) (k : Option B) → t ≡ true → (guard t >> k) ≡ k
guard_of true k h = refl
guard_of false k h = absurd cc

-- ===== src/Base/Results.antt =====
-- Rust's `Result`, with the error type first, and `?` as the bind of a do block.
use mathlib.Core.Path.{◌≡◌, refl, subst}
use mathlib.Core.Logic.{◌⊎◌, inl, inr}
use mathlib.Core.Bool.{Bool, true, false}
use mathlib.Core.Option.{Option, none, some}

pub data Result {ℓ κ} (E : Type ℓ) (A : Type κ) : Type (ℓ ⊔ κ) where
  ok : A → Result E A
  err : E → Result E A

infixl 5 ◌>>=◌ ◌>>◌
abbrev pub ◌>>=◌ {ℓ κ μ} :
    {E : Type ℓ} {A : Type κ} {B : Type μ} → Result E A → (A → Result E B) → Result E B
ok a >>= f = f a
err e >>= f = err e

abbrev pub ◌>>◌ {ℓ κ} : {E : Type ℓ} {B : Type κ} → Result E (Unit {0}) → Result E B → Result E B
m >> k = m >>= λ _. k

-- An early `return Err(e)` under a test.
abbrev pub fail_if {ℓ} : {E : Type ℓ} → Bool → E → Result E (Unit {0})
fail_if true e = err e
fail_if false e = ok tt

-- `Option::ok_or`.
abbrev pub ok_or {ℓ κ} : {E : Type ℓ} {A : Type κ} → Option A → E → Result E A
ok_or none e = err e
ok_or (some a) e = ok a

-- `Result::map`.
abbrev pub map_ok {ℓ κ μ} :
    {E : Type ℓ} {A : Type κ} {B : Type μ} → (A → B) → Result E A → Result E B
map_ok f (ok a) = ok (f a)
map_ok f (err e) = err e

pub Result-cases {ℓ κ} :
    {E : Type ℓ} {A : Type κ} (r : Result E A) → ((a : A) × (r ≡ ok a)) ⊎ ((e : E) × (r ≡ err e))
Result-cases (ok a) = inl (a, refl)
Result-cases (err e) = inr (e, refl)

-- `P` holds of the value, if there is one.
abbrev pub OnOk {ℓ κ μ} : {E : Type ℓ} {A : Type κ} → (A → Type μ) → Result E A → Type μ
OnOk P (ok a) = P a
OnOk P (err e) = Unit

pub OnOk-ok {ℓ κ μ} :
    {E : Type ℓ} {A : Type κ} (P : A → Type μ) {r : Result E A} {a : A} → r ≡ ok a → OnOk P r → P a
OnOk-ok P e h = subst (OnOk P) e h

pub map_ok-OnOk {ℓ κ μ ν} :
    {E : Type ℓ} {A : Type κ} {B : Type μ} (P : B → Type ν) (f : A → B) (r : Result E A)
    → ((a : A) → r ≡ ok a → P (f a))
    → OnOk P (map_ok f r)
map_ok-OnOk P f (ok a) h = h a refl
map_ok-OnOk P f (err e) h = tt

pub >>=-OnOk {ℓ κ μ ν} :
    {E : Type ℓ} {A : Type κ} {B : Type μ} (P : B → Type ν) (r : Result E A) (f : A → Result E B)
    → ((a : A) → OnOk P (f a))
    → OnOk P (r >>= f)
>>=-OnOk P (ok a) f h = h a
>>=-OnOk P (err e) f h = tt

-- What a chain that succeeds has passed.
pub fail_if-ok {ℓ κ} :
    {E : Type ℓ} {A : Type κ} (b : Bool) (e : E) (r : Result E A) (a : A)
    → (fail_if b e >> r) ≡ ok a
    → (b ≡ false) × (r ≡ ok a)
fail_if-ok true e r a h = absurd (cc)
fail_if-ok false e r a h = (refl, h)

pub >>=-ok {ℓ κ μ} :
    {E : Type ℓ} {A : Type κ} {B : Type μ} (r : Result E A) (f : A → Result E B) (b : B)
    → (r >>= f) ≡ ok b
    → (a : A) × (r ≡ ok a) × (f a ≡ ok b)
>>=-ok (ok a) f b h = (a, refl, h)
>>=-ok (err e) f b h = absurd (cc)

pub ok-injective {ℓ κ} :
    {E : Type ℓ} {A : Type κ} (a b : A) → ◌≡◌ {A = Result E A} (ok a) (ok b) → a ≡ b
ok-injective a b h = OnOk-ok (λ x. a ≡ x) h refl

pub bind-OnOk {ℓ κ μ ν} :
    {E : Type ℓ} {A : Type κ} {B : Type μ} (P : B → Type ν) (r : Result E A) (f : A → Result E B)
    → ((a : A) → r ≡ ok a → OnOk P (f a))
    → OnOk P (r >>= f)
bind-OnOk P (ok a) f h = h a refl
bind-OnOk P (err e) f h = tt

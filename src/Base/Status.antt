-- ===== src/Base/Status.antt =====
-- The status codes of report.h as results: a value, or the code that ends a line.
use Prim.Native.Nat.{ℕ}
use mathlib.Core.Bool.{false}
use mathlib.Core.Path.{◌≡◌, subst}
use g_carvin.Base.Tests.{◌==◌}

pub data Result {ℓ} (A : Type ℓ) : Type ℓ where
  ok : A → Result A
  fail : ℕ → Result A

infixl 5 ◌>>=◌
abbrev pub ◌>>=◌ {ℓ κ} : {A : Type ℓ} {B : Type κ} → Result A → (A → Result B) → Result B
ok a >>= next = next a
fail status >>= next = fail status

-- A claim about the value, if there is one.
abbrev pub AllOk {ℓ κ} : {A : Type ℓ} → (A → Type κ) → Result A → Type κ
AllOk P (ok a) = P a
AllOk P (fail status) = Unit

pub AllOk-bind {ℓ κ η θ} :
    {A : Type ℓ} {B : Type κ} (P : A → Type η) (Q : B → Type θ) (r : Result A) (next : A → Result B)
    → AllOk P r
    → ((a : A) → P a → AllOk Q (next a))
    → AllOk Q (r >>= next)
AllOk-bind P Q (ok a) next h step = step a h
AllOk-bind P Q (fail status) next h step = tt

pub AllOk-weaken {ℓ η θ} :
    {A : Type ℓ} (P : A → Type η) (Q : A → Type θ) (r : Result A)
    → AllOk P r
    → ((a : A) → P a → Q a)
    → AllOk Q r
AllOk-weaken P Q (ok a) h step = step a h
AllOk-weaken P Q (fail status) h step = tt

pub AllOk-use {ℓ η} :
    {A : Type ℓ} (P : A → Type η) (r : Result A) {a : A} → r ≡ ok a → AllOk P r → P a
AllOk-use P r e h = subst (AllOk P) e h

-- A claim about the value, and no refusal with the status of success.
abbrev pub Checked {ℓ} : {A : Type ℓ} → (A → Type 0) → Result A → Type 0
Checked P (ok a) = P a
Checked P (fail status) = (status == 0) ≡ false

pub Checked-bind {ℓ κ} :
    {A : Type ℓ} {B : Type κ} (P : A → Type 0) (Q : B → Type 0) (r : Result A) (next : A → Result B)
    → Checked P r
    → ((a : A) → P a → Checked Q (next a))
    → Checked Q (r >>= next)
Checked-bind P Q (ok a) next h step = step a h
Checked-bind P Q (fail status) next h step = h

pub Checked-AllOk {ℓ} : {A : Type ℓ} (P : A → Type 0) (r : Result A) → Checked P r → AllOk P r
Checked-AllOk P (ok a) h = h
Checked-AllOk P (fail status) h = tt

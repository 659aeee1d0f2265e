-- ===== src/Expr/Result.antt =====
-- The outcome of a parse, and two outcomes that agree.
use mathlib.Core.Path.{◌≡◌, refl}
use mathlib.Core.Logic.{◌≢◌}
use mathlib.Core.Bool.{Bool, true, false}
use chippy.Prelude.{if◌then◌else◌}

-- `failed` is a returned error; `no_fuel` is no outcome of the program.
pub data Result {ℓ} (A : Type ℓ) : Type ℓ where
  ok : A → Result A
  failed no_fuel : Result A

abbrev pub and_then {ℓ κ} : {A : Type ℓ} {B : Type κ} → Result A → (A → Result B) → Result B
and_then (ok a) f = f a
and_then failed f = failed
and_then no_fuel f = no_fuel

-- Both kept within their fuel with one outcome, and `P` holds of its value if it has one.
pub data Agree {ℓ κ} {A : Type ℓ} (P : A → Type κ) : Result A → Result A → Type (ℓ ⊔ κ) where
  same : {a : A} → P a → Agree P (ok a) (ok a)
  error : Agree P failed failed

module _ {ℓ κ} {A : Type ℓ} {P : A → Type κ} where
  pub Agree-path : {r s : Result A} → Agree P r s → r ≡ s
  Agree-path (same h) = refl
  Agree-path error = refl

  pub Agree-if :
      (b : Bool) {q r s t : Result A}
      → (b ≡ true → Agree P q s)
      → Agree P r t
      → Agree P (if b then q else r) (if b then s else t)
  Agree-if true h k = h refl
  Agree-if false h k = k

  pub Agree-and_then {ℓ' κ'} :
      {B : Type ℓ'} {Q : B → Type κ'} {r s : Result A} {f g : A → Result B}
      → Agree P r s
      → ((a : A) → P a → Agree Q (f a) (g a))
      → Agree Q (and_then r f) (and_then s g)
  Agree-and_then (same {a} h) k = k a h
  Agree-and_then error k = error

  pub Agree-weaken {κ'} :
      {Q : A → Type κ'} {r s : Result A} → ((a : A) → P a → Q a) → Agree P r s → Agree Q r s
  Agree-weaken f (same {a} h) = same (f a h)
  Agree-weaken f error = error

  -- An outcome that agrees with itself is one of the program's.
  pub Agree-returns : {r s : Result A} → Agree P r s → r ≢ no_fuel
  Agree-returns (same h) = cc
  Agree-returns error = cc

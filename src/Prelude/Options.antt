-- ===== src/Prelude/Options.antt =====
-- Equations between optional values.
use mathlib.Core.Path.{◌≡◌, refl}
use mathlib.Core.Bool.{Bool, true, false}
use mathlib.Core.Option.{none, some}
use csc.Prelude.Tests.{if◌then◌else◌}

pub some_injective {ℓ} : {A : Type ℓ} {x y : A} → some x ≡ some y → x ≡ y
some_injective e = cc

-- A value that is there although a test may take it away.
pub not_blocked {ℓ} :
    {A : Type ℓ} {x y : A} (b : Bool)
    → (if b then none else some x) ≡ some y
    → (b ≡ false) × (x ≡ y)
not_blocked true e = cc
not_blocked false e = (refl, some_injective e)

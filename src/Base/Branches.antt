-- ===== src/Base/Branches.antt =====
-- The branch that a test takes.
use mathlib.Core.Path.{◌≡◌}
use mathlib.Core.Bool.{Bool, true, false}
use orientation_enrollment_p.Base.Tests.{if◌then◌else◌}

pub then_taken {ℓ} : {A : Type ℓ} (b : Bool) (x y : A) → b ≡ true → (if b then x else y) ≡ x
then_taken b x y h = rw h

pub else_taken {ℓ} : {A : Type ℓ} (b : Bool) (x y : A) → b ≡ false → (if b then x else y) ≡ y
else_taken b x y h = rw h

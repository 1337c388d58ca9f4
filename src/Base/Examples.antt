-- ===== src/Base/Examples.antt =====
-- Runs of the shared helpers on concrete values.

use mathlib.Core.Path.{◌≡◌, refl}
use mathlib.Core.Option.{some}
use tw_stock_android_spec.Base.Int.{pos, negsuc}
use tw_stock_android_spec.Base.Decimal.{of_nat, div, divided, ◌-ᴰ◌}

one_third :
    div (of_nat 1) (of_nat 3)
    ≡ some (record { coefficient = pos 3333333333333333333333333333; scale = 28 })
unfolding div divided
one_third = refl

two_thirds :
    div (of_nat 2) (of_nat 3)
    ≡ some (record { coefficient = pos 6666666666666666666666666667; scale = 28 })
unfolding div divided
two_thirds = refl

below_zero :
    record { coefficient = pos 25; scale = 1 } -ᴰ record { coefficient = pos 300; scale = 2 }
    ≡ record { coefficient = negsuc 49; scale = 2 }
unfolding ◌-ᴰ◌
below_zero = refl

-- ===== src/Common/Decimal.antt =====
-- `${n}`: a natural number as decimal digits.
use Prim.Native.Nat.{ℕ, zero, suc, ◌+◌, ◌/◌, ◌%◌}
use mathlib.Core.List.{[], ◌∷◌}
use lab_keeper.Common.Tests.{ltb, if◌then◌else◌}
use lab_keeper.Common.Texts.{Text}

-- The digits of `n` in front of `rest`; `n + 1` rounds of fuel are enough, since `n / 10 < n`.
unfoldable pub decimal_from : ℕ → ℕ → Text → Text
decimal_from zero n rest = rest
decimal_from (suc fuel) n rest =
    let longer = decimal_from fuel (n / 10) ((b'0' + n % 10) ∷ rest) in
    if ltb n 10 then (b'0' + n) ∷ rest else longer

unfoldable pub decimal : ℕ → Text
unfolding decimal_from
decimal n = decimal_from (suc n) n []

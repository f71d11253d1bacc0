-- ===== src/Prelude/Loops.antt =====
-- Counted loops, `for i in start..start + rounds`.
use Prim.Native.Nat.{ℕ, zero, suc, ◌+◌, ◌<◌}
use mathlib.Core.Bool.{Bool, false}
use native.Mathlib.Omega.{arith}
use field_os.Prelude.Tests.{if◌then◌else◌}
use mathlib.Core.Path.{◌≡◌, refl}

unfoldable pub for_range {ℓ} : {S : Type ℓ} → ℕ → ℕ → (ℕ → S → S) → S → S
for_range zero i body s = s
for_range (suc rounds) i body s = for_range rounds (i + 1) body (body i s)

-- A view of the state that every round keeps in step is in step after the loop.
pub for_range_view {ℓ κ} :
    {S : Type ℓ} {T : Type κ} (view : S → T) (body : ℕ → S → S) (step : ℕ → T → T)
    → ((i : ℕ) (s : S) → view (body i s) ≡ step i (view s))
    → (rounds i : ℕ) (s : S) → view (for_range rounds i body s) ≡ for_range rounds i step (view s)
unfolding for_range
for_range_view view body step h zero i s = refl
for_range_view view body step h (suc rounds) i s =
    rw (← h i s) (for_range_view view body step h rounds (i + 1) (body i s))

-- The same loop with a `break`: it ends at the first index at which `stop` holds.
unfoldable pub for_until {ℓ} : {S : Type ℓ} → ℕ → ℕ → (ℕ → Bool) → (ℕ → S → S) → S → S
for_until zero i stop body s = s
for_until (suc rounds) i stop body s =
    let rest = for_until rounds (i + 1) stop body (body i s) in if stop i then s else rest

pub for_until-for_range {ℓ} :
    {S : Type ℓ} (rounds i : ℕ) (stop : ℕ → Bool) (body : ℕ → S → S) (s : S)
    → ((k : ℕ) → k < i + rounds → stop k ≡ false)
    → for_until rounds i stop body s ≡ for_range rounds i body s
unfolding for_until for_range
for_until-for_range zero i stop body s goes = refl
for_until-for_range (suc rounds) i stop body s goes =
    rw (goes i (omega arith))
      (for_until-for_range rounds (i + 1) stop body (body i s) (λ k h. goes k (omega arith)))

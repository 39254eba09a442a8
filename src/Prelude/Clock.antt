-- ===== src/Prelude/Clock.antt =====
-- `SystemTime` and `Duration` as numbers of nanoseconds. The clock is an argument of what reads it.
use Prim.Native.Nat.{ℕ, ◌-◌, ◌*◌}
use mathlib.Core.Bool.{Bool, true}
use trust_system.Prelude.Tests.{ltb, if◌then◌else◌}

-- `t.elapsed().map_or(true, |elapsed| elapsed > max_age)`: a time that is still to come is an error.
abbrev pub older_than : ℕ → ℕ → ℕ → Bool
older_than t max_age now = if ltb now t then true else ltb max_age (now - t)

abbrev pub milliseconds : ℕ → ℕ
milliseconds n = n * 1000000

abbrev pub seconds : ℕ → ℕ
seconds n = n * 1000000000

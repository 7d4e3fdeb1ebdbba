-- ===== src/Prelude/Ids.antt =====
-- Identifiers and times. A `Uuid` is only ever compared, and a `DateTime` only compared or moved by
-- a duration, so both are numbers; times are in seconds.
use Prim.Native.Nat.{ℕ}

abbrev pub Uuid : Type 0
Uuid = ℕ

abbrev pub DateTime : Type 0
DateTime = ℕ

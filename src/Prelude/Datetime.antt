-- ===== src/Prelude/Datetime.antt =====
-- Python's `datetime`, as far as the program reads it: the instant in microseconds, on one time
-- line for all zones, and what `tzinfo` and `utcoffset()` say.
use Prim.Native.Nat.{ℕ}
use mathlib.Core.Bool.{Bool, true, false}

pub data Zone : Type 0 where
  -- `tzinfo is None`; a zone whose `utcoffset()` is None; offset 0; another offset
  naive unset utc other_offset : Zone

pub record Datetime : Type 0 where
  pub instant : ℕ
  pub zone : Zone

-- `value.tzinfo is not None and value.utcoffset() is not None`
abbrev pub is_aware : Datetime → Bool
is_aware t = aware t.zone
  where
    aware : Zone → Bool
    aware Zone.naive = false
    aware Zone.unset = false
    aware Zone.utc = true
    aware Zone.other_offset = true

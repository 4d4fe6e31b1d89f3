-- ===== src/Abi/Segments.antt =====
-- Segments of the personalities' tables, as their initialisers write them.
use linux_abiemu.Prelude.{ℕ, ℤ, pos, neg, List, [], ◌∷◌, length, ◌-◌}
use linux_abiemu.Util.Map.{MapSegment, SegMap, null, vector}

abbrev pub segment : ℤ → ℤ → SegMap → MapSegment
segment start stop map = record { start = start; stop = stop; map = map }

-- `{ -1 }`
abbrev pub last_segment : MapSegment
last_segment = record { start = neg 1; stop = pos 0; map = null }

-- `lnx_err_table`: 512 to 514, the kernel's restart codes, become EINTR.
abbrev pub lnx_err_table : List ℕ
lnx_err_table = 4 ∷ 4 ∷ 4 ∷ []

-- Every personality's error map: its table from 0 on, the restart codes, the end.
abbrev pub err_segments : List ℕ → List MapSegment
err_segments table =
    segment (pos 0) (pos (length table - 1)) (vector table)
    ∷ segment (pos 512) (pos 514) (vector lnx_err_table)
    ∷ last_segment
    ∷ []

-- ===== src/Flash/Delta/Outcome.antt =====
-- What loading a flash delta comes to, whatever bytes the file holds.
use casio_cg.Base.{ℕ, ◌+◌, ◌*◌, ◌≤◌, ◌<◌, ◌≡◌, Bool, true, false, Option, none, some}
use casio_cg.Flash.Delta.{Applied, DeltaError, bad_magic, truncated, bad_offset}

-- How a file of the given size ends, by the error and the number k of pages that were applied; `ok`
-- tells whether the file starts with the magic. Only without it the error is `bad_magic`. With none it is the magic and k whole records; `truncated` names the byte after k records, from
-- which less than a record is left; a bad offset is that of a whole record, whose page would not
-- lie within the limit.
pub Ending : Bool → ℕ → ℕ → ℕ → ℕ → Option DeltaError → Type 0
Ending ok page limit size k none = (ok ≡ true) × (size ≡ 4 + k * (4 + page))
Ending ok page limit size k (some bad_magic) = (ok ≡ false) × (k ≡ 0)
Ending ok page limit size k (some (truncated p)) =
    (ok ≡ true) × (p ≡ 4 + k * (4 + page)) × (p < size) × (size < p + (4 + page))
Ending ok page limit size k (some (bad_offset off)) =
    (ok ≡ true) × (limit < off + page) × (4 + (k + 1) * (4 + page) ≤ size)

-- An outcome, which leaves the bytes from the limit on alone.
pub IsOutcome : ℕ → ℕ → ℕ → (ℕ → ℕ) → Option Applied → Type 0
IsOutcome page limit size a o =
    (r : Applied) × (o ≡ some r)
    × ((j : ℕ) → limit ≤ j → r.array j ≡ a j)
    × Ending true page limit size r.pages r.error

-- ===== src/Storage.antt =====
-- src/storage.rs: the device that `Storage` describes, and `read_range`, which reads any range of
-- a block by reads on the `READ_SIZE` grid. The device is a parameter: its constants and the
-- outcome of `read` for a block, an offset and a length. A destination buffer is the list that
-- fills it, and of the staging window only the length matters.
pub mod Range
use littlefs2_pure.Prelude.{
  ℕ, ◌+◌, ◌-◌, ◌*◌, ◌/◌, ◌%◌, min, Bool, not, ◌&&◌, ◌||◌, Option, none, some, List, [], ◌++◌, ltb,
  leb, ◌==◌, if◌then◌else◌, length, take, Result, ok, err, ◌>>=◌, io, geometry_mismatch,
}
use littlefs2_pure.Prelude.Words.{u32_max}
use littlefs2_pure.Prelude.Bytes.{slice}

pub record Storage : Type 0 where
  pub read_size : ℕ
  pub block_size : ℕ
  pub block_count : ℕ
  pub read : ℕ → ℕ → ℕ → Option (List ℕ)

-- `storage.read(..).map_err(|_| Error::Io)`
unfoldable pub read_or_io : Storage → ℕ → ℕ → ℕ → Result (List ℕ)
read_or_io s block off n = elim (s.read block off n) [ none ↦ err io | some bytes ↦ ok bytes ]

-- The length of the grid windows that cover the range, where their end is a usize.
unfoldable pub covering : ℕ → ℕ → ℕ → Option ℕ
covering unit pos total =
    let top = (pos + total + (unit - 1)) / unit * unit in
    if ltb u32_max (pos + total)
    then none
    else if ltb u32_max top
    then none
    else some (top - (pos - pos % unit))

-- The bytes of the leading fragment: what the window that contains `pos` holds of the range.
unfoldable pub read_lead : Storage → ℕ → ℕ → ℕ → Result (List ℕ)
read_lead s block pos total =
    let unit = s.read_size in
    let skew = pos % unit in
    if skew == 0
    then ok []
    else read_or_io s block (pos - skew) unit >>= λ window.
        ok (slice window skew (min (unit - skew) total))

-- The aligned interior.
unfoldable pub read_whole : Storage → ℕ → ℕ → ℕ → Result (List ℕ)
read_whole s block pos whole = if whole == 0 then ok [] else read_or_io s block pos whole

-- The trailing fragment, of fewer than `unit` bytes.
unfoldable pub read_rest : Storage → ℕ → ℕ → ℕ → Result (List ℕ)
read_rest s block pos left =
    if left == 0
    then ok []
    else read_or_io s block pos s.read_size >>= λ window. ok (take left window)

-- The three parts one after the other.
unfoldable pub read_parts : Storage → ℕ → ℕ → ℕ → Result (List ℕ)
unfolding read_lead read_whole read_rest
read_parts s block pos total = do
  lead ← read_lead s block pos total
  let at = pos + length lead
  let left = total - length lead
  let whole = left / s.read_size * s.read_size
  middle ← read_whole s block at whole
  rest ← read_rest s block (at + whole) (left - whole)
  ok (lead ++ (middle ++ rest))

-- One read that covers the range.
unfoldable pub read_covering : Storage → ℕ → ℕ → ℕ → ℕ → Result (List ℕ)
read_covering s block pos total n =
    let skew = pos % s.read_size in
    read_or_io s block (pos - skew) n >>= λ window. ok (slice window skew total)

unfoldable pub read_range : Storage → ℕ → ℕ → ℕ → ℕ → Result (List ℕ)
unfolding read_or_io covering read_covering read_parts
read_range s block off total window_len =
    let unit = s.read_size in
    if unit == 0 || ltb window_len unit
    then err geometry_mismatch
    else if total == 0
    then ok []
    else if off % unit == 0 && total % unit == 0
    then read_or_io s block off total
    else elim (covering unit off total) [
      | none ↦ read_parts s block off total
      | some n ↦
          (if leb n window_len
            then read_covering s block off total n
            else read_parts s block off total)
    ]

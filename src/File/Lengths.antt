-- ===== src/File/Lengths.antt =====
-- The end of `File::set_len`, whatever the writers that it calls do.
use littlefs2_pure.Prelude.{ℕ, ◌<◌, ◌≡◌, ◌⊎◌, min, true, Result, ok, err}
use littlefs2_pure.File.{File}

-- The handle is on the same entry, with the same options.
abbrev pub SameEntry : File → File → Type 0
SameEntry f f' = (f'.options ≡ f.options) × (f'.parent ≡ f.parent) × (f'.id ≡ f.id)

-- What a change of the length to `m` leaves of a handle `f`.
abbrev pub IsEnd : {σ : Type 0} → File → ℕ → Result (Unit {0}) × File × σ → Type 0
IsEnd f m (ok u, f', st') =
    ((m ≡ f.size) × (f' ≡ f))
    ⊎ ((f'.dirty ≡ true)
        × (f'.cursor ≡ min f.cursor f'.size)
        × ((f.size < m) ⊎ (f'.size ≡ m))
        × SameEntry f f')
IsEnd f m (err e, f', st') = ((f.size < m) ⊎ (f' ≡ f)) × (f'.dirty ≡ f.dirty) × SameEntry f f'

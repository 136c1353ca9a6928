-- ===== src/Mount/Gate.antt =====
-- What `mount` has found where it returns a handle.
use littlefs2_pure.Prelude.{
  ℕ, ◌≡◌, refl, inl, inr, not, ◌&&◌, Bool, true, false, Bool-cases, List, ◌==◌, ==_iff,
  if◌then◌else◌, Result, ok, err, ◌>>=◌, ◌>>◌, chain_ok, geometry_mismatch, unformatted, arith,
}
use littlefs2_pure.Geometry
use littlefs2_pure.Geometry.{validate, validate_iff, IsUsable}
use littlefs2_pure.Storage.{Storage, read_or_io}
use littlefs2_pure.Meta.Pair.{MetadataPair, parse}
use littlefs2_pure.Superblock.{Superblock, from_pair}
use littlefs2_pure.Superblock.Gate.{IsSupported, from_pair-IsSupported}
use littlefs2_pure.Resolve.{Run, stuck, panics, returns}
use littlefs2_pure.Mount.{FsCommits, open_volume, is_all_erased, and_with, recover, mount}

abbrev pub device_of : Storage → ℕ → Geometry.Device
device_of s prog_size = record {
  read_size = s.read_size;
  prog_size = prog_size;
  block_size = s.block_size;
  block_count = s.block_count;
}

-- The device holds a volume that this code supports, of the device's own geometry.
pub record IsVolume (s : Storage) (prog_size : ℕ) (sb : Superblock) : Type 0 where
  pub usable : IsUsable (device_of s prog_size)
  pub block_a : List ℕ
  pub block_b : List ℕ
  pub reads_a : read_or_io s 0 0 s.block_size ≡ ok block_a
  pub reads_b : read_or_io s 1 0 s.block_size ≡ ok block_b
  pub written : (is_all_erased block_a && is_all_erased block_b) ≡ false
  pub pair : MetadataPair
  pub parses : parse 0 block_a 1 block_b ≡ ok pair
  pub decodes : from_pair pair ≡ ok sb
  pub supported : IsSupported sb
  pub same_size : sb.block_size ≡ s.block_size
  pub same_count : sb.block_count ≡ s.block_count

-- A guard in front of a result that returns.
passed :
    {A : Type 0} (b : Bool) (e : littlefs2_pure.Prelude.Error) (rest : Result A) (a : A)
    → (if b then err e else rest) ≡ ok a
    → (b ≡ false) × (rest ≡ ok a)
passed true e rest a h = absurd (cc)
passed false e rest a h = (refl, h)

is_equal : (a b : ℕ) → not (a == b) ≡ false → a ≡ b
is_equal a b h = ground arith

open_volume-IsVolume :
    (s : Storage) (prog_size len_a len_b : ℕ) (sb : Superblock)
    → open_volume s prog_size len_a len_b ≡ ok sb
    → IsVolume s prog_size sb
unfolding open_volume
open_volume-IsVolume s prog_size len_a len_b sb h =
    let (u, valid, h1) = chain_ok (validate (device_of s prog_size)) _ h in
    let (sized, h2) = passed (not (len_a == s.block_size && len_b == s.block_size)) _ _ sb h1 in
    let (block_a, ra, h3) = chain_ok (read_or_io s 0 0 s.block_size) _ h2 in
    let (block_b, rb, h4) = chain_ok (read_or_io s 1 0 s.block_size) _ h3 in
    let (some_bits, h5) = passed (is_all_erased block_a && is_all_erased block_b) _ _ sb h4 in
    let (pair, p, h6) = chain_ok (parse 0 block_a 1 block_b) _ h5 in
    let (sb', d, h7) = chain_ok (from_pair pair) _ h6 in
    let (size, h8) = passed (not (sb'.block_size == s.block_size)) _ _ sb h7 in
    let (count, h9) = passed (not (sb'.block_count == s.block_count)) _ _ sb h8 in
    let same : sb' ≡ sb = cc in
    rw (← same) (record {
      usable = (validate_iff (device_of s prog_size)).0 valid;
      block_a = block_a;
      block_b = block_b;
      reads_a = ra;
      reads_b = rb;
      written = some_bits;
      pair = pair;
      parses = p;
      decodes = d;
      supported = from_pair-IsSupported pair sb' d;
      same_size = is_equal sb'.block_size s.block_size size;
      same_count = is_equal sb'.block_count s.block_count count;
    })

-- Both steps of a chain that returns.
and_with_ok :
    {A B σ : Type 0} (m : Run A × σ) (k : A → σ → Run B × σ) (b : B) (out : σ)
    → and_with m k ≡ (returns (ok b), out)
    → (a : A) × (st : σ) × (m ≡ (returns (ok a), st)) × (k a st ≡ (returns (ok b), out))
unfolding and_with
and_with_ok (stuck, st) k b out h = absurd (cc)
and_with_ok (panics, st) k b out h = absurd (cc)
and_with_ok (returns (err e), st) k b out h = absurd (cc)
and_with_ok (returns (ok a), st) k b out h = (a, st, refl, h)

-- A mount that returns a handle has found a device that meets the geometry and whose root pair
-- holds a superblock of a supported version that names the device's own block size and count; the
-- handle has this superblock.
pub mount-IsVolume :
    {σ : Type 0} (fs : FsCommits σ) (len_a len_b : ℕ) (st st' : σ) (sb : Superblock)
    → mount fs len_a len_b st ≡ (returns (ok sb), st')
    → IsVolume (fs.storage st) fs.prog_size sb
unfolding mount
mount-IsVolume fs len_a len_b st st' sb h =
    let (sb0, st0, first, h1) = and_with_ok _ _ sb st' h in
    let (u, st1, second, last) = and_with_ok (recover fs st0) _ sb st' h1 in
    open_volume-IsVolume (fs.storage st) fs.prog_size len_a len_b sb (cc)

-- ===== src/Fat16/Rounds.antt =====
-- The bytes of a chain of clusters, and the rounds of the read loop.
use peachos.Base.{
  ℕ, suc, ◌+◌, ◌-◌, ◌*◌, ◌%◌, ◌≤◌, ◌<◌, ◌≡◌, refl, some, List, ◌++◌, false, le→ltb, lt→ltb, lt→leb,
  ◌^◌,
}
use peachos.Base.Ints.{int_rem}
use peachos.Status.{Result, ok}
use peachos.Disk.{Device, DiskStream, sector_size, diskstreamer_read, diskstreamer_seek}
use peachos.Disk.Sector.{range}
use peachos.Fat16.{
  FatPrivate, stops, get_cluster_for_offset, size_of_cluster_bytes, cluster_to_sector, read_loop,
}
use peachos.Fat16.Cluster.{Walk, here, step, fat_entry}

-- Where the bytes of a cluster begin on the disk.
abbrev pub cluster_start : FatPrivate → ℕ → ℕ
cluster_start private c =
    (private.root_directory.ending_sector_pos
      + c * private.header.sectors_per_cluster
      - 2 * private.header.sectors_per_cluster)
    * sector_size

-- A cluster of the data area that ends below byte 2 ^ 31 of the disk.
abbrev pub InReach : FatPrivate → ℕ → Type 0
InReach private c =
    (2 ≤ c) × (cluster_start private c + private.header.sectors_per_cluster * sector_size < 2 ^ 31)

-- The first `total` bytes of the clusters from `c` on along the chain, all of them in reach.
pub data Contents (image : ℕ → ℕ) (private : FatPrivate) : ℕ → ℕ → List ℕ → Type 0 where
  last :
      {c total : ℕ}
      → InReach private c
      → total ≤ private.header.sectors_per_cluster * sector_size
      → Contents image private c total (range image (cluster_start private c) total)
  more :
      {c total : ℕ} {bytes : List ℕ}
      → InReach private c
      → private.header.sectors_per_cluster * sector_size < total
      → stops (fat_entry image private c) ≡ false
      → Contents image private
          (fat_entry image private c)
          (total - private.header.sectors_per_cluster * sector_size)
          bytes
      → Contents image private c total (
          range image (cluster_start private c) (private.header.sectors_per_cluster * sector_size)
          ++ bytes)

-- The private data with its streams of the table and of the clusters at `p` and `q`.
unfoldable pub streams_at : FatPrivate → ℕ → ℕ → FatPrivate
streams_at private p q = record private {
  fat_read_stream = record { pos = p; disk = 0 };
  cluster_read_stream = record { pos = q; disk = 0 };
}

pub Walk-snoc :
    (next : ℕ → ℕ) {n c d : ℕ}
    → Walk next n c d
    → stops (next d) ≡ false
    → Walk next (suc n) c (next d)
Walk-snoc next here h = step h here
Walk-snoc next (step g w) h = step g (Walk-snoc next w h)

-- One round of the loop, from what its calls return.
module _ (dev : Device) (private private' : FatPrivate) (c offset total d s : ℕ)
    (stream' : DiskStream) (bytes : List ℕ)
    (found : get_cluster_for_offset dev private c offset ≡ some (ok d, private'))
    (sector : cluster_to_sector private' d ≡ s) (small : d < 2 ^ 31)
    (fits_int : total < 2 ^ 31) where
  abbrev Reads : ℕ → Type 0
  Reads n =
      diskstreamer_read dev
        (diskstreamer_seek private'.cluster_read_stream
          ((s * sector_size + int_rem offset (size_of_cluster_bytes private)) % 2 ^ 32))
        n
      ≡ some (ok tt, stream', bytes)

  pub last_round :
      (fuel : ℕ)
      → total ≤ size_of_cluster_bytes private
      → Reads total
      → read_loop (suc fuel) dev private c offset total
        ≡ some (ok tt, record private' { cluster_read_stream = stream' }, bytes)
  unfolding read_loop
  last_round fuel fits e =
      rw
        (
          found,
          sector,
          lt→leb (2 ^ 31) d small,
          lt→leb (2 ^ 31) total fits_int,
          le→ltb (size_of_cluster_bytes private) total fits,
          e,
          lt→leb (2 ^ 31) total fits_int,
          le→ltb (size_of_cluster_bytes private) total fits,
        )
        refl

  pub next_round :
      (fuel : ℕ) (res : Result (Unit {0})) (after : FatPrivate) (rest : List ℕ)
      → size_of_cluster_bytes private < total
      → Reads (size_of_cluster_bytes private)
      → read_loop fuel dev
          (record private' { cluster_read_stream = stream' })
          c
          ((offset + size_of_cluster_bytes private) % 2 ^ 32)
          (total - size_of_cluster_bytes private)
        ≡ some (res, after, rest)
      → read_loop (suc fuel) dev private c offset total ≡ some (res, after, bytes ++ rest)
  unfolding read_loop
  next_round fuel res after rest long e again =
      rw
        (
          found,
          sector,
          lt→leb (2 ^ 31) d small,
          lt→leb (2 ^ 31) total fits_int,
          lt→ltb (size_of_cluster_bytes private) total long,
          e,
          lt→leb (2 ^ 31) total fits_int,
          lt→ltb (size_of_cluster_bytes private) total long,
          again,
        )
        refl

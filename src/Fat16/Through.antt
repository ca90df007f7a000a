-- ===== src/Fat16/Through.antt =====
-- A file of a mounted volume, opened and read through the descriptor table.
use native.Mathlib.Numerals.{add-one}
use mathlib.Core.Path.{fun_ext}
use peachos.Base.{
  ℕ, suc, ◌+◌, ◌*◌, ◌%◌, ◌^◌, ◌<◌, ◌≡◌, ◌≢◌, refl, ap, Option, some, List, [], ◌∷◌, arith,
  get_elem?, ne→==, lt→leb, ◌==◌, if◌then◌else◌, bit_and, ==_refl,
}
use peachos.Base.Int.{pos}
use peachos.Run.{done, ◌>>=◌}
use peachos.Status.{Result, ok}
use peachos.Disk.{Device, sector_size}
use peachos.Disk.Sector.{IsAta}
use peachos.PathParser.{parse}
use peachos.File.{
  FileMode, Filesystem, FileDescriptor, free_slot, fopen, fread, file_get_descriptor,
  max_file_descriptors,
}
use peachos.File.Open.{files, fopen-opens}
use peachos.Fat16.{
  FatDirectoryItem, FatFileDescriptor, FatPrivate, file_item, fat16_read, get_first_cluster,
}
use peachos.Fat16.Cluster.{here}
use peachos.Fat16.Rounds.{Contents, streams_at}
use peachos.Fat16.File.{fat16_read-Contents}
use peachos.Fat16.Entry.{IsOnly, get_directory_entry-file}
use peachos.Fat16.Volume.{FatVolume, put, descriptor, open_at, fat16_open, volume_read, fat16_fs}

-- A read through a descriptor below 512 is one of its file system.
pub fread-reads :
    {V : Type 0} (fs : Filesystem V) (table : List (Option (FileDescriptor V))) (v v' : V)
    (d : FileDescriptor V) (i size nmemb : ℕ) (res : Result ℕ) (bytes : List ℕ)
    → get_elem? table i ≡ some (some d)
    → i + 1 < max_file_descriptors
    → size ≢ 0
    → nmemb ≢ 0
    → d.filesystem.fs_read v d.private size nmemb ≡ done (res, bytes, v')
    → fread size nmemb (pos (suc i)) (files table fs v) ≡ done (res, bytes, files table fs v')
unfolding fread file_get_descriptor
fread-reads fs table v v' d i size nmemb res bytes there small some_size some_blocks reads =
    let real : suc i ≢ 0 = omega arith in
    rw
      (
        ne→== size 0 some_size,
        ne→== nmemb 0 some_blocks,
        ne→== (suc i) 0 real,
        lt→leb max_file_descriptors (suc i) (omega arith),
        there,
        reads,
      )
      refl

module _ (dev : Device) (v : FatVolume) (name : List ℕ) (b : ℕ) (blocks : List ℕ)
    (block : v.blocks ≡ b ∷ blocks) (real : b ≢ 0) where
  -- The descriptor of a file of the root directory is put into the block.
  pub open-file :
      (k : ℕ) (item : FatDirectoryItem)
      → IsOnly (v.private.root_directory) name k item
      → bit_and item.attribute 0x10 ≡ 0
      → fat16_open dev v (name ∷ []) FileMode.read
        ≡ done (
          b,
          put b (some (record { item = file_item item; pos = 0 })) (record v { blocks = blocks }),
        )
  unfolding fat16_open open_at
  open-file k item only plain =
      rw (block, ne→== b 0 real, get_directory_entry-file dev v.private name k item only plain) refl

pub volume-reads :
    (dev : Device) (v : FatVolume) (b size nmemb : ℕ) (desc desc' : FatFileDescriptor)
    (private : FatPrivate) (res : Result ℕ) (bytes : List ℕ)
    → b ≢ 0
    → v.descriptors b ≡ some desc
    → fat16_read dev v.private desc size nmemb ≡ some (res, desc', private, bytes)
    → volume_read dev v b size nmemb
      ≡ done (res, bytes, put b (some desc') (record v { private = private }))
unfolding volume_read descriptor
volume-reads dev v b size nmemb desc desc' private res bytes real stands reads =
    rw (ne→== b 0 real, stands, reads) refl

module _ (dev : Device) (image : ℕ → ℕ) (ata : IsAta dev image) (private : FatPrivate)
    (near : private.header.reserved_sectors < 2 ^ 16)
    (byte_clusters : private.header.sectors_per_cluster < 2 ^ 8)
    (whole : private.header.sectors_per_cluster ≢ 0) (p q b : ℕ) (blocks : List ℕ)
    (descriptors : ℕ → Option FatFileDescriptor) where
  abbrev pub before : FatVolume
  before = record {
    private = streams_at private p q;
    descriptors = descriptors;
    blocks = b ∷ blocks;
  }

  -- The volume with a file open at `b`, read up to `at`.
  abbrev pub opened : FatDirectoryItem → ℕ → ℕ → ℕ → FatVolume
  opened item at p' q' = record {
    private = streams_at private p' q';
    descriptors =
        λ x. if x == b then some (record { item = file_item item; pos = at }) else descriptors x;
    blocks = blocks;
  }

  pub first-read :
      (item : FatDirectoryItem) (total : ℕ) (bytes : List ℕ)
      → get_first_cluster item < 2 ^ 16
      → Contents image private (get_first_cluster item) total bytes
      → total < 2 ^ 31
      → (p' : ℕ) × (q' : ℕ) × (fat16_read dev
            (streams_at private p q)
            (record { item = file_item item; pos = 0 })
            total
            1
          ≡ some (
            ok 1,
            record { item = file_item item; pos = total % 2 ^ 32 },
            streams_at private p' q',
            bytes,
          ))
  first-read item total bytes small k l =
      let start : 0 * (private.header.sectors_per_cluster * sector_size) ≡ 0 = omega arith in
      let end : 0 + total ≡ total = omega arith in
      let (p', q', e) =
        fat16_read-Contents dev image ata private near byte_clusters whole item p q 0 total small
          here k (omega arith) in
      (p', q', rw (start, end) at e)

  pub reopened-put :
      (item : FatDirectoryItem) (at p' q' p'' q'' : ℕ)
      → put b
          (some (record { item = file_item item; pos = at }))
          (record (opened item 0 p' q') { private = streams_at private p'' q'' })
        ≡ opened item at p'' q''
  reopened-put item at p' q' p'' q'' =
      let same : (λ (x : ℕ).
        if x == b
        then some (record { item = file_item item; pos = at })
        else (opened item 0 p' q').descriptors x)
          ≡ (opened item at p'' q'').descriptors =
        fun_ext (λ x. ground arith) in
      ap (λ (f : ℕ → Option FatFileDescriptor). record (opened item at p'' q'') { descriptors = f })
        same

  -- A mounted volume on an ATA drive, with the table below sector 2 ^ 16 and 1 to 255 sectors in a
  -- cluster; a path of drive 0 with one part, which names a file of the root directory and no
  -- other item; a first cluster of 16 bits whose chain holds the bytes asked for, fewer than
  -- 2 ^ 31 and one at least, in clusters that end below byte 2 ^ 31 of the disk; blocks for the
  -- descriptors, and a free slot whose descriptor is below 512. Then fopen and fread of what it
  -- has returned give those bytes, in the order of the chain, and report one block; the file
  -- stands behind them.
  pub fread-fopen :
      (name filename mode : List ℕ) (item : FatDirectoryItem) (k i total : ℕ) (bytes : List ℕ)
      (ds : List (Option (FileDescriptor FatVolume))) (garbage : FileDescriptor FatVolume)
      → parse filename ≡ some (some (record { drive_no = pos 0; parts = name ∷ [] }))
      → IsOnly private.root_directory name k item
      → bit_and item.attribute 0x10 ≡ 0
      → get_first_cluster item < 2 ^ 16
      → Contents image private (get_first_cluster item) total bytes
      → total ≢ 0
      → total < 2 ^ 31
      → b ≢ 0
      → b < 2 ^ 31
      → free_slot 0 ds ≡ some i
      → i + 1 < max_file_descriptors
      → (table : List (Option (FileDescriptor FatVolume))) × (p' : ℕ) × (q' : ℕ) × ((do
        (fd, s) ← fopen (some garbage) filename (b'r' ∷ mode) (files ds (fat16_fs dev) before)
        fread total 1 (pos fd) s)
          ≡ done (ok 1, bytes, files table (fat16_fs dev) (opened item (total % 2 ^ 32) p' q')))
  unfolding fat16_fs streams_at
  fread-fopen name filename mode item k i total bytes ds garbage path only plain small contents
        some_bytes total_int real low slot within =
      let (p', q', reads) = first-read item total bytes small contents total_int in
      let fs = fat16_fs dev in
      let opens = open-file dev before name b blocks refl real k item only plain in
      let (table, e, there, others) =
        fopen-opens fs ds before (opened item 0 p q) filename mode name [] path garbage b i opens
          low slot in
      let f =
        fread-reads fs table (opened item 0 p q) _ _ i total 1 (ok 1) bytes there within some_bytes
          (omega arith)
          (volume-reads dev (opened item 0 p q) b total 1 _ _ _ (ok 1) bytes real
            (rw (==_refl b) refl) reads) in
      (table, p', q', rw (e, add-one i, f, reopened-put item (total % 2 ^ 32) p q p' q') refl)

-- ===== src/Fat16/Subdirectory.antt =====
-- A subdirectory that is loaded from its clusters.
use peachos.Base.{ℕ, ◌+◌, ◌%◌, ◌*◌, ◌^◌, ◌<◌, ◌≡◌, ◌≢◌, refl, some, List, arith, ne→==, bit_and}
use peachos.Status.{ok}
use peachos.Disk.{Device, sector_size}
use peachos.Disk.Sector.{IsAta}
use peachos.Fat16.{FatDirectoryItem, live, FatPrivate, get_first_cluster, read_internal}
use peachos.Fat16.Layout.{directory_items_of}
use peachos.Fat16.Directory.{load_fat_directory, get_total_items_for_directory}
use peachos.Fat16.Items.{used, used-le, IsDirectoryAt, get_total_items_for_directory-used}
use peachos.Fat16.Cluster.{fat_entry, here}
use peachos.Fat16.Rounds.{InReach, cluster_start, Contents, last, more, streams_at}
use peachos.Fat16.File.{sector_of, sector_lem, read_loop-Contents}

-- With the stream of the directories at another place.
abbrev pub with_stream : FatPrivate → ℕ → FatPrivate
with_stream private pos = record private { directory_stream = record { pos = pos; disk = 0 } }

Contents-real :
    {image : ℕ → ℕ} {private : FatPrivate} {c total : ℕ} {bytes : List ℕ}
    → Contents image private c total bytes
    → InReach private c
Contents-real (last h f) = h
Contents-real (more h f s k) = h

-- The contents of a chain do not depend on that stream.
Contents-stream :
    {image : ℕ → ℕ} {private : FatPrivate} (pos : ℕ) {c total : ℕ} {bytes : List ℕ}
    → Contents image private c total bytes
    → Contents image (with_stream private pos) c total bytes
unfolding fat_entry
Contents-stream pos (last h f) = last h f
Contents-stream pos (more h f s k) = more h f s (Contents-stream pos k)

module _ (dev : Device) (image : ℕ → ℕ) (ata : IsAta dev image) (private : FatPrivate)
    (near : private.header.reserved_sectors < 2 ^ 16)
    (byte_clusters : private.header.sectors_per_cluster < 2 ^ 8)
    (whole : private.header.sectors_per_cluster ≢ 0) where
  count_lem :
      (p q n c : ℕ)
      → private.directory_stream.disk ≡ 0
      → cluster_start private c + 32 * (n + 1) < 2 ^ 31
      → IsDirectoryAt image (cluster_start private c) n
      → get_total_items_for_directory dev
          (streams_at private p q)
          (sector_of dev image ata private near byte_clusters whole c)
        ≡ some (
          ok (used image (cluster_start private c) n),
          streams_at (with_stream private (cluster_start private c + 32 * (n + 1))) p q,
        )
  unfolding streams_at sector_of
  count_lem p q n c disk few d =
      get_total_items_for_directory-used dev image ata (streams_at private p q)
        (sector_of dev image ata private near byte_clusters whole c) n disk few d

  data_lem :
      (p q pos c total : ℕ) {bytes : List ℕ}
      → c < 2 ^ 16
      → Contents image private c total bytes
      → total < 2 ^ 31
      → (p' : ℕ) × (q' : ℕ) × (read_internal dev
            (streams_at (with_stream private pos) p q)
            c
            0
            total
          ≡ some (ok tt, streams_at (with_stream private pos) p' q', bytes))
  unfolding read_internal
  data_lem p q pos c total small k l =
      let e : 0 * (private.header.sectors_per_cluster * sector_size) ≡ 0 = omega arith in
      let (p', q', f) =
        read_loop-Contents dev image ata (with_stream private pos) near byte_clusters whole
          (total + 1) p q 0 total here small (Contents-stream pos k) (omega arith) (omega arith) in
      (p', q', rw e at f)

  -- On an ATA drive, with the table below sector 2 ^ 16 and 1 to 255 sectors in a cluster: a
  -- subdirectory whose first cluster is `c`, with `n` entries in front of the end that lies
  -- behind the first byte of that cluster on the disk, all below byte 2 ^ 31, and whose chain, in
  -- clusters below that byte, holds as many items as there are entries that are not deleted:
  -- loading it returns the items of those first bytes of the chain, as many as that, and of the
  -- private data only the positions of the streams change.
  pub load_fat_directory-loads :
      (item : FatDirectoryItem) (p q n : ℕ) (bytes : List ℕ) (items : List FatDirectoryItem)
      → bit_and item.attribute 0x10 ≢ 0
      → get_first_cluster item < 2 ^ 16
      → private.directory_stream.disk ≡ 0
      → cluster_start private (get_first_cluster item) + 32 * (n + 1) < 2 ^ 31
      → IsDirectoryAt image (cluster_start private (get_first_cluster item)) n
      → Contents image private
          (get_first_cluster item)
          (used image (cluster_start private (get_first_cluster item)) n * 32)
          bytes
      → directory_items_of (used image (cluster_start private (get_first_cluster item)) n) bytes
        ≡ some items
      → (p' : ℕ) × (q' : ℕ) × (load_fat_directory dev (streams_at private p q) item
          ≡ some (
            live (record {
              item = items;
              total = used image (cluster_start private (get_first_cluster item)) n;
              sector_pos = 0;
              ending_sector_pos = 0;
            }),
            streams_at
                (with_stream private
                  (cluster_start private (get_first_cluster item) + 32 * (n + 1)))
                p'
                q',
          ))
  unfolding load_fat_directory
  load_fat_directory-loads item p q n bytes items marked small disk few d k parsed =
      let c = get_first_cluster item in
      let total = used image (cluster_start private c) n * 32 in
      let total_int : total < 2 ^ 31 = omega (arith, used-le image n (cluster_start private c)) in
      let wraps : total % 2 ^ 32 ≡ total = omega arith in
      let (p', q', e) =
        data_lem p q (cluster_start private c + 32 * (n + 1)) c total small k total_int in
      (
        p',
        q',
        rw
            (
              ne→== (bit_and item.attribute 0x10) 0 marked,
              sector_lem dev image ata private near byte_clusters whole p q c small
                  (Contents-real k),
              count_lem p q n c disk few d,
              wraps,
              e,
              parsed,
            )
            refl,
      )

-- ===== src/Fat16/File.antt =====
-- The contents of a file: the bytes of its clusters in the order of the chain.
use peachos.Base.{
  ℕ, zero, suc, ◌+◌, ◌-◌, ◌*◌, ◌/◌, ◌%◌, ◌^◌, ◌≤◌, ◌<◌, ◌≡◌, refl, ◌≢◌, some, List, arith, inl,
  lt→leb, append-nil, ap, ◌∙◌,
}
use native.Mathlib.Nat.{add-mul, mul-mod_left, mul-div_left}
use peachos.Base.Ints.{int_rem}
use peachos.Status.{ok}
use peachos.Disk.{Device, sector_size, diskstreamer_read, diskstreamer_seek}
use peachos.Disk.Sector.{IsAta, range}
use peachos.Disk.Stream.{diskstreamer_read-range}
use peachos.Fat16.{
  FatPrivate, FatDirectoryItem, file_item, get_cluster_for_offset, size_of_cluster_bytes,
  cluster_to_sector, read_loop, fat16_read, get_first_cluster,
}
use peachos.Fat16.Cluster.{Walk, fat_entry, fat_at, get_cluster_for_offset-Walk, Walk-small}
use peachos.Fat16.Rounds.{
  InReach, cluster_start, Contents, last, more, streams_at, Walk-snoc, last_round, next_round,
}

module _ (dev : Device) (image : ℕ → ℕ) (ata : IsAta dev image) (private : FatPrivate)
    (near : private.header.reserved_sectors < 2 ^ 16)
    (byte_clusters : private.header.sectors_per_cluster < 2 ^ 8)
    (whole : private.header.sectors_per_cluster ≢ 0) where
  abbrev pub size : ℕ
  size = private.header.sectors_per_cluster * sector_size

  pub finds :
      (p q offset : ℕ) {n c d : ℕ}
      → Walk (fat_entry image private) n c d
      → c < 2 ^ 16
      → offset < 2 ^ 31
      → offset / size ≡ n
      → (p' : ℕ) × (get_cluster_for_offset dev (streams_at private p q) c offset
          ≡ some (ok d, streams_at private p' q))
  unfolding streams_at fat_at size_of_cluster_bytes fat_entry
  finds p q offset w small l e =
      get_cluster_for_offset-Walk dev image ata
        (record private { cluster_read_stream = record { pos = q; disk = 0 } }) near p offset w
        small (omega arith) l e

  unfoldable pub sector_of : ℕ → ℕ
  sector_of c =
      private.root_directory.ending_sector_pos
      + c * private.header.sectors_per_cluster
      - 2 * private.header.sectors_per_cluster

  pub sector_lem :
      (p q c : ℕ)
      → c < 2 ^ 16
      → InReach private c
      → cluster_to_sector (streams_at private p q) c ≡ sector_of c
  unfolding cluster_to_sector streams_at sector_of
  sector_lem p q c small near_cluster =
      let spc = private.header.sectors_per_cluster in
      let end = private.root_directory.ending_sector_pos in
      let rest = (c - 2) * spc in
      let steps : c * spc ≡ rest + 2 * spc =
        let e : c ≡ c - 2 + 2 = omega (arith, near_cluster.0) in
        ap (λ k. k * spc) e ∙ add-mul (c - 2) 2 spc in
      let shift : (c + 2 ^ 32 - 2) * spc ≡ rest + 2 ^ 32 * spc =
        let e : c + 2 ^ 32 - 2 ≡ c - 2 + 2 ^ 32 = omega (arith, near_cluster.0) in
        ap (λ k. k * spc) e ∙ add-mul (c - 2) (2 ^ 32) spc in
      omega (arith, steps, shift, near_cluster.1)

  reach : (c : ℕ) → InReach private c → sector_of c * sector_size + size < 2 ^ 31
  unfolding sector_of
  reach c near_cluster = near_cluster.1

  -- The stream of the clusters reads one cluster's bytes.
  stream-reads :
      (offset c total : ℕ)
      → offset < 2 ^ 31
      → offset % size ≡ 0
      → InReach private c
      → total ≤ size
      → diskstreamer_read dev
          (record {
            pos = (sector_of c * sector_size + int_rem offset size) % 2 ^ 32 % 2 ^ 32;
            disk = 0;
          })
          total
        ≡ some (
          ok tt,
          record { pos = sector_of c * sector_size + total; disk = 0 },
          range image (sector_of c * sector_size) total,
        )
  stream-reads offset c total l e near_cluster fits =
      let b = reach c near_cluster in
      let start : (sector_of c * sector_size + 0) % 2 ^ 32 % 2 ^ 32 ≡ sector_of c * sector_size =
        omega (arith, b) in
      rw (lt→leb (2 ^ 31) offset l, e, start)
        (diskstreamer_read-range dev image ata (sector_of c * sector_size) total (inl (omega arith))
          (omega (arith, b)))

  pub start_lem : (c : ℕ) → sector_of c * sector_size ≡ cluster_start private c
  unfolding sector_of
  start_lem c = refl

  aligned : (n : ℕ) → n * size % size ≡ 0
  aligned n = mul-mod_left n size

  -- A cluster is read from its first byte on.
  cluster-reads :
      (p q n d total : ℕ)
      → n * size < 2 ^ 31
      → InReach private d
      → total ≤ size
      → diskstreamer_read dev
          (diskstreamer_seek (streams_at private p q).cluster_read_stream (
            (sector_of d * sector_size
              + int_rem (n * size) (size_of_cluster_bytes (streams_at private p q)))
            % 2 ^ 32))
          total
        ≡ some (
          ok tt,
          record { pos = sector_of d * sector_size + total; disk = 0 },
          range image (cluster_start private d) total,
        )
  unfolding diskstreamer_seek streams_at size_of_cluster_bytes sector_of
  cluster-reads p q n d total l near_cluster fits =
      stream-reads (n * size) d total l (aligned n) near_cluster fits

  -- The loop reads the contents from the cluster where the walk ends.
  pub read_loop-Contents :
      (fuel p q n total : ℕ) {c d : ℕ} {bytes : List ℕ}
      → Walk (fat_entry image private) n c d
      → c < 2 ^ 16
      → Contents image private d total bytes
      → n * size + total < 2 ^ 31
      → total < fuel
      → (p' : ℕ) × (q' : ℕ) × (read_loop fuel dev (streams_at private p q) c (n * size) total
          ≡ some (ok tt, streams_at private p' q', bytes))
  unfolding size_of_cluster_bytes streams_at
  read_loop-Contents zero p q n total w small k l enough = absurd (omega arith)
  read_loop-Contents (suc fuel) p q n total {c} w small (last {c = d} near_cluster fits) l enough =
      let far : 0 < size = omega arith in
      let (p', found) = finds p q (n * size) w small (omega arith) (mul-div_left n far) in
      let q' = sector_of d * sector_size + total in
      let d_small = Walk-small dev image ata private near w small in
      (
        p',
        q',
        last_round dev (streams_at private p q) (streams_at private p' q) c (n * size) total d
            (sector_of d) (record { pos = q'; disk = 0 })
            (range image (cluster_start private d) total) found
            (sector_lem p' q d d_small near_cluster) (omega arith) (omega arith) fuel fits
            (cluster-reads p' q n d total (omega arith) near_cluster fits),
      )
  read_loop-Contents (suc fuel) p q n total {c} w small
        (more {c = d} {bytes = rest} near_cluster long h k) l enough =
      let far : 0 < size = omega arith in
      let (p', found) = finds p q (n * size) w small (omega arith) (mul-div_left n far) in
      let q' = sector_of d * sector_size + size in
      let d_small = Walk-small dev image ata private near w small in
      let e : n * size + size ≡ suc n * size = omega arith in
      let (p'', q'', ih) =
        read_loop-Contents fuel p' q' (suc n) (total - size)
          (Walk-snoc (fat_entry image private) w h) small k (omega (arith, e)) (omega arith) in
      let wraps : (n * size + size) % 2 ^ 32 ≡ suc n * size = omega (arith, e) in
      (
        p'',
        q'',
        next_round dev (streams_at private p q) (streams_at private p' q) c (n * size) total d
            (sector_of d) (record { pos = q'; disk = 0 })
            (range image (cluster_start private d) size) found
            (sector_lem p' q d d_small near_cluster) (omega arith) (omega arith) fuel (ok tt)
            (streams_at private p'' q'') rest long
            (cluster-reads p' q n d size (omega arith) near_cluster (omega arith)) (rw wraps ih),
      )

  -- A file with a 16-bit first cluster, read from a position that is a multiple of the cluster
  -- size, in one block that ends below 2 ^ 31, where the chain holds the block and its clusters end
  -- below byte 2 ^ 31 of the disk: from an ATA drive, with the table below sector 2 ^ 16 and 1 to
  -- 255 sectors in a cluster, fat16_read returns 1 and the bytes of the clusters in the order of
  -- the chain, and moves the position behind them. Of the private data only the positions of two
  -- streams change.
  pub fat16_read-Contents :
      (item : FatDirectoryItem) (p q n total : ℕ) {d : ℕ} {bytes : List ℕ}
      → get_first_cluster item < 2 ^ 16
      → Walk (fat_entry image private) n (get_first_cluster item) d
      → Contents image private d total bytes
      → n * size + total < 2 ^ 31
      → (p' : ℕ) × (q' : ℕ) × (fat16_read dev
            (streams_at private p q)
            (record { item = file_item item; pos = n * size })
            total
            1
          ≡ some (
            ok 1,
            record { item = file_item item; pos = (n * size + total) % 2 ^ 32 },
            streams_at private p' q',
            bytes,
          ))
  unfolding fat16_read
  fat16_read-Contents item p q n total {bytes = bytes} small w k l =
      let (p', q', e) = read_loop-Contents (total + 1) p q n total w small k l (omega arith) in
      (p', q', rw (e, append-nil bytes) refl)

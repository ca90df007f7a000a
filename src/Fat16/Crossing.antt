-- ===== src/Fat16/Crossing.antt =====
-- Reads of at most a cluster that begin inside one.
use native.Mathlib.Nat.{
  mul-add-div_right, mul-add-mod_self_right, div-eq_of_lt, mod-eq_of_lt, add-zero,
}
use native.Mathlib.Numerals.{add-one}
use peachos.Base.{
  ℕ, ap, ◌∙◌, ◌+◌, ◌*◌, ◌/◌, ◌%◌, ◌^◌, ◌≤◌, ◌<◌, ◌≡◌, refl, ◌≢◌, some, arith, ◌⊎◌, inl, inr,
  append-nil, lt→leb,
}
use peachos.Status.{ok}
use peachos.Disk.{Device, sector_size, diskstreamer_read, diskstreamer_seek}
use peachos.Disk.Sector.{IsAta, range}
use peachos.Disk.Stream.{diskstreamer_read-range}
use peachos.Fat16.{
  FatPrivate, FatDirectoryItem, file_item, size_of_cluster_bytes, fat16_read, get_first_cluster,
}
use peachos.Fat16.Cluster.{Walk, fat_entry, Walk-small}
use peachos.Fat16.Rounds.{InReach, cluster_start, streams_at, last_round}
use peachos.Fat16.File.{finds, sector_of, sector_lem}

module _ (dev : Device) (image : ℕ → ℕ) (ata : IsAta dev image) (private : FatPrivate)
    (near : private.header.reserved_sectors < 2 ^ 16)
    (byte_clusters : private.header.sectors_per_cluster < 2 ^ 8)
    (whole : private.header.sectors_per_cluster ≢ 0) where
  reads_there :
      (d k total : ℕ)
      → k < private.header.sectors_per_cluster * sector_size
      → total ≤ private.header.sectors_per_cluster * sector_size
      → (k % sector_size ≡ 0) ⊎ (k % sector_size + total ≤ sector_size)
      → cluster_start private d + k + total < 2 ^ 31
      → let start = sector_of dev image ata private near byte_clusters whole d * sector_size + k in
        diskstreamer_read dev (record { pos = start; disk = 0 }) total
        ≡ some (ok tt, record { pos = start + total; disk = 0 }, range image start total)
  unfolding sector_of
  reads_there d k total inside fits sectors near_end =
      diskstreamer_read-range dev image ata _ total
        (elim sectors [ inl at_start ↦ inl (omega arith) | inr within ↦ inr (omega arith) ])
        near_end

  -- A file with a 16-bit first cluster, on an ATA drive with the table below sector 2 ^ 16 and 1 to
  -- 255 sectors in a cluster. A read of one block, of at most a cluster, from the byte `k` of the
  -- cluster `d` that the chain reaches, at the start of a sector or inside one, where the cluster
  -- and the bytes read end below byte 2 ^ 31 of the disk and of the file: fat16_read returns the
  -- bytes that follow on the disk. Those behind the end of `d` come from the cluster after it
  -- on the disk, whatever the chain says.
  pub fat16_read-range :
      (item : FatDirectoryItem) (p q n k total : ℕ) {d : ℕ}
      → get_first_cluster item < 2 ^ 16
      → Walk (fat_entry image private) n (get_first_cluster item) d
      → InReach private d
      → k < private.header.sectors_per_cluster * sector_size
      → total ≤ private.header.sectors_per_cluster * sector_size
      → (k % sector_size ≡ 0) ⊎ (k % sector_size + total ≤ sector_size)
      → cluster_start private d + k + total < 2 ^ 31
      → n * (private.header.sectors_per_cluster * sector_size) + k + total < 2 ^ 31
      → let offset = n * (private.header.sectors_per_cluster * sector_size) + k in
        (p' : ℕ) × (q' : ℕ) × (fat16_read dev
            (streams_at private p q)
            (record { item = file_item item; pos = offset })
            total
            1
          ≡ some (
            ok 1,
            record { item = file_item item; pos = (offset + total) % 2 ^ 32 },
            streams_at private p' q',
            range image (cluster_start private d + k) total,
          ))
  unfolding fat16_read streams_at size_of_cluster_bytes diskstreamer_seek sector_of
  fat16_read-range item p q n k total {d = d} small w real inside fits sectors near_end file_end =
      let s = private.header.sectors_per_cluster * sector_size in
      let far : 0 < s = omega arith in
      let steps : (n * s + k) / s ≡ n =
        mul-add-div_right far n k ∙ ap (λ m. n + m) (div-eq_of_lt inside) ∙ add-zero n in
      let rest : (n * s + k) % s ≡ k = mul-add-mod_self_right n s k ∙ mod-eq_of_lt inside in
      let d_small = Walk-small dev image ata private near w small in
      let (p', found) =
        finds dev image ata private near byte_clusters whole p q (n * s + k) w small (omega arith)
          steps in
      let sec = sector_of dev image ata private near byte_clusters whole d in
      let start : (sec * sector_size + k) % 2 ^ 32 % 2 ^ 32 ≡ sec * sector_size + k = omega arith in
      let not_negative = lt→leb (2 ^ 31) (n * s + k) (omega arith) in
      let read = reads_there d k total inside fits sectors near_end in
      let e =
        last_round dev (streams_at private p q) (streams_at private p' q) (get_first_cluster item)
          (n * s + k) total d sec (record { pos = sec * sector_size + k + total; disk = 0 })
          (range image (sec * sector_size + k) total) found
          (sector_lem dev image ata private near byte_clusters whole p' q d d_small real)
          (omega arith) (omega arith) total fits (rw (not_negative, rest, start) read) in
      (
        p',
        sec * sector_size + k + total,
        rw (add-one total, e, append-nil (range image (sec * sector_size + k) total)) refl,
      )

-- ===== src/Fat16/CrossingTests.antt =====
-- A read from the second sector of a cluster of two into the next cluster on the disk.
use peachos.Base.{ℕ, ◌+◌, ◌*◌, ◌≡◌, refl, arith, some, inl}
use peachos.Status.{ok}
use peachos.Disk.Sector.{range}
use peachos.Fat16.{FatPrivate, file_item, fat16_read, get_first_cluster}
use peachos.Fat16.Cluster.{here}
use peachos.Fat16.Decode.{header_at, item_at}
use peachos.Fat16.Rounds.{cluster_start, streams_at}
use peachos.Fat16.Sample.{image, drive, drive-IsAta}
use peachos.Fat16.SampleFile.{volume}
use peachos.Fat16.Crossing.{fat16_read-range}

abbrev two_sectors : FatPrivate
two_sectors = record volume { header = record (volume.header) { sectors_per_cluster = 2 } }

fat16_read-range_example :
    (p' : ℕ) × (q' : ℕ) × (fat16_read drive
        (streams_at two_sectors 0 0)
        (record { item = file_item (item_at image 1536); pos = 0 * (2 * 512) + 512 })
        1024
        1
      ≡ some (
        ok 1,
        record { item = file_item (item_at image 1536); pos = 1536 },
        streams_at two_sectors p' q',
        range image (cluster_start two_sectors 2 + 512) 1024,
      ))
unfolding header_at item_at get_first_cluster
fat16_read-range_example =
    fat16_read-range drive image drive-IsAta two_sectors (omega arith) (omega arith) (omega arith)
      (item_at image 1536) 0 0 0 512 1024 (omega arith) (here) (omega arith) (omega arith)
      (omega arith) (inl refl) (omega arith) (omega arith)

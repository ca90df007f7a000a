-- ===== src/Disk/Tests.antt =====
-- A drive whose byte at each position is the position's low byte.
use peachos.Base.{ℕ, ◌*◌, ◌%◌, ◌≡◌, arith, none, some, [], inl, inr}
use peachos.Status.{ok, err, eio}
use peachos.Disk.{Device, sector_size, disk_read_sector, diskstreamer_read}
use peachos.Disk.Drive.{drive_of, drive_of-IsAta}
use peachos.Disk.Sector.{IsAta, range, disk_read_sector-range}
use peachos.Disk.Stream.{diskstreamer_read-range, diskstreamer_read-overruns, diskstreamer_read-eio}

abbrev image : ℕ → ℕ
image pos = pos % 256

abbrev drive : Device
drive = drive_of image

drive-IsAta : IsAta drive image
drive-IsAta = drive_of-IsAta image (λ pos. omega arith)

diskstreamer_read-range_example :
    diskstreamer_read drive (record { pos = 1000; disk = 0 }) 20
    ≡ some (ok tt, record { pos = 1020; disk = 0 }, range image 1000 20)
diskstreamer_read-range_example =
    diskstreamer_read-range drive image drive-IsAta 1000 20 (inr (omega arith)) (omega arith)

-- 40 bytes from 24 bytes before the end of a sector.
diskstreamer_read-overruns_example :
    diskstreamer_read drive (record { pos = 1000; disk = 0 }) 40 ≡ none
diskstreamer_read-overruns_example =
    diskstreamer_read-overruns drive image drive-IsAta 1000 40
      (λ f. elim f [ inl a ↦ absurd (omega arith) | inr b ↦ absurd (omega arith) ]) (omega arith)
      (omega arith)

diskstreamer_read-eio_example :
    diskstreamer_read drive (record { pos = 0; disk = 1 }) 8
    ≡ some (err eio, record { pos = 0; disk = 1 }, [])
diskstreamer_read-eio_example =
    diskstreamer_read-eio drive (record { pos = 0; disk = 1 }) 8 (omega arith)

disk_read_sector-range_example :
    disk_read_sector drive 5 1 ≡ range image (5 * sector_size) sector_size
disk_read_sector-range_example = disk_read_sector-range drive image 5 drive-IsAta (omega arith)

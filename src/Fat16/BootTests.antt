-- ===== src/Fat16/BootTests.antt =====
-- The start on the sample volume.
use peachos.Base.{◌≡◌, ◌==◌, if◌then◌else◌, arith, some, none, [], replicate}
use peachos.Run.{done}
use peachos.File.{max_file_descriptors}
use peachos.File.Systems.{Systems}
use peachos.Fat16.{FatPrivate}
use peachos.Fat16.Volume.{FatVolume}
use peachos.Fat16.Decode.{header_at}
use peachos.Fat16.Mount.{mounted}
use peachos.Fat16.Boot.{start_disk, started, start_disk-mounts}
use peachos.Fat16.Sample.{image, drive, drive-IsAta, root-IsDirectoryAt}

abbrev unset : Systems FatVolume FatPrivate
unset = record { filesystems = []; file_descriptors = []; disk = started drive none }

start_disk-mounts_example :
    (s' : Systems FatVolume FatPrivate) × (start_disk drive unset ≡ done s')
    × (s'.disk ≡ started drive (if image 38 == 0x29 then some (mounted image 4) else none))
    × (s'.file_descriptors ≡ replicate max_file_descriptors none)
unfolding header_at
start_disk-mounts_example =
    start_disk-mounts drive image 4 unset drive-IsAta (omega arith) (omega arith) root-IsDirectoryAt

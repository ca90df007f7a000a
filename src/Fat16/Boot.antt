-- ===== src/Fat16/Boot.antt =====
-- The start of the kernel up to the mounted disk: fs_init with fat16_init of src/fs/fat16/fat16.c, and
-- disk_search_and_init.
use peachos.Base.{
  ℕ, ◌-◌, ◌*◌, ◌^◌, ◌∷◌, ◌∙◌, ◌<◌, ◌≡◌, refl, Option, none, some, replicate, Bool-cases, inl, inr,
  ◌==◌, if◌then◌else◌,
}
use peachos.Run.{Run, done, access, ◌>>=◌}
use peachos.Status.{Result, ok, err, efsnotus}
use peachos.Disk.{Device, sector_size}
use peachos.Disk.Sector.{IsAta}
use peachos.File.{max_file_descriptors}
use peachos.File.Systems.{Disk, Resolver, Systems, fs_init, fs_resolve, disk_search_and_init}
use peachos.Fat16.{FatPrivate}
use peachos.Fat16.Items.{IsDirectoryAt}
use peachos.Fat16.Decode.{header_at}
use peachos.Fat16.Directory.{fat16_resolve}
use peachos.Fat16.Volume.{FatVolume, fat16_fs}
use peachos.Fat16.Mount.{mounted, root_sector, fat16_resolve-mounts}

-- What fat16_resolve does to the disk.
unfoldable pub resolve_disk :
    Device → Disk FatVolume FatPrivate → Run (Result (Unit {0}) × Disk FatVolume FatPrivate)
resolve_disk dev disk = do
  (res, private) ← access (fat16_resolve dev disk.id)
  done (res, record disk { filesystem = some (fat16_fs dev); fs_private = private })

unfoldable pub fat16_init : Device → Resolver FatVolume FatPrivate
fat16_init dev = record { functions = fat16_fs dev; resolve = resolve_disk dev }

-- The two calls of kernel_main.
unfoldable pub start_disk :
    Device → Systems FatVolume FatPrivate → Run (Systems FatVolume FatPrivate)
start_disk dev s = do s' ← fs_init (fat16_init dev) s; disk_search_and_init s'

abbrev pub started : Device → Option FatPrivate → Disk FatVolume FatPrivate
started dev private = record {
  type = 0;
  sector_bytes = sector_size;
  id = 0;
  filesystem = elim private [ none ↦ none | some p ↦ some (fat16_fs dev) ];
  fs_private = private;
}

-- On an ATA drive whose root directory, at the place that the header gives, below sector
-- 2 ^ 22 - 2 ^ 12, ends behind `n` items, fewer than 2 ^ 16: fs_init and disk_search_and_init
-- return, whatever the kernel's tables held before. With the signature 0x29 the disk has the FAT16
-- file system and the mounted volume, and with any other neither of them; all file descriptors
-- are free.
pub start_disk-mounts :
    (dev : Device) (image : ℕ → ℕ) (n : ℕ) (s : Systems FatVolume FatPrivate)
    → IsAta dev image
    → n < 2 ^ 16
    → root_sector (header_at image) < 2 ^ 22 - 2 ^ 12
    → IsDirectoryAt image (root_sector (header_at image) * sector_size) n
    → (s' : Systems FatVolume FatPrivate) × (start_disk dev s ≡ done s')
      × (s'.disk ≡ started dev (if image 38 == 0x29 then some (mounted image n) else none))
      × (s'.file_descriptors ≡ replicate max_file_descriptors none)
unfolding start_disk fs_init fat16_init resolve_disk disk_search_and_init fs_resolve
start_disk-mounts dev image n s ata few root-near d =
    let resolved = fat16_resolve-mounts dev image ata n few root-near d in
    let table = some (fat16_init dev) ∷ replicate 11 none in
    elim (Bool-cases (image 38 == 0x29)) [
      | inl signed ↦
          let r : fat16_resolve dev 0 ≡ some (ok tt, some (mounted image n)) =
            resolved ∙ rw signed refl in
          (
            record {
              filesystems = table;
              file_descriptors = replicate max_file_descriptors none;
              disk = started dev (some (mounted image n));
            },
            rw r refl,
            rw signed refl,
            refl,
          )
      | inr other ↦
          let r : fat16_resolve dev 0 ≡ some (err efsnotus, none) = resolved ∙ rw other refl in
          (
            record {
              filesystems = table;
              file_descriptors = replicate max_file_descriptors none;
              disk = started dev none;
            },
            rw r refl,
            rw other refl,
            refl,
          )
    ]

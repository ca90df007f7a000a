-- ===== src/File/Systems.antt =====
-- src/fs/file.c: the table of file systems and fs_resolve; src/disk/disk.c: disk_search_and_init. What
-- a file system keeps for a disk, disk.fs_private, is of type P.
use peachos.Base.{ℕ, ◌+◌, Option, none, some, List, [], ◌∷◌, replicate, set?}
use peachos.Run.{Run, done, panic, access, ◌>>=◌}
use peachos.Status.{Result, ok, err}
use peachos.Disk.{sector_size}
use peachos.File.{Filesystem, FileDescriptor, max_file_descriptors}

abbrev pub max_filesystems : ℕ
max_filesystems = 12

pub record Disk (V : Type 0) (P : Type 0) : Type 0 where
  pub type : ℕ
  pub sector_bytes : ℕ
  pub id : ℕ
  pub filesystem : Option (Filesystem V)
  pub fs_private : Option P

-- A file system with its resolve function, which may change the disk.
pub record Resolver (V : Type 0) (P : Type 0) : Type 0 where
  pub functions : Filesystem V
  pub resolve : Disk V P → Run (Result (Unit {0}) × Disk V P)

-- The kernel's tables and its disk.
pub record Systems (V : Type 0) (P : Type 0) : Type 0 where
  pub filesystems : List (Option (Resolver V P))
  pub file_descriptors : List (Option (FileDescriptor V))
  pub disk : Disk V P

module _ {V : Type 0} {P : Type 0} where
  -- The index of the first free entry from the head of the list on, which stands at `i`.
  unfoldable pub fs_get_free_filesystem : ℕ → List (Option (Resolver V P)) → Option ℕ
  fs_get_free_filesystem i [] = none
  fs_get_free_filesystem i (none ∷ fss) = some i
  fs_get_free_filesystem i (some fs ∷ fss) = fs_get_free_filesystem (i + 1) fss

  unfoldable pub fs_insert_filesystem : Resolver V P → Systems V P → Run (Systems V P)
  unfolding fs_get_free_filesystem
  fs_insert_filesystem fs s = elim (fs_get_free_filesystem 0 s.filesystems) [
    | none ↦ panic
    | some i ↦ do
      filesystems ← access (set? s.filesystems i (some fs))
      done (record s { filesystems = filesystems })
  ]

  -- With the file system that fat16_init returns.
  unfoldable pub fs_load : Resolver V P → Systems V P → Run (Systems V P)
  unfolding fs_insert_filesystem
  fs_load fat16 s =
      fs_insert_filesystem fat16 (record s { filesystems = replicate max_filesystems none })

  unfoldable pub fs_init : Resolver V P → Systems V P → Run (Systems V P)
  unfolding fs_load
  fs_init fat16 s =
      fs_load fat16 (record s { file_descriptors = replicate max_file_descriptors none })

  -- The loop of fs_resolve over the entries left.
  unfoldable pub fs_resolve :
      List (Option (Resolver V P)) → Disk V P → Run (Option (Filesystem V) × Disk V P)
  fs_resolve [] disk = done (none, disk)
  fs_resolve (none ∷ fss) disk = fs_resolve fss disk
  fs_resolve (some fs ∷ fss) disk = do
    (res, disk') ← fs.resolve disk
    elim res [ err e ↦ fs_resolve fss disk' | ok _ ↦ done (some fs.functions, disk') ]

  unfoldable pub disk_search_and_init : Systems V P → Run (Systems V P)
  unfolding fs_resolve
  disk_search_and_init s = do
    let zeroed : Disk V P = record {
      type = 0;
      sector_bytes = sector_size;
      id = 0;
      filesystem = none;
      fs_private = none;
    }
    (fs, disk) ← fs_resolve s.filesystems zeroed
    done (record s { disk = record disk { filesystem = fs } })

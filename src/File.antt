-- ===== src/File.antt =====
-- src/fs/file.c: the table of file descriptors over the functions of a file system, which are a
-- parameter. A pointer or error code that `open` returns is a 32-bit number. What kmalloc answers
-- to file_new_descriptor is an argument: the contents of the block, or nothing for null.
-- filesystems[] enters as the one that disk.filesystem names.
pub mod Table
pub mod Open
pub mod Systems
mod Tests
use peachos.Base.{
  ℕ, zero, suc, ◌+◌, ◌-◌, ◌*◌, ◌^◌, Bool, true, false, ◌||◌, Option, none, some, List, [], ◌∷◌,
  ◌==◌, ltb, leb, if◌then◌else◌, get_elem?, set?,
}
use peachos.Base.Int.{ℤ, pos, negsuc}
use peachos.Run.{Run, done, fault, access, ◌>>=◌}
use peachos.Status.{Result, ok, err, Errno, eio, enomem, einvagr}
use peachos.Stringos.{strncmp}
use peachos.PathParser.{PathRoot}
use peachos.PathParser
use peachos.Disk.{disk_get}
use peachos.Fat16.{FileStat}

pub data FileMode : Type 0 where
  read write append invalid : FileMode

-- struct filesystem, over the state of a volume; resolve and name are left out.
pub record Filesystem (V : Type 0) : Type 0 where
  pub fs_open : V → List (List ℕ) → FileMode → Run (ℕ × V)
  pub fs_read : V → ℕ → ℕ → ℕ → Run (Result ℕ × List ℕ × V)
  pub fs_seek : V → ℕ → ℤ → ℕ → Run (Result (Unit {0}) × V)
  pub fs_stat : V → ℕ → Run (Result FileStat × V)
  pub fs_close : V → ℕ → Run (Result (Unit {0}) × V)

pub record FileDescriptor (V : Type 0) : Type 0 where
  pub index : ℕ
  pub filesystem : Filesystem V
  pub private : ℕ
  pub disk : ℕ

-- The table, `disk.filesystem` and the volume.
pub record Files (V : Type 0) : Type 0 where
  pub file_descriptors : List (Option (FileDescriptor V))
  pub filesystem : Option (Filesystem V)
  pub volume : V

abbrev pub max_file_descriptors : ℕ
max_file_descriptors = 512

-- ISERR of a pointer: the sign bit.
abbrev pub is_err : ℕ → Bool
is_err value = leb (2 ^ 31) value

abbrev is_zero : ℤ → Bool
is_zero (pos zero) = true
is_zero _ = false

unfoldable pub file_get_mode_by_string : List ℕ → Run FileMode
file_get_mode_by_string str = do
  r ← access (strncmp str (b'r' ∷ 0 ∷ []) 1)
  w ← access (strncmp str (b'w' ∷ 0 ∷ []) 1)
  a ← access (strncmp str (b'a' ∷ 0 ∷ []) 1)
  done (
      if is_zero r
      then read
      else if is_zero w
      then write
      else if is_zero a
      then append
      else invalid)

module _ {V : Type 0} where
  -- The first free slot from the head of the list on, which stands at `i`.
  unfoldable pub free_slot : ℕ → List (Option (FileDescriptor V)) → Option ℕ
  free_slot i [] = none
  free_slot i (none ∷ ds) = some i
  free_slot i (some d ∷ ds) = free_slot (i + 1) ds

  -- The slot of the new descriptor; only its index is set.
  unfoldable pub file_new_descriptor :
      Option (FileDescriptor V) → Files V → Run (Result ℕ × Files V)
  file_new_descriptor kmalloc s = elim (free_slot 0 s.file_descriptors) [
    | none ↦ done (err enomem, s)
    | some i ↦ do
      desc ← access kmalloc
      table ← access (set? s.file_descriptors i (some (record desc { index = i + 1 })))
      done (ok i, record s { file_descriptors = table })
  ]

  unfoldable pub file_free_descriptor : FileDescriptor V → Files V → Run (Files V)
  file_free_descriptor desc s = if desc.index == 0 then fault else (do
    table ← access (set? s.file_descriptors (desc.index - 1) none)
    done (record s { file_descriptors = table }))

  -- The slot `fd - 1`; descriptor 0 reads in front of the table.
  unfoldable pub file_get_descriptor : ℤ → Files V → Run (Option (FileDescriptor V))
  file_get_descriptor (negsuc n) s = done none
  file_get_descriptor (pos zero) s = fault
  file_get_descriptor (pos (suc index)) s =
      if leb max_file_descriptors (suc index)
      then done none
      else access (get_elem? s.file_descriptors index)

  -- The clean-up of fopen on an error. The path is freed, and no descriptor has been made.
  unfoldable pub fopen_failed : Filesystem V → ℕ → Files V → Run (ℕ × Files V)
  fopen_failed fs descriptor_private_data s =
      if descriptor_private_data == 0 then done (0, s) else (do
        (res, v) ← fs.fs_close s.volume descriptor_private_data
        done (0, record s { volume = v }))

  -- From the call of `open` on.
  unfoldable pub fopen_private :
      Option (FileDescriptor V)
      → Filesystem V
      → ℕ
      → List (List ℕ)
      → FileMode
      → Files V
      → Run (ℕ × Files V)
  fopen_private kmalloc fs disk first mode s = do
    (descriptor_private_data, v) ← fs.fs_open s.volume first mode
    let s' : Files V = record s { volume = v }
    let new = (do
      (res, t) ← file_new_descriptor kmalloc s'
      elim res [
        | err e ↦ fopen_failed fs descriptor_private_data t
        | ok i ↦ do
          table ← access (
              set? t.file_descriptors i (
                some (record {
                  index = i + 1;
                  filesystem = fs;
                  private = descriptor_private_data;
                  disk = disk;
                })))
          done (i + 1, record t { file_descriptors = table })
      ])
    if is_err descriptor_private_data then fopen_failed fs descriptor_private_data s' else new

  -- From a path with a file on.
  unfoldable pub fopen_disk :
      Option (FileDescriptor V) → ℤ → List (List ℕ) → List ℕ → Files V → Run (ℕ × Files V)
  fopen_disk kmalloc (negsuc n) first mode_str s = done (0, s)
  fopen_disk kmalloc (pos drive_no) first mode_str s = elim (disk_get drive_no) [
    | none ↦ done (0, s)
    | some disk ↦ elim (s.filesystem) [
      | none ↦ done (0, s)
      | some fs ↦ do
        mode ← file_get_mode_by_string mode_str
        elim mode [ invalid ↦ done (0, s) | m ↦ fopen_private kmalloc fs disk first m s ]
    ]
  ]

  -- The descriptor, or 0 for every error.
  unfoldable pub fopen : Option (FileDescriptor V) → List ℕ → List ℕ → Files V → Run (ℕ × Files V)
  fopen kmalloc filename mode_str s = do
    root_path ← access (PathParser.parse filename)
    elim root_path [
      | none ↦ done (0, s)
      | some root ↦ elim (root.parts) [
        | [] ↦ done (0, s)
        | p ∷ ps ↦ fopen_disk kmalloc root.drive_no (p ∷ ps) mode_str s
      ]
    ]

  unfoldable pub fstat : ℤ → Files V → Run (Result FileStat × Files V)
  fstat fd s = do
    found ← file_get_descriptor fd s
    elim found [
      | none ↦ done (err eio, s)
      | some desc ↦ do
        (res, v) ← desc.filesystem.fs_stat s.volume desc.private
        done (res, record s { volume = v })
    ]

  unfoldable pub fseek : ℤ → ℤ → ℕ → Files V → Run (Result (Unit {0}) × Files V)
  fseek fd offset whence s = do
    found ← file_get_descriptor fd s
    elim found [
      | none ↦ done (err eio, s)
      | some desc ↦ do
        (res, v) ← desc.filesystem.fs_seek s.volume desc.private offset whence
        done (res, record s { volume = v })
    ]

  unfoldable pub fclose : ℤ → Files V → Run (Result (Unit {0}) × Files V)
  fclose fd s = do
    found ← file_get_descriptor fd s
    elim found [
      | none ↦ done (err eio, s)
      | some desc ↦ do
        (res, v) ← desc.filesystem.fs_close s.volume desc.private
        elim res [
          | err e ↦ done (err e, record s { volume = v })
          | ok _ ↦ do t ← file_free_descriptor desc (record s { volume = v }); done (ok tt, t)
        ]
    ]

  -- The code and the bytes put into `ptr`.
  unfoldable pub fread : ℕ → ℕ → ℤ → Files V → Run (Result ℕ × List ℕ × Files V)
  fread size nmemb (negsuc n) s = done (err einvagr, [], s)
  fread size nmemb (pos fd) s =
      if size == 0 || (nmemb == 0 || fd == 0) then done (err einvagr, [], s) else (do
        found ← file_get_descriptor (pos fd) s
        elim found [
          | none ↦ done (err einvagr, [], s)
          | some desc ↦ do
            (res, bytes, v) ← desc.filesystem.fs_read s.volume desc.private size nmemb
            done (res, bytes, record s { volume = v })
        ])

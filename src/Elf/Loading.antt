-- ===== src/Elf/Loading.antt =====
-- elf_load on an executable, on a file that is none, and where the file is missing.
use native.Mathlib.Numerals.{add-one}
use peachos.Base.{
  ℕ, ◌+◌, ◌^◌, ◌<◌, ◌≡◌, ◌≢◌, refl, ◌∙◌, Option, none, some, List, [], ◌∷◌, arith, get_elem?, drop,
  Bool, true, false, if◌then◌else◌, ◌==◌, ne→==, ◌⊎◌, inl, inr,
}
use peachos.Base.Int.{pos}
use peachos.Run.{Run, done, fault}
use peachos.Status.{Result, ok, err, Errno, einvagr}
use peachos.PathParser.{parse}
use peachos.Fat16.{FileStat}
use peachos.Fat16.Through.{fread-reads}
use peachos.File.{
  FileMode, Filesystem, FileDescriptor, Files, free_slot, fopen, fstat, fread, fclose,
  file_get_descriptor, max_file_descriptors,
}
use peachos.File.Open.{files, fopen-restores}
use peachos.Elf.{ElfHeader, Elf32Phdr, elf_validate_loaded, elf_process_pheaders}
use peachos.Elf.Layout.{header_of, program_headers, phdr_at, validate_contents}
use peachos.Elf.Load.{
  Loaded, elf_file_at, elf_file_free, written, elf_load_out, elf_load_contents, elf_load,
}
use peachos.Elf.Steps.{
  fstat-stats, process_contents-accepted, process_contents-rejected, written-done,
}

-- Where fopen cannot open the file, elf_load closes descriptor 0, which stands in front of the
-- table of descriptors.
pub elf_load-faults :
    {V : Type 0} (kmalloc : Option (FileDescriptor V)) (file memory : ℕ) (filename : List ℕ)
    (s t : Files V)
    → fopen kmalloc filename (b'r' ∷ 0 ∷ []) s ≡ done (0, t)
    → elf_load kmalloc file memory filename s ≡ fault
unfolding elf_load elf_load_out fclose file_get_descriptor
elf_load-faults {V = V} kmalloc file memory filename s t missing =
    rw missing (same_branches (file == 0))
  where
    same_branches : (b : Bool) → (let f : Run (Loaded V) = fault in if b then f else f) ≡ fault
    same_branches true = refl
    same_branches false = refl

module _ {V : Type 0} (fs : Filesystem V) (ds : List (Option (FileDescriptor V)))
    (v v1 v2 v3 v4 : V) (filename p : List ℕ) (ps : List (List ℕ))
    (path : parse filename ≡ some (some (record { drive_no = pos 0; parts = p ∷ ps })))
    (garbage : FileDescriptor V) (q i : ℕ)
    (opens : fs.fs_open v (p ∷ ps) FileMode.read ≡ done (q, v1)) (low : q < 2 ^ 31)
    (slot : free_slot 0 ds ≡ some i) (within : i + 1 < max_file_descriptors) (stat : FileStat)
    (stats : fs.fs_stat v1 q ≡ done (ok stat, v2)) (some_bytes : stat.filesize ≢ 0)
    (closes : fs.fs_close v3 q ≡ done (ok tt, v4)) (file memory : ℕ) (real_file : file ≢ 0)
    (real_memory : memory ≢ 0) where
  opened :
      (table : List (Option (FileDescriptor V))) × (get_elem? table i
        ≡ some (some (record { index = i + 1; filesystem = fs; private = q; disk = 0 })))
      × (elf_load (some garbage) file memory filename (files ds fs v)
          ≡ elf_load_contents file memory stat (i + 1) (files table fs v2))
      × (fclose (pos (i + 1)) (files table fs v3) ≡ done (ok tt, files ds fs v4))
  unfolding elf_load
  opened =
      let (table, e, there, restores) =
        fopen-restores fs ds v v1 filename (0 ∷ []) p ps path garbage q i opens low slot within in
      let some_descriptor : i + 1 ≢ 0 = omega arith in
      let f : fstat (pos (i + 1)) (files table fs v1) ≡ done (ok stat, files table fs v2) =
        rw (add-one i) (fstat-stats fs table v1 v2 _ i (ok stat) there within stats) in
      (
        table,
        there,
        rw (e, ne→== (i + 1) 0 some_descriptor, f, ne→== file 0 real_file) refl,
        restores v3 v4 closes,
      )

  read-opened :
      (res : Result ℕ) (bytes : List ℕ)
      → fs.fs_read v2 q stat.filesize 1 ≡ done (res, bytes, v3)
      → fread stat.filesize 1 (pos (i + 1)) (files opened.0 fs v2)
        ≡ done (res, bytes, files opened.0 fs v3)
  read-opened res bytes reads = rw (add-one i) (
      fread-reads fs opened.0 v2 v3 _ i stat.filesize 1 res bytes opened.1 within some_bytes
        (omega arith) reads)

  -- A file of drive 0 that the file system opens, describes, reads and closes, with a free slot
  -- whose descriptor is below 512 and with memory for the file object and for the contents. If
  -- the bytes read hold an accepted header and its program headers, elf_load succeeds: *file_out
  -- gets the bounds that these segments give to the memory of the contents, nothing is freed, and
  -- the descriptor is closed, its slot free again.
  pub elf_load-loads :
      (n : ℕ) (bytes : List ℕ) (header : ElfHeader) (phdrs : List Elf32Phdr)
      → fs.fs_read v2 q stat.filesize 1 ≡ done (ok n, bytes, v3)
      → header_of bytes ≡ some header
      → elf_validate_loaded header ≡ some (ok tt)
      → program_headers header.e_phnum (drop header.e_phoff bytes) ≡ some phdrs
      → elf_load (some garbage) file memory filename (files ds fs v)
        ≡ done (
          ok tt,
          some (file, elf_process_pheaders header (phdr_at phdrs) (elf_file_at memory)),
          [],
          files ds fs v4,
        )
  unfolding elf_load_contents elf_load_out
  elf_load-loads n bytes header phdrs reads parsed valid found =
      opened.2
      ∙ rw
          (
            read-opened (ok n) bytes reads,
            written-done memory bytes real_memory,
            process_contents-accepted bytes header phdrs (elf_file_at memory) parsed valid found,
            opened.3,
          )
          refl

  read_fails-frees :
      (e : Errno) (bytes : List ℕ)
      → (fs.fs_read v2 q stat.filesize 1 ≡ done (err e, bytes, v3))
        ⊎ ((n : ℕ) × (fs.fs_read v2 q stat.filesize 1 ≡ done (ok n, bytes, v3))
            × (validate_contents bytes ≡ some (err e)))
      → elf_load (some garbage) file memory filename (files ds fs v)
        ≡ done (err e, none, memory ∷ file ∷ [], files ds fs v4)
  unfolding elf_load_contents elf_load_out elf_file_free
  read_fails-frees e bytes (inl reads) =
      opened.2
      ∙ rw
          (
            read-opened (err e) bytes reads,
            written-done memory bytes real_memory,
            opened.3,
            ne→== memory 0 real_memory,
          )
          refl
  read_fails-frees e bytes (inr (n, reads, refused)) =
      opened.2
      ∙ rw
          (
            read-opened (ok n) bytes reads,
            written-done memory bytes real_memory,
            process_contents-rejected bytes (elf_file_at memory) e refused,
            opened.3,
            ne→== memory 0 real_memory,
          )
          refl

-- Where elf_load fails behind fopen: the volume is `v1` before and `v3` behind the failure. The
-- indices are the error and the blocks that kzalloc has given to elf_load by then, the last first.
pub data LoadError {V : Type 0} (fs : Filesystem V) (v1 v3 : V) (q file memory : ℕ)
    : Errno → List ℕ → Type 0 where
  stat_fails :
      {e : Errno}
      → fs.fs_stat v1 q ≡ done (err e, v3)
      → LoadError fs v1 v3 q file memory e (file ∷ [])
  is_empty :
      {stat : FileStat}
      → fs.fs_stat v1 q ≡ done (ok stat, v3)
      → stat.filesize ≡ 0
      → LoadError fs v1 v3 q file memory einvagr (memory ∷ file ∷ [])
  read_fails :
      {e : Errno} {stat : FileStat} {v2 : V} {bytes : List ℕ}
      → fs.fs_stat v1 q ≡ done (ok stat, v2)
      → stat.filesize ≢ 0
      → fs.fs_read v2 q stat.filesize 1 ≡ done (err e, bytes, v3)
      → LoadError fs v1 v3 q file memory e (memory ∷ file ∷ [])
  is_refused :
      {e : Errno} {stat : FileStat} {v2 : V} {n : ℕ} {bytes : List ℕ}
      → fs.fs_stat v1 q ≡ done (ok stat, v2)
      → stat.filesize ≢ 0
      → fs.fs_read v2 q stat.filesize 1 ≡ done (ok n, bytes, v3)
      → validate_contents bytes ≡ some (err e)
      → LoadError fs v1 v3 q file memory e (memory ∷ file ∷ [])

-- A file of drive 0 that the file system opens and closes, with a free slot whose descriptor is
-- below 512 and with memory for the file object and for the contents, where fstat or fread fails,
-- the file is empty, or what is read is refused: elf_load returns that error. *file_out is not
-- set, the blocks that elf_load itself has allocated are freed, the contents' first, and the
-- descriptor is closed, its slot free again.
pub elf_load-fails :
    {V : Type 0} (fs : Filesystem V) (ds : List (Option (FileDescriptor V))) (v v1 v3 v4 : V)
    (filename p : List ℕ) (ps : List (List ℕ)) (garbage : FileDescriptor V) (q i file memory : ℕ)
    (e : Errno) (freed : List ℕ)
    → parse filename ≡ some (some (record { drive_no = pos 0; parts = p ∷ ps }))
    → fs.fs_open v (p ∷ ps) FileMode.read ≡ done (q, v1)
    → q < 2 ^ 31
    → free_slot 0 ds ≡ some i
    → i + 1 < max_file_descriptors
    → fs.fs_close v3 q ≡ done (ok tt, v4)
    → file ≢ 0
    → memory ≢ 0
    → LoadError fs v1 v3 q file memory e freed
    → elf_load (some garbage) file memory filename (files ds fs v)
      ≡ done (err e, none, freed, files ds fs v4)
unfolding elf_load elf_load_contents elf_load_out elf_file_free written fread
elf_load-fails fs ds v v1 v3 v4 filename p ps garbage q i file memory e freed path opens low slot
      within closes real_file real_memory (stat_fails stats) =
    let (table, o, there, restores) =
      fopen-restores fs ds v v1 filename (0 ∷ []) p ps path garbage q i opens low slot within in
    let some_descriptor : i + 1 ≢ 0 = omega arith in
    let f : fstat (pos (i + 1)) (files table fs v1) ≡ done (err e, files table fs v3) =
      rw (add-one i) (fstat-stats fs table v1 v3 _ i (err e) there within stats) in
    rw (o, ne→== (i + 1) 0 some_descriptor, f, ne→== file 0 real_file, restores v3 v4 closes) refl
elf_load-fails fs ds v v1 v3 v4 filename p ps garbage q i file memory e freed path opens low slot
      within closes real_file real_memory (is_empty {stat = stat} stats empty) =
    let (table, o, there, restores) =
      fopen-restores fs ds v v1 filename (0 ∷ []) p ps path garbage q i opens low slot within in
    let some_descriptor : i + 1 ≢ 0 = omega arith in
    let f : fstat (pos (i + 1)) (files table fs v1) ≡ done (ok stat, files table fs v3) =
      rw (add-one i) (fstat-stats fs table v1 v3 _ i (ok stat) there within stats) in
    rw
      (
        o,
        ne→== (i + 1) 0 some_descriptor,
        f,
        ne→== file 0 real_file,
        empty,
        restores v3 v4 closes,
        ne→== memory 0 real_memory,
      )
      refl
elf_load-fails fs ds v v1 v3 v4 filename p ps garbage q i file memory e freed path opens low slot
      within closes real_file real_memory
      (read_fails {stat = stat} {v2 = v2} {bytes = bytes} stats some_bytes reads) =
    read_fails-frees fs ds v v1 v2 v3 v4 filename p ps path garbage q i opens low slot within stat
      stats some_bytes closes file memory real_file real_memory e bytes (inl reads)
elf_load-fails fs ds v v1 v3 v4 filename p ps garbage q i file memory e freed path opens low slot
      within closes real_file real_memory
      (is_refused {stat = stat} {v2 = v2} {n = n} {bytes = bytes} stats some_bytes reads refused) =
    read_fails-frees fs ds v v1 v2 v3 v4 filename p ps path garbage q i opens low slot within stat
      stats some_bytes closes file memory real_file real_memory e bytes (inr (n, reads, refused))

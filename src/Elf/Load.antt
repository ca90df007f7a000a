-- ===== src/Elf/Load.antt =====
-- src/loader/formats/elfloader.c: elf_load over the file layer, and the release of a loaded file. What
-- kzalloc answers for the file object and for the contents are arguments, 0 for null; the calls of
-- kfree are listed in their order.
use peachos.Base.{ℕ, Option, some, none, List, [], ◌∷◌, ◌==◌, if◌then◌else◌}
use peachos.Base.Int.{ℤ, pos}
use peachos.Run.{Run, done, fault, access, ◌>>=◌}
use peachos.Status.{Result, ok, err, eio}
use peachos.Fat16.{FileStat}
use peachos.File.{FileDescriptor, Files, fopen, fstat, fread, fclose}
use peachos.Elf.{ElfFile}
use peachos.Elf.Layout.{process_contents}

-- The file object that elf_file_new zeroes, with its contents at `memory`.
abbrev pub elf_file_at : ℕ → ElfFile
elf_file_at memory = record {
  elf_memory = memory;
  virtual_base_address = 0;
  virtual_end_address = 0;
  physical_base_address = 0;
  physical_end_address = 0;
}

-- The blocks that elf_file_free gives back, for the file object at `file`.
unfoldable pub elf_file_free : ℕ → ElfFile → List ℕ
elf_file_free file elf_file =
    if elf_file.elf_memory == 0 then file ∷ [] else elf_file.elf_memory ∷ file ∷ []

-- `file` is 0 for null.
unfoldable pub elf_close : ℕ → ElfFile → List ℕ
elf_close file elf_file = if file == 0 then [] else elf_file.elf_memory ∷ file ∷ []

-- The bytes that are put at an address; to null is a fault.
unfoldable pub written : ℕ → List ℕ → Run (Unit {0})
written address [] = done tt
written address (b ∷ bytes) = if address == 0 then fault else done tt

-- The result, what *file_out is set to (the object's address and the object), the blocks given
-- back, and the files.
abbrev pub Loaded : Type 0 → Type 0
Loaded V = Result (Unit {0}) × Option (ℕ × ElfFile) × List ℕ × Files V

module _ {V : Type 0} where
  -- From `out:` on: `file` is the address of the file object.
  unfoldable pub elf_load_out : Result (Unit {0}) → ℕ → ElfFile → ℤ → Files V → Run (Loaded V)
  elf_load_out (err e) file elf_file fd s = do
    (_, t) ← fclose fd s
    done (err e, none, elf_file_free file elf_file, t)
  elf_load_out (ok _) file elf_file fd s = do
    (_, t) ← fclose fd s
    done (ok tt, some (file, elf_file), [], t)

  -- From the call of fread on.
  unfoldable pub elf_load_contents : ℕ → ℕ → FileStat → ℕ → Files V → Run (Loaded V)
  elf_load_contents file memory stat fd s = do
    (res, bytes, t) ← fread stat.filesize 1 (pos fd) s
    _ ← written memory bytes
    elim res [
      | err e ↦ elf_load_out (err e) file (elf_file_at memory) (pos fd) t
      | ok _ ↦ do
        (processed, elf_file) ← access (process_contents bytes (elf_file_at memory))
        elf_load_out processed file elf_file (pos fd) t
    ]

  -- The file object is not checked for null before it is used.
  unfoldable pub elf_load : Option (FileDescriptor V) → ℕ → ℕ → List ℕ → Files V → Run (Loaded V)
  elf_load kmalloc file memory filename s = do
    (fd, t) ← fopen kmalloc filename (b'r' ∷ 0 ∷ []) s
    if fd == 0
        then (if file == 0 then fault else elf_load_out (err eio) file (elf_file_at 0) (pos 0) t)
        else (do
          (res, u) ← fstat (pos fd) t
          elim res [
            | err e ↦
                if file == 0 then fault else elf_load_out (err e) file (elf_file_at 0) (pos fd) u
            | ok stat ↦ if file == 0 then fault else elf_load_contents file memory stat fd u
          ])

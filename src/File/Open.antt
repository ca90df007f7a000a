-- ===== src/File/Open.antt =====
-- A file that is opened and closed.
use peachos.Base.{
  ℕ, suc, ◌+◌, ◌-◌, ◌^◌, ◌<◌, ◌≤◌, ◌≡◌, refl, ap, ◌∙◌, ◌≢◌, Option, none, some, List, ◌∷◌, arith,
  get_elem?, set?, le→leb, lt→leb, ne→==,
}
use peachos.Base.Int.{pos}
use peachos.Base.Arrays.{IsWritten, set?-IsWritten}
use native.Mathlib.Numerals.{add-one}
use peachos.Run.{done, ◌>>=◌}
use peachos.Status.{ok, err, eio}
use peachos.Stringos.{strncmp}
use peachos.PathParser.{parse}
use peachos.Disk.{disk_get}
use peachos.File.{
  Filesystem, FileDescriptor, Files, read, free_slot, file_new_descriptor, file_get_descriptor,
  file_free_descriptor, file_get_mode_by_string, fopen_failed, fopen_private, fopen_disk, fopen,
  fclose, max_file_descriptors,
}
use peachos.File.Table.{free_slot-none}

read_mode : (rest : List ℕ) → file_get_mode_by_string (b'r' ∷ rest) ≡ done read
unfolding file_get_mode_by_string strncmp
read_mode rest = refl

abbrev pub files : {V : Type 0} → List (Option (FileDescriptor V)) → Filesystem V → V → Files V
files ds fs v = record { file_descriptors = ds; filesystem = some fs; volume = v }

-- The descriptor of slot `j` is closed and its slot freed.
closes_slot :
    {V : Type 0} (fs : Filesystem V) (table ds : List (Option (FileDescriptor V))) (v v' : V)
    (d : FileDescriptor V) (j : ℕ)
    → get_elem? table j ≡ some (some d)
    → d.index ≡ suc j
    → suc j < max_file_descriptors
    → d.filesystem.fs_close v d.private ≡ done (ok tt, v')
    → set? table j none ≡ some ds
    → fclose (pos (suc j)) (files table fs v) ≡ done (ok tt, files ds fs v')
unfolding fclose file_get_descriptor file_free_descriptor
closes_slot fs table ds v v' d j there number small closes frees =
    let back : suc j - 1 ≡ j = omega arith in
    let nonzero : suc j ≢ 0 = omega arith in
    rw
      (
        lt→leb max_file_descriptors (suc j) small,
        there,
        closes,
        number,
        ne→== (suc j) 0 nonzero,
        back,
        frees,
      )
      refl

module _ {V : Type 0} (fs : Filesystem V) (ds : List (Option (FileDescriptor V))) (v v' : V)
    (filename rest p : List ℕ) (ps : List (List ℕ))
    (path : parse filename ≡ some (some (record { drive_no = pos 0; parts = p ∷ ps }))) where
  reaches :
      (kmalloc : Option (FileDescriptor V))
      → fopen kmalloc filename (b'r' ∷ rest) (files ds fs v)
        ≡ fopen_private kmalloc fs 0 (p ∷ ps) read (files ds fs v)
  unfolding fopen fopen_disk disk_get
  reaches kmalloc = rw (path, read_mode rest) refl

  -- A file of drive 0 is opened for reading, and the file system answers with an error pointer:
  -- fopen returns 0, but not before it has handed that error pointer to the file system's close
  -- function as if it were a file; if that faults, so does fopen. The table is as before.
  pub fopen-closes_error :
      (kmalloc : Option (FileDescriptor V)) (e : ℕ)
      → fs.fs_open v (p ∷ ps) read ≡ done (e, v')
      → 2 ^ 31 ≤ e
      → fopen kmalloc filename (b'r' ∷ rest) (files ds fs v)
        ≡ (do (res, v'') ← fs.fs_close v' e; done (0, files ds fs v''))
  unfolding fopen_private fopen_failed
  fopen-closes_error kmalloc e answer bad =
      let nonzero : e ≢ 0 = omega arith in
      reaches kmalloc ∙ rw (answer, le→leb (2 ^ 31) e bad, ne→== e 0 nonzero) refl

  module _ (garbage : FileDescriptor V) (q i : ℕ)
      (answer : fs.fs_open v (p ∷ ps) read ≡ done (q, v')) (good : q < 2 ^ 31)
      (slot : free_slot 0 ds ≡ some i) where
    abbrev desc : FileDescriptor V
    desc = record { index = i + 1; filesystem = fs; private = q; disk = 0 }

    filled : (table : List (Option (FileDescriptor V))) × IsWritten ds table i none (some desc)
    filled = set?-IsWritten ds i none (some desc) (free_slot-none i ds slot)

    blank :
        (table : List (Option (FileDescriptor V))) × IsWritten ds table i none
          (some (record garbage { index = i + 1 }))
    blank =
        set?-IsWritten ds i none (some (record garbage { index = i + 1 }))
          (free_slot-none i ds slot)

    opens :
        fopen (some garbage) filename (b'r' ∷ rest) (files ds fs v)
        ≡ done (i + 1, files filled.0 fs v')
    unfolding fopen_private file_new_descriptor free_slot filled
    opens =
        reaches (some garbage)
        ∙ rw
            (
              answer,
              lt→leb (2 ^ 31) q good,
              slot,
              blank.1.written,
              blank.1.covers (some desc),
              filled.1.written,
            )
            refl

    -- A file of drive 0 is opened for reading, the file system answers with a pointer, and slot `i`
    -- is the first free one: fopen returns `i + 1` and puts a descriptor with that
    -- index, the file system and the pointer into the slot. No other slot changes.
    pub fopen-opens :
        (table : List (Option (FileDescriptor V))) × (fopen
            (some garbage)
            filename
            (b'r' ∷ rest)
            (files ds fs v)
          ≡ done (i + 1, files table fs v'))
        × (get_elem? table i
            ≡ some (some (record { index = i + 1; filesystem = fs; private = q; disk = 0 })))
        × ((j : ℕ) → j ≢ i → get_elem? table j ≡ get_elem? ds j)
    fopen-opens = (filled.0, opens, filled.1.reads, filled.1.others)

    -- The file that fopen opens, whatever is done with the volume until it is closed.
    pub fopen-restores :
        i + 1 < max_file_descriptors
        → (table : List (Option (FileDescriptor V))) × (fopen
              (some garbage)
              filename
              (b'r' ∷ rest)
              (files ds fs v)
            ≡ done (i + 1, files table fs v'))
          × (get_elem? table i
              ≡ some (some (record { index = i + 1; filesystem = fs; private = q; disk = 0 })))
          × ((w w' : V)
              → fs.fs_close w q ≡ done (ok tt, w')
              → fclose (pos (i + 1)) (files table fs w) ≡ done (ok tt, files ds fs w'))
    fopen-restores small = (
      filled.0,
      opens,
      filled.1.reads,
      λ w w' closes. rw (add-one i) (
          closes_slot fs filled.0 ds w w' desc i filled.1.reads (add-one i) (omega arith) closes
            filled.1.restores),
    )

    -- A file of drive 0 is opened for reading into the first free slot, whose descriptor is below
    -- 512, the file system answers with a pointer, and later closes it: fclose of what
    -- fopen has returned succeeds, and the table is the one before fopen.
    pub fclose-fopen :
        (v'' : V)
        → i + 1 < max_file_descriptors
        → fs.fs_close v' q ≡ done (ok tt, v'')
        → (t : Files V) × (fopen (some garbage) filename (b'r' ∷ rest) (files ds fs v)
            ≡ done (i + 1, t))
          × (fclose (pos (i + 1)) t ≡ done (ok tt, files ds fs v''))
    fclose-fopen v'' small closes =
        let (table, e, there, restores) = fopen-restores small in
        (files table fs v', e, restores v' v'' closes)

    -- A file of drive 0 is opened for reading where slot 511 is the first free one, and the file
    -- system answers with a pointer: fopen returns 512, and fclose of 512 fails with EIO and leaves
    -- the table and the volume as fopen left them.
    pub fclose-loses_last :
        i ≡ 511
        → (t : Files V) × (fopen (some garbage) filename (b'r' ∷ rest) (files ds fs v)
            ≡ done (512, t))
          × (fclose (pos 512) t ≡ done (err eio, t))
    unfolding fclose file_get_descriptor
    fclose-loses_last e = (
      files filled.0 fs v',
      opens ∙ ap (λ (n : ℕ). done (n, files filled.0 fs v')) (omega arith),
      refl,
    )

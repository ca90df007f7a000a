-- ===== src/File/Tests.antt =====
-- A volume that counts its open files, and the file `0:/a`.
use peachos.Base.{
  ℕ, ◌+◌, ◌-◌, ◌^◌, ◌≡◌, refl, Option, none, some, List, [], ◌∷◌, ◌++◌, arith, replicate,
}
use peachos.Base.Int.{pos}
use peachos.Run.{done, ◌>>=◌}
use peachos.Status.{ok, err, eio}
use peachos.Memory.{memcmp}
use peachos.Stringos.{strlen, strnlen, isdigit, tonumericdigit}
use peachos.PathParser.{parse, get_drive_by_path, path_valid_format, get_path_part}
use peachos.File.{Filesystem, FileDescriptor, Files, free_slot, fopen, fclose}
use peachos.File.Open.{files, fopen-closes_error, fclose-fopen, fclose-loses_last}

-- Its `open` answers with the given number.
abbrev counting : ℕ → Filesystem ℕ
counting answer = record {
  fs_open = λ v path mode. done (answer, v + 1);
  fs_read = λ v p size nmemb. done (ok nmemb, [], v);
  fs_seek = λ v p offset whence. done (ok tt, v);
  fs_stat = λ v p. done (err eio, v);
  fs_close = λ v p. done (ok tt, v - 1);
}

abbrev descriptor : FileDescriptor ℕ
descriptor = record { index = 1; filesystem = counting 4096; private = 4096; disk = 0 }

abbrev path : List ℕ
path = 48 ∷ 58 ∷ 47 ∷ 97 ∷ 0 ∷ []

abbrev part : List ℕ
part = 97 ∷ replicate 107 0

path-parsed : parse path ≡ some (some (record { drive_no = pos 0; parts = part ∷ [] }))
unfolding parse strlen get_drive_by_path path_valid_format strnlen memcmp isdigit tonumericdigit
    get_path_part
path-parsed = refl

abbrev two : List (Option (FileDescriptor ℕ))
two = some descriptor ∷ none ∷ []

fopen-closes_error_example :
    fopen (some descriptor) path (b'r' ∷ 0 ∷ []) (files two (counting (2 ^ 32 - 1)) 1) ≡ (do
      (res, v'') ← (counting (2 ^ 32 - 1)).fs_close 2 (2 ^ 32 - 1)
      done (0, files two (counting (2 ^ 32 - 1)) v''))
fopen-closes_error_example =
    fopen-closes_error (counting (2 ^ 32 - 1)) two 1 2 path (0 ∷ []) part [] path-parsed
      (some descriptor) (2 ^ 32 - 1) refl (omega arith)

fclose-fopen_example :
    (t : Files ℕ) × (fopen (some descriptor) path (b'r' ∷ 0 ∷ []) (files two (counting 4096) 1)
      ≡ done (1 + 1, t))
    × (fclose (pos (1 + 1)) t ≡ done (ok tt, files two (counting 4096) 1))
unfolding free_slot
fclose-fopen_example =
    fclose-fopen (counting 4096) two 1 2 path (0 ∷ []) part [] path-parsed descriptor 4096 1 refl
      (omega arith) refl 1 (omega arith) refl

-- Every slot but the last is taken.
abbrev full : List (Option (FileDescriptor ℕ))
full = replicate 511 (some descriptor) ++ (none ∷ [])

fclose-loses_last_example :
    (t : Files ℕ) × (fopen (some descriptor) path (b'r' ∷ 0 ∷ []) (files full (counting 4096) 1)
      ≡ done (512, t))
    × (fclose (pos 512) t ≡ done (err eio, t))
unfolding free_slot
fclose-loses_last_example =
    fclose-loses_last (counting 4096) full 1 2 path (0 ∷ []) part [] path-parsed descriptor 4096 511
      refl (omega arith) refl refl

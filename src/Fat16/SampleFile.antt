-- ===== src/Fat16/SampleFile.antt =====
-- The mounted sample volume, and the path 0:/a.txt on it.
use peachos.Base.{ℕ, zero, suc, ◌<◌, ◌≡◌, ◌≢◌, refl, arith, some, List, [], ◌∷◌, ◌++◌, replicate}
use peachos.Base.Int.{pos}
use peachos.Disk.Sector.{range}
use peachos.Fat16.{FatDirectory, FatPrivate, get_full_relative_filename}
use peachos.Fat16.Items.{used}
use peachos.Fat16.Decode.{header_at, item_at, items_at}
use peachos.Fat16.Entry.{IsOnly}
use peachos.Fat16.Find.{Skipped}
use peachos.Stringos.{istrncmp}
use peachos.Memory.{memcmp}
use peachos.Stringos.{strlen, strnlen, isdigit, tonumericdigit}
use peachos.PathParser.{parse, get_drive_by_path, path_valid_format, get_path_part}
use peachos.Fat16.Mount.{mounted, root_at}
use peachos.Fat16.Sample.{image}

abbrev pub volume : FatPrivate
volume = mounted image 4

abbrev pub root_directory : FatDirectory
root_directory = root_at image (header_at image) 4

abbrev pub a_txt : List ℕ
a_txt = b'a' ∷ b'.' ∷ b't' ∷ b'x' ∷ b't' ∷ 0 ∷ []

abbrev pub a_path : List ℕ
a_path = b'0' ∷ b':' ∷ b'/' ∷ a_txt

abbrev pub a_part : List ℕ
a_part = (b'a' ∷ b'.' ∷ b't' ∷ b'x' ∷ b't' ∷ []) ++ replicate 103 0

pub a_path-parsed : parse a_path ≡ some (some (record { drive_no = pos 0; parts = a_part ∷ [] }))
unfolding parse strlen get_drive_by_path path_valid_format strnlen memcmp isdigit tonumericdigit
    get_path_part
a_path-parsed = refl

pub a_part-IsOnly : IsOnly root_directory a_part 0 (item_at image 1536)
unfolding items_at item_at header_at range used get_full_relative_filename istrncmp
a_part-IsOnly = record {
  within = omega arith;
  there = refl;
  same = (_, refl, refl);
  others = others;
}
  where
    others : (j : ℕ) → j < 3 → j ≢ 0 → Skipped root_directory a_part j
    others zero h n = absurd (n refl)
    others (suc zero) h n = (_, refl, (_, _, refl, refl, λ e. cc))
    others (suc (suc zero)) h n = (_, refl, (_, _, refl, refl, λ e. cc))
    others (suc (suc (suc j))) h n = absurd (omega arith)

-- ===== src/Fat16/VolumeTests.antt =====
-- Runs on the sample volume.
use peachos.Base.{
  ℕ, zero, suc, ◌+◌, ◌*◌, ◌<◌, ◌≡◌, ◌≢◌, refl, arith, Option, some, none, List, [], ◌∷◌, ◌++◌,
  if◌then◌else◌, ◌==◌,
}
use peachos.Base.Int.{pos}
use peachos.Run.{done, ◌>>=◌}
use peachos.Status.{ok}
use peachos.Disk.Sector.{range}
use peachos.Fat16.{
  FatDirectory, FatDirectoryItem, FatPrivate, file_item, get_full_relative_filename,
}
use peachos.Fat16.Items.{used, IsDirectoryAt, get_total_items_for_directory-used}
use peachos.Fat16.Decode.{header_at, item_at, items_at, directory_items_of-range}
use peachos.Fat16.Directory.{get_total_items_for_directory, find_item_in_directory}
use peachos.Fat16.Entry.{IsOnly, file-new}
use peachos.Fat16.Find.{Skipped, find_item_in_directory_unique, find_item_in_directory-hidden}
use peachos.Stringos.{istrncmp}
use peachos.Fat16.Directory.{load_fat_directory, get_directory_entry}
use peachos.Fat16.Subdirectory.{with_stream, load_fat_directory-loads}
use peachos.Fat16.Rounds.{streams_at, last, more}
use peachos.Fat16.Layout.{directory_items_of}
use peachos.Fat16.{live, get_first_cluster}
use peachos.Fat16.Entry.{get_directory_entry-nested, get_directory_entry-faults}
use peachos.Disk.{diskstreamer_read, diskstreamer_seek, disk_read_sector}
use peachos.Fat16.{
  read_internal, get_cluster_for_offset, size_of_cluster_bytes, cluster_to_sector, stops,
}
use peachos.Fat16.Directory.{items_loop}
use peachos.Fat16.Layout.{directory_item_of}
use peachos.Fat16.Cluster.{fat_entry}
use peachos.Fat16.Volume.{FatVolume, fat16_fs}
use peachos.Fat16.Through.{fread-fopen}
use peachos.File.{Files, FileDescriptor, free_slot, fopen, fread}
use peachos.File.Open.{files}
use peachos.Fat16.Mount.{mounted}
use peachos.Fat16.SampleFile.{
  volume, root_directory, a_txt, a_path, a_part, a_path-parsed, a_part-IsOnly,
}
use peachos.Fat16.Sample.{image, drive, drive-IsAta, root-goes_on}

get_total_items_for_directory-used_example :
    get_total_items_for_directory drive (mounted image 4) 3
    ≡ some (
      ok 3,
      record (mounted image 4) {
        directory_stream = record { pos = 3 * 512 + 32 * (4 + 1); disk = 0 };
      },
    )
unfolding used
get_total_items_for_directory-used_example =
    get_total_items_for_directory-used drive image drive-IsAta (mounted image 4) 3 4 refl
      (omega arith) (record { ends = refl; goes_on = root-goes_on })

a_txt-IsOnly : IsOnly root_directory a_txt 0 (item_at image 1536)
unfolding items_at item_at header_at range used get_full_relative_filename istrncmp
a_txt-IsOnly = record {
  within = omega arith;
  there = refl;
  same = (_, refl, refl);
  others = others;
}
  where
    others : (j : ℕ) → j < 3 → j ≢ 0 → Skipped root_directory a_txt j
    others zero h n = absurd (n refl)
    others (suc zero) h n = (_, refl, (_, _, refl, refl, λ e. cc))
    others (suc (suc zero)) h n = (_, refl, (_, _, refl, refl, λ e. cc))
    others (suc (suc (suc j))) h n = absurd (omega arith)

abbrev d : List ℕ
d = b'd' ∷ 0 ∷ []

d-IsOnly : IsOnly root_directory d 2 (item_at image 1600)
unfolding items_at item_at header_at range used get_full_relative_filename istrncmp
d-IsOnly = record { within = omega arith; there = refl; same = (_, refl, refl); others = others }
  where
    others : (j : ℕ) → j < 3 → j ≢ 2 → Skipped root_directory d j
    others zero h n = (_, refl, (_, _, refl, refl, λ e. cc))
    others (suc zero) h n = (_, refl, (_, _, refl, refl, λ e. cc))
    others (suc (suc zero)) h n = absurd (n refl)
    others (suc (suc (suc j))) h n = absurd (omega arith)

find_item_in_directory_unique_example :
    find_item_in_directory drive volume root_directory a_txt
    ≡ some (some (file_item (item_at image 1536)), volume)
unfolding item_at used header_at range
find_item_in_directory_unique_example =
    find_item_in_directory_unique drive root_directory a_txt 0 volume volume (item_at image 1536)
      (file_item (item_at image 1536)) (omega arith) (a_txt-IsOnly.there) (a_txt-IsOnly.same)
      (file-new drive volume (item_at image 1536) refl) (a_txt-IsOnly.others)

abbrev b : List ℕ
b = b'b' ∷ 0 ∷ []

b-later : (i : ℕ) → i + 1 < 4 → Skipped root_directory b i
unfolding items_at item_at header_at range used get_full_relative_filename istrncmp
b-later zero h = (_, refl, (_, _, refl, refl, λ e. cc))
b-later (suc zero) h = (_, refl, (_, _, refl, refl, λ e. cc))
b-later (suc (suc zero)) h = (_, refl, (_, _, refl, refl, λ e. cc))
b-later (suc (suc (suc i))) h = absurd (omega arith)

-- B, behind the deleted entry.
find_item_in_directory-hidden_example :
    find_item_in_directory drive volume root_directory b ≡ some (none, volume)
unfolding header_at
find_item_in_directory-hidden_example =
    find_item_in_directory-hidden drive image volume 4 1 b (omega arith) refl b-later

-- The item of D, and D once it is loaded.
abbrev d_item : FatDirectoryItem
d_item = item_at image 1600

abbrev d_directory : FatDirectory
d_directory = record {
  item = item_at image 3072 ∷ [];
  total = 1;
  sector_pos = 0;
  ending_sector_pos = 0;
}

d-goes_on : (k : ℕ) → k < 1 → image (3072 + 32 * k) ≢ 0
d-goes_on zero h = omega arith
d-goes_on (suc k) h = absurd (omega arith)

d-IsDirectoryAt : IsDirectoryAt image 3072 1
d-IsDirectoryAt = record { ends = refl; goes_on = d-goes_on }

load_fat_directory-loads_example :
    (p' : ℕ) × (q' : ℕ) × (load_fat_directory drive (streams_at volume 0 0) d_item
      ≡ some (live d_directory, streams_at (with_stream volume (3072 + 32 * (1 + 1))) p' q'))
unfolding header_at item_at items_at used get_first_cluster
load_fat_directory-loads_example =
    load_fat_directory-loads drive image drive-IsAta volume (omega arith) (omega arith)
      (omega arith) d_item 0 0 1 (range image 3072 32) (item_at image 3072 ∷ []) (omega arith)
      (omega arith) refl (omega arith) d-IsDirectoryAt (last {c = 4} (omega arith) (omega arith))
      d-parsed
  where
    d-parsed : directory_items_of 1 (range image 3072 32) ≡ some (item_at image 3072 ∷ [])
    d-parsed = directory_items_of-range image 1 32 3072 (omega arith)

abbrev c : List ℕ
c = b'c' ∷ 0 ∷ []

c-IsOnly : IsOnly d_directory c 0 (item_at image 3072)
unfolding item_at range get_full_relative_filename istrncmp
c-IsOnly = record {
  within = omega arith;
  there = refl;
  same = (_, refl, refl);
  others = λ j h n. absurd (omega arith);
}

-- Where the streams stand once D is loaded.
abbrev after_d : FatPrivate
after_d = record volume {
  cluster_read_stream = record { pos = 3104; disk = 0 };
  directory_stream = record { pos = 3136; disk = 0 };
}

d-loads : load_fat_directory drive volume d_item ≡ some (live d_directory, after_d)
unfolding load_fat_directory get_total_items_for_directory items_loop diskstreamer_read
    diskstreamer_seek disk_read_sector read_internal get_cluster_for_offset size_of_cluster_bytes
    cluster_to_sector get_first_cluster directory_items_of directory_item_of header_at item_at range
    used
d-loads = refl

-- The path d/c, and the paths d/b and d/b/c of an item that is not there.
get_directory_entry-nested_example :
    get_directory_entry drive volume d (c ∷ [])
    ≡ some (some (file_item (item_at image 3072)), after_d)
unfolding item_at
get_directory_entry-nested_example =
    get_directory_entry-nested drive volume d 2 d_item after_d d_directory d-IsOnly (omega arith)
      d-loads c 0 (item_at image 3072) c-IsOnly refl

get_directory_entry-faults_example : get_directory_entry drive volume d (b ∷ (c ∷ [])) ≡ none
unfolding item_at range get_full_relative_filename istrncmp
get_directory_entry-faults_example =
    get_directory_entry-faults drive volume d 2 d_item after_d d_directory d-IsOnly (omega arith)
      d-loads b c [] b-missing
  where
    b-missing : (j : ℕ) → j < 1 → Skipped d_directory b j
    b-missing zero h = (_, refl, (_, _, refl, refl, λ e. cc))
    b-missing (suc j) h = absurd (omega arith)

-- Reading A.TXT.
abbrev files_before : Files FatVolume
files_before =
    files (none ∷ []) (fat16_fs drive)
      (record { private = streams_at volume 0 0; descriptors = λ x. none; blocks = 4096 ∷ [] })

abbrev garbage : FileDescriptor FatVolume
garbage = record { index = 0; filesystem = fat16_fs drive; private = 0; disk = 0 }

fread-fopen_example :
    (descriptors : List (Option (FileDescriptor FatVolume))) × (p' : ℕ) × (q' : ℕ) × ((do
      (fd, s) ← fopen (some garbage) a_path (b'r' ∷ 0 ∷ []) files_before
      fread 600 1 (pos fd) s)
      ≡ done (
        ok 1,
        range image 2048 512 ++ range image 2560 88,
        files descriptors (fat16_fs drive) (record {
          private = streams_at volume p' q';
          descriptors = λ x.
              if x == 4096
              then some (record { item = file_item (item_at image 1536); pos = 600 })
              else none;
          blocks = [];
        }),
      ))
unfolding fat_entry get_first_cluster stops header_at item_at free_slot
fread-fopen_example =
    fread-fopen drive image drive-IsAta volume (omega arith) (omega arith) (omega arith) 0 0 4096 []
      (λ x. none) a_part a_path (0 ∷ []) (item_at image 1536) 0 0 600
      (range image 2048 512 ++ range image 2560 88) (none ∷ []) garbage a_path-parsed a_part-IsOnly
      refl (omega arith)
      (more {c = 2} (omega arith) (omega arith) refl (last (omega arith) (omega arith)))
      (omega arith) (omega arith) (omega arith) (omega arith) refl (omega arith)

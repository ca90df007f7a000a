-- ===== src/Fat16/Entry.antt =====
-- The walk along the parts of a path.
use peachos.Base.{ℕ, ◌≡◌, ◌≢◌, ◌<◌, refl, none, some, List, [], ◌∷◌, bit_and, ne→==, get_elem?}
use peachos.Disk.{Device}
use peachos.Fat16.{
  FatDirectoryItem, FatDirectory, FatItem, file_item, directory_item, live, FatPrivate,
}
use peachos.Fat16.Directory.{
  load_fat_directory, new_fat_item_for_directory_item, find_item_in_directory, entry_loop,
  get_directory_entry, fat_item_free,
}
use peachos.Fat16.Find.{
  Matches, Skipped, find_item_in_directory-none, find_item_in_directory_unique,
}

-- The item of a file, and of a subdirectory.
pub file-new :
    (dev : Device) (private : FatPrivate) (item : FatDirectoryItem)
    → bit_and item.attribute 0x10 ≡ 0
    → new_fat_item_for_directory_item dev private item ≡ some (file_item item, private)
unfolding new_fat_item_for_directory_item
file-new dev private item plain = rw plain refl

pub directory-new :
    (dev : Device) (private private' : FatPrivate) (item : FatDirectoryItem) (d : FatDirectory)
    → bit_and item.attribute 0x10 ≢ 0
    → load_fat_directory dev private item ≡ some (live d, private')
    → new_fat_item_for_directory_item dev private item ≡ some (directory_item (live d), private')
unfolding new_fat_item_for_directory_item
directory-new dev private private' item d marked loads =
    rw (ne→== (bit_and item.attribute 0x10) 0 marked, loads) refl

-- Item `k` of a directory is the only one with the name.
pub record IsOnly (directory : FatDirectory) (name : List ℕ) (k : ℕ) (item : FatDirectoryItem)
    : Type 0 where
  pub within : k < directory.total
  pub there : get_elem? directory.item k ≡ some item
  pub same : Matches item name
  pub others : (j : ℕ) → j < directory.total → j ≢ k → Skipped directory name j

module _ (dev : Device) (private : FatPrivate) where
  pub find-only :
      (directory : FatDirectory) (name : List ℕ) (k : ℕ) (item : FatDirectoryItem) (new : FatItem)
      (private' : FatPrivate)
      → IsOnly directory name k item
      → new_fat_item_for_directory_item dev private item ≡ some (new, private')
      → find_item_in_directory dev private directory name ≡ some (some new, private')
  find-only directory name k item new private' only made =
      find_item_in_directory_unique dev directory name k private private' item new only.within
        only.there only.same made only.others

  -- A path of one part that names a file of the root directory, and no other of its items, leads to
  -- that file.
  pub get_directory_entry-file :
      (name : List ℕ) (k : ℕ) (item : FatDirectoryItem)
      → IsOnly private.root_directory name k item
      → bit_and item.attribute 0x10 ≡ 0
      → get_directory_entry dev private name [] ≡ some (some (file_item item), private)
  unfolding get_directory_entry entry_loop
  get_directory_entry-file name k item only plain =
      rw
        (find-only private.root_directory name k item (file_item item) private only
          (file-new dev private item plain))
        refl

  module _ (part : List ℕ) (k : ℕ) (item : FatDirectoryItem) (private' : FatPrivate)
      (d : FatDirectory) (only : IsOnly private.root_directory part k item)
      (marked : bit_and item.attribute 0x10 ≢ 0)
      (loads : load_fat_directory dev private item ≡ some (live d, private')) where
    enters :
        (rest : List (List ℕ))
        → get_directory_entry dev private part rest
          ≡ entry_loop dev private' (some (directory_item (live d))) rest
    unfolding get_directory_entry
    enters rest =
        rw
          (find-only private.root_directory part k item (directory_item (live d)) private' only
            (directory-new dev private private' item d marked loads))
          refl

    -- A path of two parts, the first of which names a subdirectory of the root directory that
    -- loads, and the second a file in it, each of them no other item, leads to that file.
    pub get_directory_entry-nested :
        (name : List ℕ) (j : ℕ) (file : FatDirectoryItem)
        → IsOnly d name j file
        → bit_and file.attribute 0x10 ≡ 0
        → get_directory_entry dev private part (name ∷ []) ≡ some (some (file_item file), private')
    unfolding entry_loop fat_item_free
    get_directory_entry-nested name j file inner plain =
        rw
          (
            enters (name ∷ []),
            entry_loop,
            find_item_in_directory_unique dev d name j private' private' file (file_item file)
                inner.within inner.there inner.same (file-new dev private' file plain) inner.others,
          )
          refl

    -- A path whose first part names a subdirectory of the root directory that loads, and whose
    -- second part names none of its items: with a third part behind it the walk dereferences the
    -- null pointer of the item that it has not found.
    pub get_directory_entry-faults :
        (missing next : List ℕ) (rest : List (List ℕ))
        → ((j : ℕ) → j < d.total → Skipped d missing j)
        → get_directory_entry dev private part (missing ∷ (next ∷ rest)) ≡ none
    unfolding entry_loop fat_item_free
    get_directory_entry-faults missing next rest skipped =
        rw
          (
            enters (missing ∷ (next ∷ rest)),
            entry_loop,
            find_item_in_directory-none dev d missing private' skipped,
          )
          refl

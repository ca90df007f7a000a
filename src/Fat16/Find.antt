-- ===== src/Fat16/Find.antt =====
-- The search for an item in a directory.
use peachos.Base.{
  ℕ, zero, suc, ◌+◌, ◌*◌, ◌≤◌, ◌<◌, ◌≡◌, ◌≢◌, refl, ap, ◌∙◌, Option, none, some, List, arith,
  get_elem?, ℕ_discrete,
}
use peachos.Base.Int.{ℤ, pos, negsuc}
use peachos.Disk.{Device, sector_size}
use peachos.Stringos.{istrncmp}
use peachos.Fat16.{FatDirectoryItem, FatDirectory, FatItem, FatPrivate, get_full_relative_filename}
use peachos.Fat16.Directory.{
  new_fat_item_for_directory_item, find_loop, find_item_in_directory, max_path,
}
use peachos.Fat16.Items.{used-lt}
use peachos.Fat16.Mount.{root_at, root_sector}

-- The full name of the item is the given one up to case, or it is another.
abbrev pub Matches : FatDirectoryItem → List ℕ → Type 0
Matches item name =
    (text : List ℕ) × (get_full_relative_filename item max_path ≡ some text)
    × (istrncmp text name max_path ≡ some (pos 0))

abbrev pub Differs : FatDirectoryItem → List ℕ → Type 0
Differs item name =
    (text : List ℕ) × (z : ℤ) × (get_full_relative_filename item max_path ≡ some text)
    × (istrncmp text name max_path ≡ some z)
    × (z ≢ pos 0)

-- Item `j` of the directory is there, and has another name.
abbrev pub Skipped : FatDirectory → List ℕ → ℕ → Type 0
Skipped directory name j =
    (item : FatDirectoryItem) × (get_elem? directory.item j ≡ some item) × Differs item name

module _ (dev : Device) (directory : FatDirectory) (name : List ℕ) where
  order_step :
      (z : ℤ) (n i : ℕ) (private : FatPrivate) (f_item : Option FatItem) (item : FatDirectoryItem)
      (text : List ℕ)
      → get_elem? directory.item i ≡ some item
      → get_full_relative_filename item max_path ≡ some text
      → istrncmp text name max_path ≡ some z
      → z ≢ pos 0
      → find_loop dev (suc n) i private directory name f_item
        ≡ find_loop dev n (i + 1) private directory name f_item
  unfolding find_loop
  order_step (pos zero) n i private f_item item text at e f other = absurd (other refl)
  order_step (pos (suc m)) n i private f_item item text at e f other = rw (at, e, f) refl
  order_step (negsuc m) n i private f_item item text at e f other = rw (at, e, f) refl

  skip_step :
      (n i : ℕ) (private : FatPrivate) (f_item : Option FatItem)
      → Skipped directory name i
      → find_loop dev (suc n) i private directory name f_item
        ≡ find_loop dev n (i + 1) private directory name f_item
  skip_step n i private f_item (item, at, (text, z, e, f, other)) =
      order_step z n i private f_item item text at e f other

  -- Without a match the loop keeps what it has.
  loop-skips :
      (n i : ℕ) (private : FatPrivate) (f_item : Option FatItem)
      → ((j : ℕ) → i ≤ j → j < i + n → Skipped directory name j)
      → find_loop dev n i private directory name f_item ≡ some (f_item, private)
  unfolding find_loop
  loop-skips zero i private f_item s = refl
  loop-skips (suc n) i private f_item s =
      skip_step n i private f_item (s i (omega arith) (omega arith))
      ∙ loop-skips n (i + 1) private f_item (λ j a b. s j (omega arith) (omega arith))

  match_step :
      (n i : ℕ) (private private' : FatPrivate) (f_item : Option FatItem) (item : FatDirectoryItem)
      (new : FatItem)
      → get_elem? directory.item i ≡ some item
      → Matches item name
      → new_fat_item_for_directory_item dev private item ≡ some (new, private')
      → find_loop dev (suc n) i private directory name f_item
        ≡ find_loop dev n (i + 1) private' directory name (some new)
  unfolding find_loop
  match_step n i private private' f_item item new at (text, e, f) made = rw (at, e, f, made) refl

  module _ (k : ℕ) (private private' : FatPrivate) (item : FatDirectoryItem) (new : FatItem)
      (there : get_elem? directory.item k ≡ some item) (same : Matches item name)
      (made : new_fat_item_for_directory_item dev private item ≡ some (new, private')) where
    loop_unique :
        (n i : ℕ) (f_item : Option FatItem)
        → i ≤ k
        → k < i + n
        → ((j : ℕ) → i ≤ j → j < i + n → j ≢ k → Skipped directory name j)
        → find_loop dev n i private directory name f_item ≡ some (some new, private')
    loop_unique zero i f_item a b s = absurd (omega arith)
    loop_unique (suc n) i f_item a b s = elim (ℕ_discrete i k) [
      | yes e ↦
          match_step n i private private' f_item item new (ap (get_elem? directory.item) e ∙ there)
            same made
          ∙ loop-skips n (i + 1) private' (some new)
              (λ j p q. s j (omega arith) (omega arith) (λ h. omega arith))
      | no e ↦
          skip_step n i private f_item (s i (omega arith) (omega arith) e)
          ∙ loop_unique n (i + 1) f_item (omega arith) (omega arith)
              (λ j p q. s j (omega arith) (omega arith))
    ]

  -- A directory in which no item below the total has the name: the search returns null.
  pub find_item_in_directory-none :
      (private : FatPrivate)
      → ((j : ℕ) → j < directory.total → Skipped directory name j)
      → find_item_in_directory dev private directory name ≡ some (none, private)
  unfolding find_item_in_directory
  find_item_in_directory-none private s =
      loop-skips directory.total 0 private none (λ j a b. s j (omega arith))

  -- A directory in which exactly one item below the total has the name, up to case: the search returns
  -- what fat16_new_fat_item_for_directory_item makes of that item.
  pub find_item_in_directory_unique :
      (k : ℕ) (private private' : FatPrivate) (item : FatDirectoryItem) (new : FatItem)
      → k < directory.total
      → get_elem? directory.item k ≡ some item
      → Matches item name
      → new_fat_item_for_directory_item dev private item ≡ some (new, private')
      → ((j : ℕ) → j < directory.total → j ≢ k → Skipped directory name j)
      → find_item_in_directory dev private directory name ≡ some (some new, private')
  unfolding find_item_in_directory
  find_item_in_directory_unique k private private' item new a there same made s =
      loop_unique k private private' item new there same made directory.total 0 none (omega arith)
        (omega arith) (λ j p q. s j (omega arith))

-- The root directory of a mounted volume, with `n` entries in front of its end, one of them deleted:
-- a name that none of them has but the last one is not found.
pub find_item_in_directory-hidden :
    (dev : Device) (image : ℕ → ℕ) (private : FatPrivate) (n j : ℕ) (name : List ℕ)
    → j < n
    → image (root_sector private.header * sector_size + 32 * j) ≡ 0xE5
    → ((i : ℕ) → i + 1 < n → Skipped (root_at image private.header n) name i)
    → find_item_in_directory dev private (root_at image private.header n) name
      ≡ some (none, private)
find_item_in_directory-hidden dev image private n j name h e s =
    find_item_in_directory-none dev (root_at image private.header n) name private
      (λ i a. s i (omega (arith, used-lt image n (root_sector private.header * sector_size) j h e)))

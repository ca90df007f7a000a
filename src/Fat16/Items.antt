-- ===== src/Fat16/Items.antt =====
-- The count of the items of a directory.
use peachos.Base.{
  ℕ, zero, suc, ◌+◌, ◌*◌, ◌%◌, ◌^◌, ◌≤◌, ◌<◌, ◌≡◌, ◌≢◌, refl, ap, ◌∙◌, some, inl, inr, arith, ◌==◌,
  if◌then◌else◌, ne→==, get_elem?, Bool-cases,
}
use peachos.Status.{ok}
use peachos.Disk.{Device, sector_size, diskstreamer_seek, diskstreamer_read}
use peachos.Disk.Sector.{IsAta, range}
use peachos.Disk.Stream.{diskstreamer_read-range, get_elem?-range}
use peachos.Fat16.{FatPrivate}
use peachos.Fat16.Directory.{items_loop, get_total_items_for_directory, max_reads}

-- How many of the `n` items from `pos` on are not deleted.
unfoldable pub used : (ℕ → ℕ) → ℕ → ℕ → ℕ
used image pos zero = 0
used image pos (suc n) = (if image pos == 0xE5 then 0 else 1) + used image (pos + 32) n

-- A directory of `n` items at `pos`: item `n` is the first one whose name begins with a zero byte.
pub record IsDirectoryAt (image : ℕ → ℕ) (pos n : ℕ) : Type 0 where
  pub ends : image (pos + 32 * n) ≡ 0
  pub goes_on : (k : ℕ) → k < n → image (pos + 32 * k) ≢ 0

pub IsDirectoryAt-tail :
    {image : ℕ → ℕ} {pos n : ℕ} → IsDirectoryAt image pos (suc n) → IsDirectoryAt image (pos + 32) n
IsDirectoryAt-tail {image} {pos} {n} d = record {
  ends = let e : pos + 32 * suc n ≡ pos + 32 + 32 * n = omega arith in rw e at d.ends;
  goes_on = λ k h.
      let e : pos + 32 * suc k ≡ pos + 32 + 32 * k = omega arith in
      rw e at (d.goes_on (suc k) (omega arith));
}

module _ (dev : Device) (image : ℕ → ℕ) (ata : IsAta dev image) where
  -- The read of one item.
  item-reads :
      (pos : ℕ)
      → pos % 32 ≡ 0
      → pos + 32 < 2 ^ 31
      → diskstreamer_read dev (record { pos = pos; disk = 0 }) 32
        ≡ some (ok tt, record { pos = pos + 32; disk = 0 }, range image pos 32)
  item-reads pos a b =
      diskstreamer_read-range dev image ata pos 32 (inr (omega arith)) (omega arith)

  head_lem : (pos : ℕ) → get_elem? (range image pos 32) 0 ≡ some (image pos)
  head_lem pos =
      let e : pos + 0 ≡ pos = omega arith in
      get_elem?-range image 32 pos 0 (omega arith) ∙ ap (λ p. some (image p)) e

  items_loop-used :
      (n fuel pos i : ℕ)
      → n < fuel
      → pos % 32 ≡ 0
      → pos + 32 * (n + 1) < 2 ^ 31
      → IsDirectoryAt image pos n
      → items_loop fuel dev (record { pos = pos; disk = 0 }) i
        ≡ some (ok (i + used image pos n), record { pos = pos + 32 * (n + 1); disk = 0 })
  unfolding items_loop used
  items_loop-used n zero pos i h a b d = absurd (omega arith)
  items_loop-used zero (suc fuel) pos i h a b d =
      let e : pos + 32 * 0 ≡ pos = omega arith in
      let last : image pos ≡ 0 = rw e at d.ends in
      let count : i + 0 ≡ i = omega arith in
      rw (item-reads pos a (omega arith), head_lem pos, last, count) refl
  items_loop-used (suc n) (suc fuel) pos i h a b d =
      let e : pos + 32 * 0 ≡ pos = omega arith in
      let more : image pos ≢ 0 = rw e at (d.goes_on 0 (omega arith)) in
      let behind : pos + 32 + 32 * (n + 1) ≡ pos + 32 * (suc n + 1) = omega arith in
      let ih = λ (j : ℕ).
        items_loop-used n fuel (pos + 32) j (omega arith) (omega arith) (omega arith)
          (IsDirectoryAt-tail d) in
      elim (Bool-cases (image pos == 0xE5)) [
        | inl deleted ↦
            let count : i + (0 + used image (pos + 32) n) ≡ i + used image (pos + 32) n =
              omega arith in
            rw
              (
                item-reads pos a (omega arith),
                head_lem pos,
                ne→== (image pos) 0 more,
                deleted,
                ih i,
                behind,
                count,
              )
              refl
        | inr kept ↦
            let count : i + (1 + used image (pos + 32) n) ≡ i + 1 + used image (pos + 32) n =
              omega arith in
            rw
              (
                item-reads pos a (omega arith),
                head_lem pos,
                ne→== (image pos) 0 more,
                kept,
                ih (i + 1),
                behind,
                count,
              )
              refl
      ]

  -- On an ATA drive, with the stream of the directories on the first disk, a directory whose first
  -- `n + 1` entries end below byte 2 ^ 31 of the disk and of which entry `n` is the end mark: the
  -- count terminates with the number of the entries in front of it that are not deleted, and
  -- leaves the stream behind it.
  pub get_total_items_for_directory-used :
      (private : FatPrivate) (sector n : ℕ)
      → private.directory_stream.disk ≡ 0
      → sector * sector_size + 32 * (n + 1) < 2 ^ 31
      → IsDirectoryAt image (sector * sector_size) n
      → get_total_items_for_directory dev private sector
        ≡ some (
          ok (used image (sector * sector_size) n),
          record private {
            directory_stream = record { pos = sector * sector_size + 32 * (n + 1); disk = 0 };
          },
        )
  unfolding get_total_items_for_directory diskstreamer_seek
  get_total_items_for_directory-used private sector n disk below d =
      let start : sector * sector_size % 2 ^ 32 % 2 ^ 32 ≡ sector * sector_size = omega arith in
      let count : 0 + used image (sector * sector_size) n ≡ used image (sector * sector_size) n =
        omega arith in
      rw
        (
          disk,
          start,
          items_loop-used n max_reads (sector * sector_size) 0 (omega arith) (omega arith) below d,
          count,
        )
        refl

-- At most all items are in use, and one less for a deleted one.
pub used-le : (image : ℕ → ℕ) (n pos : ℕ) → used image pos n ≤ n
unfolding used
used-le image zero pos = omega arith
used-le image (suc n) pos = ground (arith, used-le image n (pos + 32))

pub used-lt :
    (image : ℕ → ℕ) (n pos j : ℕ) → j < n → image (pos + 32 * j) ≡ 0xE5 → used image pos n < n
unfolding used
used-lt image zero pos j h e = absurd (omega arith)
used-lt image (suc n) pos zero h e =
    let same : pos + 32 * 0 ≡ pos = omega arith in
    let deleted : image pos ≡ 0xE5 = rw same at e in
    rw deleted (omega (arith, used-le image n (pos + 32)))
used-lt image (suc n) pos (suc j) h e =
    let same : pos + 32 * suc j ≡ pos + 32 + 32 * j = omega arith in
    let ih = used-lt image n (pos + 32) j (omega arith) (rw same at e) in ground (arith, ih)

-- ===== src/Fat16/Cluster.antt =====
-- The cluster chain of the file allocation table, and the search along it.
use peachos.Base.{
  ℕ, zero, suc, ◌+◌, ◌*◌, ◌/◌, ◌^◌, ◌<◌, ◌≡◌, refl, ◌≢◌, some, arith, true, false, Bool-cases, inl,
  inr, ne→==, lt→leb, ◌%◌,
}
use peachos.Status.{Result, ok, err, eio}
use peachos.Disk.{Device, sector_size}
use peachos.Disk.Sector.{IsAta, range}
use peachos.Disk.Stream.{diskstreamer_read-range}
use peachos.Fat16.{
  FatPrivate, get_fat_entry, clusters_loop, stops, get_cluster_for_offset, size_of_cluster_bytes,
}

-- The address of the table on the disk, and its 16-bit entry for a cluster.
abbrev fat_start : FatPrivate → ℕ
fat_start private = private.header.reserved_sectors * sector_size

unfoldable pub fat_entry : (ℕ → ℕ) → FatPrivate → ℕ → ℕ
fat_entry image private cluster =
    let pos = private.header.reserved_sectors * sector_size + cluster * 2 in
    image pos + 2 ^ 8 * image (pos + 1)

-- The cluster `n` steps behind `c` along the entries that do not stop.
pub data Walk (next : ℕ → ℕ) : ℕ → ℕ → ℕ → Type 0 where
  here : {c : ℕ} → Walk next zero c c
  step : {n c d : ℕ} → stops (next c) ≡ false → Walk next n (next c) d → Walk next (suc n) c d

-- A walk of at most `n` steps that ends at an entry that stops.
pub data Stuck (next : ℕ → ℕ) : ℕ → ℕ → Type 0 where
  now : {n c : ℕ} → stops (next c) ≡ true → Stuck next (suc n) c
  later : {n c : ℕ} → stops (next c) ≡ false → Stuck next n (next c) → Stuck next (suc n) c

-- What a search of `n` steps answers.
pub data Follows (next : ℕ → ℕ) (n c : ℕ) : Result ℕ → Type 0 where
  found : {d : ℕ} → Walk next n c d → Follows next n c (ok d)
  lost : Stuck next n c → Follows next n c (err eio)

-- One more step in front of a search.
Follows-step :
    (next : ℕ → ℕ) (n c : ℕ) (res : Result ℕ)
    → stops (next c) ≡ false
    → Follows next n (next c) res
    → Follows next (suc n) c res
Follows-step next n c (ok d) h (found w) = found (step h w)
Follows-step next n c (err e) h (lost s) = lost (later h s)

-- The private data with the stream of the table at `pos`.
unfoldable pub fat_at : FatPrivate → ℕ → FatPrivate
fat_at private pos = record private { fat_read_stream = record { pos = pos; disk = 0 } }

module _ (dev : Device) (image : ℕ → ℕ) (ata : IsAta dev image) (private : FatPrivate)
    (near : private.header.reserved_sectors < 2 ^ 16) where
  get_fat_entry-reads :
      (pos cluster : ℕ)
      → cluster < 2 ^ 16
      → get_fat_entry dev (fat_at private pos) cluster
        ≡ some (
          ok (fat_entry image private cluster),
          fat_at private (fat_start private + cluster * 2 + 2),
        )
  unfolding get_fat_entry fat_at fat_entry range
  get_fat_entry-reads pos cluster small =
      let at = fat_start private + cluster * 2 in
      let wraps : at % 2 ^ 32 % 2 ^ 32 ≡ at = omega arith in
      rw (wraps, diskstreamer_read-range dev image ata at 2 (inr (omega arith)) (omega arith)) refl

  fat_entry_small : (c : ℕ) → fat_entry image private c < 2 ^ 16
  unfolding fat_entry
  fat_entry_small c =
      let pos = fat_start private + c * 2 in
      let low = IsAta.byte ata pos in
      let high = IsAta.byte ata (pos + 1) in omega (arith, low, high)

  clusters_loop-Follows :
      (n pos c : ℕ)
      → c < 2 ^ 16
      → (res : Result ℕ) × (pos' : ℕ) × (clusters_loop n dev (fat_at private pos) c
          ≡ some (res, fat_at private pos'))
        × Follows (fat_entry image private) n c res
  unfolding clusters_loop
  clusters_loop-Follows zero pos c small = (ok c, pos, refl, found here)
  clusters_loop-Follows (suc n) pos c small =
      let pos' = fat_start private + c * 2 + 2 in
      let entry = fat_entry image private c in
      elim (Bool-cases (stops entry)) [
        | inl h ↦ (err eio, pos', rw (get_fat_entry-reads pos c small, h) refl, lost (now h))
        | inr h ↦
            let (res, last, eq, follows) = clusters_loop-Follows n pos' entry (fat_entry_small c) in
            (
              res,
              last,
              rw (get_fat_entry-reads pos c small, h, eq) refl,
              Follows-step (fat_entry image private) n c res h follows,
            )
      ]

  -- Along a walk the loop arrives at its end.
  clusters_loop-Walk :
      (pos : ℕ) {n c d : ℕ}
      → Walk (fat_entry image private) n c d
      → c < 2 ^ 16
      → (pos' : ℕ) × (clusters_loop n dev (fat_at private pos) c ≡ some (ok d, fat_at private pos'))
  unfolding clusters_loop
  clusters_loop-Walk pos here small = (pos, refl)
  clusters_loop-Walk pos (step {c = a} h w) small =
      let (pos', eq) = clusters_loop-Walk (fat_start private + a * 2 + 2) w (fat_entry_small a) in
      (pos', rw (get_fat_entry-reads pos a small, h, eq) refl)

  pub Walk-small : {n c d : ℕ} → Walk (fat_entry image private) n c d → c < 2 ^ 16 → d < 2 ^ 16
  Walk-small here small = small
  Walk-small (step {c = a} h w) small = Walk-small w (fat_entry_small a)

  pub get_cluster_for_offset-Walk :
      (pos offset : ℕ) {n c d : ℕ}
      → Walk (fat_entry image private) n c d
      → c < 2 ^ 16
      → size_of_cluster_bytes private ≢ 0
      → offset < 2 ^ 31
      → offset / size_of_cluster_bytes private ≡ n
      → (pos' : ℕ) × (get_cluster_for_offset dev (fat_at private pos) c offset
          ≡ some (ok d, fat_at private pos'))
  unfolding get_cluster_for_offset fat_at
  get_cluster_for_offset-Walk pos offset w small whole l q =
      let (pos', eq) = clusters_loop-Walk pos w small in
      (
        pos',
        rw (ne→== (size_of_cluster_bytes private) 0 whole, lt→leb (2 ^ 31) offset l, q, eq) refl,
      )

  -- On an ATA drive, with a table that begins below sector 2 ^ 16 and clusters that are not empty,
  -- the search for an offset that is not negative always answers: the cluster that is as many steps along the chain as
  -- whole clusters lie before the offset, or EIO if an entry on the way ends the chain or names no
  -- usable cluster. Nothing but the position of the table's stream changes.
  pub get_cluster_for_offset-Follows :
      (pos c offset : ℕ)
      → c < 2 ^ 16
      → size_of_cluster_bytes private ≢ 0
      → offset < 2 ^ 31
      → (res : Result ℕ) × (pos' : ℕ) × (get_cluster_for_offset dev (fat_at private pos) c offset
          ≡ some (res, fat_at private pos'))
        × Follows (fat_entry image private) (offset / size_of_cluster_bytes private) c res
  unfolding get_cluster_for_offset fat_at
  get_cluster_for_offset-Follows pos c offset small whole l =
      let (res, pos', eq, follows) =
        clusters_loop-Follows (offset / size_of_cluster_bytes private) pos c small in
      (
        res,
        pos',
        rw (ne→== (size_of_cluster_bytes private) 0 whole, lt→leb (2 ^ 31) offset l, eq) refl,
        follows,
      )

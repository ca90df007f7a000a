-- ===== src/Disk/Stream.antt =====
-- What a stream reads, and where it reads outside its sector buffer.
use peachos.Base.{
  ℕ, zero, suc, ◌+◌, ◌-◌, ◌*◌, ◌/◌, ◌%◌, ◌^◌, ◌≤◌, ◌<◌, ◌≡◌, ◌≢◌, refl, ap, ◌∙◌, none, some, List,
  [], ◌∷◌, ◌++◌, arith, length, get_elem?, ltb, Bool-cases, inl, inr, ◌⊎◌, get_elem?-none,
  Option-cases, ltb→lt, lt→leb,
}
use peachos.Base.Ints.{int_div, int_rem}
use peachos.Status.{ok, err, eio}
use peachos.Disk.{
  Device, DiskStream, sector_size, copy_loop, copy_out, read_rounds, diskstreamer_read,
  disk_read_block,
}
use peachos.Disk.Sector.{IsAta, range, length-range, disk_read_sector-range}

pub get_elem?-range :
    (image : ℕ → ℕ) (n pos i : ℕ) → i < n → get_elem? (range image pos n) i ≡ some (image (pos + i))
unfolding range
get_elem?-range image zero pos i h = absurd (omega arith)
get_elem?-range image (suc n) pos zero h = let e : pos + 0 ≡ pos = omega arith in rw e
get_elem?-range image (suc n) pos (suc i) h =
    let e : pos + suc i ≡ pos + 1 + i = omega arith in
    rw e (get_elem?-range image n (pos + 1) i (omega arith))

copy_loop-range :
    (image : ℕ → ℕ) (k base n i : ℕ)
    → i + n ≤ k
    → copy_loop n i (range image base k) ≡ some (range image (base + i) n)
unfolding copy_loop range
copy_loop-range image k base zero i h = refl
copy_loop-range image k base (suc n) i h =
    let e : base + (i + 1) ≡ base + i + 1 = omega arith in
    rw (
      get_elem?-range image k base i (omega arith),
      copy_loop-range image k base n (i + 1) (omega arith),
      e,
    )

copy_loop-faults : (buf : List ℕ) (n i : ℕ) → length buf < i + n → 0 < n → copy_loop n i buf ≡ none
unfolding copy_loop
copy_loop-faults buf zero i h p = absurd (omega arith)
copy_loop-faults buf (suc zero) i h p = rw (get_elem?-none buf i (omega arith))
copy_loop-faults buf (suc (suc n)) i h p = elim (Option-cases (get_elem? buf i)) [
  | inl out ↦ rw out
  | inr (c, e) ↦ rw (e, copy_loop-faults buf (suc n) (i + 1) (omega arith) (omega arith))
]

range-append :
    (image : ℕ → ℕ) (m n pos : ℕ)
    → range image pos m ++ range image (pos + m) n ≡ range image pos (m + n)
unfolding range
range-append image zero n pos =
    let e : pos + 0 ≡ pos = omega arith in let d : 0 + n ≡ n = omega arith in rw (e, d)
range-append image (suc m) n pos =
    let e : pos + suc m ≡ pos + 1 + m = omega arith in
    let d : suc m + n ≡ suc (m + n) = omega arith in
    rw (e, d) (ap (λ r. image pos ∷ r) (range-append image m n (pos + 1)))

-- The reads that stay in the sector buffer: those that begin at a sector, and those that end in
-- the sector where they begin.
abbrev pub Fits : ℕ → ℕ → Type 0
Fits pos total = (pos % sector_size ≡ 0) ⊎ (pos % sector_size + total ≤ sector_size)

module _ (dev : Device) (image : ℕ → ℕ) (ata : IsAta dev image) where
  block_lem :
      (pos : ℕ)
      → pos < 2 ^ 31
      → disk_read_block dev 0 (int_div pos sector_size) 1
        ≡ ok (range image (pos / sector_size * sector_size) sector_size)
  unfolding disk_read_block
  block_lem pos h =
      rw (lt→leb (2 ^ 31) pos h)
        (ap ok (disk_read_sector-range dev image (pos / sector_size) ata (omega arith)))

  rem_lem : (pos : ℕ) → pos < 2 ^ 31 → int_rem pos sector_size ≡ pos % sector_size
  rem_lem pos h = rw (lt→leb (2 ^ 31) pos h) refl

  -- Without negative numbers the bytes are copied by the loop.
  copy_out-loop :
      (n pos : ℕ) (buf : List ℕ)
      → n < 2 ^ 31
      → pos < 2 ^ 31
      → copy_out n (int_rem pos sector_size) buf ≡ copy_loop n (pos % sector_size) buf
  unfolding copy_out
  copy_out-loop n pos buf h l =
      let small : pos % sector_size < 2 ^ 31 = omega arith in
      ap (λ o. copy_out n o buf) (rem_lem pos l)
      ∙ rw (copy_out, lt→leb (2 ^ 31) n h, lt→leb (2 ^ 31) (pos % sector_size) small) refl

  -- One round inside the sector buffer.
  round-reads :
      (pos n : ℕ)
      → pos % sector_size + n ≤ sector_size
      → pos < 2 ^ 31
      → copy_out n
          (int_rem pos sector_size)
          (range image (pos / sector_size * sector_size) sector_size)
        ≡ some (range image pos n)
  round-reads pos n h l =
      let e : pos / sector_size * sector_size + pos % sector_size ≡ pos = omega arith in
      copy_out-loop n pos _ (omega arith) l
      ∙ copy_loop-range image sector_size (pos / sector_size * sector_size) n (pos % sector_size) h
      ∙ ap (λ p. some (range image p n)) e

  read_rounds-range :
      (fuel pos total : ℕ)
      → Fits pos total
      → total < fuel
      → pos + total < 2 ^ 31
      → read_rounds fuel dev (record { pos = pos; disk = 0 }) total
        ≡ some (ok tt, record { pos = pos + total; disk = 0 }, range image pos total)
  unfolding read_rounds
  read_rounds-range zero pos total f h l = absurd (omega arith)
  read_rounds-range (suc fuel) pos total f h l = elim (Bool-cases (ltb sector_size total)) [
    | inl more ↦
        let big : sector_size < total = ltb→lt sector_size total more in
        let aligned : pos % sector_size ≡ 0 = omega arith in
        let sum : pos + sector_size + (total - sector_size) ≡ pos + total = omega arith in
        let next : (pos + sector_size) % 2 ^ 32 ≡ pos + sector_size = omega arith in
        let parts : sector_size + (total - sector_size) ≡ total = omega arith in
        let ih =
          read_rounds-range fuel (pos + sector_size) (total - sector_size) (inl (omega arith))
            (omega arith) (omega arith) in
        rw (
          block_lem pos (omega arith),
          read_rounds,
          lt→leb (2 ^ 31) total (omega arith),
          more,
          round-reads pos sector_size (omega arith) (omega arith),
          next,
          ih,
          range-append image sector_size (total - sector_size) pos,
          sum,
          parts,
        )
    | inr last ↦
        let small : total ≤ sector_size = ground arith in
        let next : (pos + total) % 2 ^ 32 ≡ pos + total = omega arith in
        rw (
          block_lem pos (omega arith),
          read_rounds,
          lt→leb (2 ^ 31) total (omega arith),
          last,
          round-reads pos total (omega arith) (omega arith),
          next,
        )
  ]

  -- A read that begins at a sector, or ends in the sector where it begins, succeeds. It returns
  -- the bytes of the disk image from the stream's position on and moves the position behind them.
  -- The position behind them is an int that is not negative: below 2 ^ 31.
  pub diskstreamer_read-range :
      (pos total : ℕ)
      → Fits pos total
      → pos + total < 2 ^ 31
      → diskstreamer_read dev (record { pos = pos; disk = 0 }) total
        ≡ some (ok tt, record { pos = pos + total; disk = 0 }, range image pos total)
  unfolding diskstreamer_read
  diskstreamer_read-range pos total f l = read_rounds-range (total + 1) pos total f (omega arith) l

  round-faults :
      (pos n : ℕ)
      → sector_size < pos % sector_size + n
      → 0 < n
      → pos < 2 ^ 31
      → n < 2 ^ 31
      → copy_out n
          (int_rem pos sector_size)
          (range image (pos / sector_size * sector_size) sector_size)
        ≡ none
  round-faults pos n h p l k =
      copy_out-loop n pos _ k l
      ∙ copy_loop-faults (range image (pos / sector_size * sector_size) sector_size) n
          (pos % sector_size)
          (omega (arith, length-range image (pos / sector_size * sector_size) sector_size)) p

  read_rounds-faults :
      (fuel pos total : ℕ)
      → pos % sector_size ≢ 0
      → sector_size < pos % sector_size + total
      → pos < 2 ^ 31
      → total < 2 ^ 31
      → read_rounds (suc fuel) dev (record { pos = pos; disk = 0 }) total ≡ none
  unfolding read_rounds
  read_rounds-faults fuel pos total a f b c = elim (Bool-cases (ltb sector_size total)) [
    | inl more ↦
        let big : sector_size < total = ltb→lt sector_size total more in
        rw (
          block_lem pos b,
          read_rounds,
          lt→leb (2 ^ 31) total c,
          more,
          round-faults pos sector_size (omega arith) (omega arith) b (omega arith),
        )
    | inr last ↦
        let small : total ≤ sector_size = ground arith in
        rw (
          block_lem pos b,
          read_rounds,
          lt→leb (2 ^ 31) total c,
          last,
          round-faults pos total (omega arith) (omega arith) b c,
        )
  ]

  -- On an ATA drive, a read that neither begins at a sector nor ends in the sector where it
  -- begins, at a position and of a total that are not negative, copies bytes from behind the
  -- 512-byte sector buffer.
  pub diskstreamer_read-overruns :
      (pos total : ℕ)
      → ¬ Fits pos total
      → pos < 2 ^ 31
      → total < 2 ^ 31
      → diskstreamer_read dev (record { pos = pos; disk = 0 }) total ≡ none
  unfolding diskstreamer_read
  diskstreamer_read-overruns pos total f b small =
      let s : total + 1 ≡ suc total = omega arith in
      let a : pos % sector_size ≢ 0 = λ e. f (inl e) in
      let c : ¬ (pos % sector_size + total ≤ sector_size) = λ e. f (inr e) in
      rw s (read_rounds-faults total pos total a (omega arith) b small)

-- A stream of any disk but the first reads nothing and reports EIO.
pub diskstreamer_read-eio :
    (dev : Device) (stream : DiskStream) (total : ℕ)
    → stream.disk ≢ 0
    → diskstreamer_read dev stream total ≡ some (err eio, stream, [])
unfolding diskstreamer_read disk_read_block read_rounds
diskstreamer_read-eio dev stream total h =
    let s : total + 1 ≡ suc total = omega arith in rw s (ground arith)

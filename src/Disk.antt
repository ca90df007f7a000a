-- ===== src/Disk.antt =====
-- src/disk/disk.c and src/disk/streamer.c. The ATA drive behind the I/O ports is a parameter: what
-- it answers to a command, as the words of each sector. There is one disk; a `struct disk*` is a
-- handle, and handle 0 is `&disk`.
pub mod Sector
pub mod Stream
pub mod Drive
mod Tests
use peachos.Base.{
  ℕ, zero, suc, ◌+◌, ◌-◌, ◌*◌, ◌/◌, ◌%◌, ◌^◌, bit_or, Option, none, some, List, [], ◌∷◌, ◌++◌,
  get_elem?, ◌>>=◌, Bool, true, false, not, ◌&&◌, ltb, ◌==◌, if◌then◌else◌,
}
use peachos.Base.Ints.{is_negative, int_div, int_rem}
use peachos.Status.{Result, ok, err, eio}

abbrev pub sector_size : ℕ
sector_size = 512

-- The bytes sent to ports 0x1F6 and 0x1F2 to 0x1F5 before the read command 0x20.
pub record Command : Type 0 where
  pub select : ℕ
  pub count : ℕ
  pub low : ℕ
  pub mid : ℕ
  pub high : ℕ

-- The word that `insw` returns for sector `b` of the command, at place `i`. The polling of port
-- 0x1F7 ends, since the drive becomes ready.
abbrev pub Device : Type 0
Device = Command → ℕ → ℕ → ℕ

unfoldable pub read_command : ℕ → ℕ → Command
read_command lba total = record {
  select = bit_or (lba / 2 ^ 24) 0xE0 % 256;
  count = total % 256;
  low = lba % 256;
  mid = lba / 2 ^ 8 % 256;
  high = lba / 2 ^ 16 % 256;
}

-- for (i = 0; i < 256; ++i) *ptr++ = insw(0x1F0), with the rounds left; words are little-endian.
words_loop : ℕ → ℕ → (ℕ → ℕ) → List ℕ
words_loop zero i insw = []
words_loop (suc n) i insw = insw i % 256 ∷ (insw i / 256 % 256 ∷ words_loop n (i + 1) insw)

sectors_loop : ℕ → ℕ → (ℕ → ℕ → ℕ) → List ℕ
sectors_loop zero b insw = []
sectors_loop (suc n) b insw = words_loop 256 0 (insw b) ++ sectors_loop n (b + 1) insw

-- The bytes that the call puts into `buf`.
unfoldable pub disk_read_sector : Device → ℕ → ℕ → List ℕ
unfolding read_command sectors_loop words_loop
disk_read_sector dev lba total = sectors_loop total 0 (dev (read_command lba total))

unfoldable pub disk_get : ℕ → Option ℕ
disk_get index = if index == 0 then some 0 else none

unfoldable pub disk_read_block : Device → ℕ → ℕ → ℕ → Result (List ℕ)
disk_read_block dev idisk lba total =
    if idisk == 0 then ok (disk_read_sector dev lba total) else err eio

-- `pos` is an int, as its 32-bit pattern.
pub record DiskStream : Type 0 where
  pub pos : ℕ
  pub disk : ℕ

-- `none` is a null pointer; kzalloc is taken to return a stream.
unfoldable pub diskstreamer_new : ℕ → Option DiskStream
unfolding disk_get
diskstreamer_new disk_id = elim (disk_get disk_id) [
  | none ↦ none
  | some d ↦ some (record { pos = 0; disk = d })
]

unfoldable pub diskstreamer_seek : DiskStream → ℕ → DiskStream
diskstreamer_seek stream pos = record stream { pos = pos % 2 ^ 32 }

-- The bytes that the loop copies out of the 512-byte `buf`, with the rounds left.
copy_loop : ℕ → ℕ → List ℕ → Option (List ℕ)
copy_loop zero i buf = some []
copy_loop (suc n) i buf = do c ← get_elem? buf i; rest ← copy_loop n (i + 1) buf; some (c ∷ rest)

-- The same from a negative offset: the first byte lies in front of `buf`.
copy_before : ℕ → Option (List ℕ)
copy_before zero = some []
copy_before (suc n) = none

-- Both are ints, and there is no round for a negative `total_to_read`.
unfoldable pub copy_out : ℕ → ℕ → List ℕ → Option (List ℕ)
unfolding copy_loop copy_before
copy_out total_to_read offset buf = elim (is_negative total_to_read) [
  | true ↦ some []
  | false ↦ elim (is_negative offset) [
    | true ↦ copy_before total_to_read
    | false ↦ copy_loop total_to_read offset buf
  ]
]

-- What a read returns: its code, the stream afterwards and the bytes written to `out`. `total` is
-- an int. `none` is a read outside `buf`. Each recursive call takes a sector off `total`, which
-- bounds their number.
read_rounds : ℕ → Device → DiskStream → ℕ → Option (Result (Unit {0}) × DiskStream × List ℕ)
read_rounds zero dev stream total = none
read_rounds (suc fuel) dev stream total =
    elim (disk_read_block dev stream.disk (int_div stream.pos sector_size) 1) [
      | err e ↦ some (err e, stream, [])
      | ok buf ↦ do
        let more = ltb sector_size total && not (is_negative total)
        let total_to_read = if more then sector_size else total
        bytes ← copy_out total_to_read (int_rem stream.pos sector_size) buf
        let stream' = record stream { pos = (stream.pos + total_to_read) % 2 ^ 32 }
        let again = (do
          (res, stream'', rest) ← read_rounds fuel dev stream' (total - sector_size)
          some (res, stream'', bytes ++ rest))
        if more then again else some (ok tt, stream', bytes)
    ]

unfoldable pub diskstreamer_read :
    Device → DiskStream → ℕ → Option (Result (Unit {0}) × DiskStream × List ℕ)
unfolding read_rounds copy_out disk_read_block
diskstreamer_read dev stream total = read_rounds (total + 1) dev stream total

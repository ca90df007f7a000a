-- ===== src/Fat16/Volume.antt =====
-- src/fs/fat16/fat16.c: the file system that fat16_init registers, over the file descriptors that
-- fat16_open hands out.
use peachos.Base.{ℕ, ◌-◌, ◌^◌, Option, none, some, List, [], ◌∷◌, ◌==◌, if◌then◌else◌}
use peachos.Base.Int.{ℤ, pos, negsuc}
use peachos.Run.{Run, done, fault, access, ◌>>=◌}
use peachos.Status.{Result, ok, Errno, eio, enomem, erdonly, errno_code}
use peachos.Disk.{Device}
use peachos.File.{FileMode, Filesystem}
use peachos.Fat16.{FatFileDescriptor, FatPrivate, FileStat, fat16_read, fat16_stat, fat16_seek}
use peachos.Fat16.Directory.{get_directory_entry, fat_item_free}

-- `disk.fs_private`, the file descriptors by address, and what kzalloc answers to the next
-- calls of fat16_open: addresses, 0 for null, and null behind the last.
pub record FatVolume : Type 0 where
  pub private : FatPrivate
  pub descriptors : ℕ → Option FatFileDescriptor
  pub blocks : List ℕ

abbrev pub put : ℕ → Option FatFileDescriptor → FatVolume → FatVolume
put p desc v = record v { descriptors = λ q. if q == p then desc else v.descriptors q }

-- ERROR(-code), as 32 bits.
abbrev pub error : Errno → ℕ
error e = 2 ^ 32 - errno_code e

unfoldable pub descriptor : ℕ → FatVolume → Run FatFileDescriptor
descriptor p v = if p == 0 then fault else access (v.descriptors p)

module _ (dev : Device) where
  -- With the block for the descriptor at `p`. The block is freed on an error.
  unfoldable pub open_at : ℕ → FatVolume → List ℕ → List (List ℕ) → Run (ℕ × FatVolume)
  open_at p v part next_part = do
    (item, private) ← access (get_directory_entry dev v.private part next_part)
    let v' : FatVolume = record v { private = private }
    elim item [
      | none ↦ done (error eio, v')
      | some item ↦ done (p, put p (some (record { item = item; pos = 0 })) v')
    ]

  unfoldable pub fat16_open : FatVolume → List (List ℕ) → FileMode → Run (ℕ × FatVolume)
  fat16_open v [] mode = fault
  fat16_open v (part ∷ next_part) FileMode.read = elim (v.blocks) [
    | [] ↦ done (error enomem, v)
    | p ∷ rest ↦
        let taken : FatVolume = record v { blocks = rest } in
        let opens = open_at p taken part next_part in
        if p == 0 then done (error enomem, taken) else opens
  ]
  fat16_open v (part ∷ next_part) mode = done (error erdonly, v)

  unfoldable pub fat16_close : FatVolume → ℕ → Run (Result (Unit {0}) × FatVolume)
  fat16_close v p = do
    desc ← descriptor p v
    _ ← access (fat_item_free desc.item)
    done (ok tt, put p none v)

  unfoldable pub volume_read : FatVolume → ℕ → ℕ → ℕ → Run (Result ℕ × List ℕ × FatVolume)
  volume_read v p size nmemb = do
    desc ← descriptor p v
    (res, desc', private, bytes) ← access (fat16_read dev v.private desc size nmemb)
    done (res, bytes, put p (some desc') (record v { private = private }))

  -- The offset of fseek becomes a uint32_t.
  unfoldable pub volume_seek : FatVolume → ℕ → ℤ → ℕ → Run (Result (Unit {0}) × FatVolume)
  volume_seek v p offset whence = do
    desc ← descriptor p v
    let (res, desc') =
        fat16_seek desc (elim offset [ pos n ↦ n | negsuc n ↦ 2 ^ 32 - n - 1 ]) whence
    done (res, put p (some desc') v)

  unfoldable pub volume_stat : FatVolume → ℕ → Run (Result FileStat × FatVolume)
  volume_stat v p = do desc ← descriptor p v; done (fat16_stat desc, v)

  unfoldable pub fat16_fs : Filesystem FatVolume
  fat16_fs = record {
    fs_open = fat16_open;
    fs_read = volume_read;
    fs_seek = volume_seek;
    fs_stat = volume_stat;
    fs_close = fat16_close;
  }

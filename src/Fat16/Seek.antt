-- ===== src/Fat16/Seek.antt =====
-- The position of a file and what fstat reports.
use peachos.Base.{ℕ, ◌+◌, ◌^◌, ◌≤◌, ◌<◌, ◌≡◌, refl, ◌↔◌, arith}
use peachos.Status.{ok, err, Errno}
use peachos.Fat16.{
  FatDirectoryItem, FatFileDescriptor, file_item, directory_item, fat16_seek, seek_set, seek_cur,
  FatItem,
}

-- The position lies in the file.
abbrev pub IsInside : FatFileDescriptor → Type 0
IsInside desc = elim (desc.item) [ file_item i ↦ desc.pos < i.filesize | directory_item d ↦ ⊥ ]

seek-keeps_item :
    (desc : FatFileDescriptor) (item : FatItem) (offset mode : ℕ) (e : Errno)
    → desc.item ≡ item
    → (fat16_seek desc offset mode).0 ≡ err e
    → (fat16_seek desc offset mode).1 ≡ desc
unfolding fat16_seek
seek-keeps_item desc (directory_item d) offset mode e h r = ground arith
seek-keeps_item desc (file_item i) offset mode e h r = ground arith

-- A seek that fails, for whichever reason, leaves the descriptor as it was.
pub fat16_seek-err :
    (desc : FatFileDescriptor) (offset mode : ℕ) (e : Errno)
    → (fat16_seek desc offset mode).0 ≡ err e
    → (fat16_seek desc offset mode).1 ≡ desc
fat16_seek-err desc offset mode e r = seek-keeps_item desc desc.item offset mode e refl r

-- In a file, SEEK_SET succeeds exactly at the offsets inside it, and then that is the position.
pub fat16_seek-set :
    (item : FatDirectoryItem) (pos offset : ℕ)
    → (fat16_seek (record { item = file_item item; pos = pos }) offset seek_set
        ≡ (ok tt, record { item = file_item item; pos = offset }))
      ↔ (offset < item.filesize)
unfolding fat16_seek
fat16_seek-set item pos offset = ground arith

-- SEEK_CUR tests the offset alone: from a position inside the file, an offset that is smaller than
-- the file and leads behind its end succeeds, and the position is no longer inside.
pub fat16_seek-leaves_file :
    (item : FatDirectoryItem) (pos offset : ℕ)
    → pos < item.filesize
    → offset < item.filesize
    → item.filesize ≤ pos + offset
    → pos + offset < 2 ^ 32
    → (fat16_seek (record { item = file_item item; pos = pos }) offset seek_cur
        ≡ (ok tt, record { item = file_item item; pos = pos + offset }))
      × (¬ IsInside (fat16_seek (record { item = file_item item; pos = pos }) offset seek_cur).1)
unfolding fat16_seek
fat16_seek-leaves_file item pos offset a b c d = ground arith

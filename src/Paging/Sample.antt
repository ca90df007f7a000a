-- ===== src/Paging/Sample.antt =====
-- A directory at 0x100000 whose table `i` is the page at 0x200000 + 4096 * i.
use peachos.Base.{ℕ, ◌+◌, ◌-◌, ◌*◌, ◌/◌, ◌<◌, ◌≡◌, refl, arith, if◌then◌else◌, leb, ltb, ◌&&◌}
use peachos.Paging.{Mem, page_size, entries_per_table}
use peachos.Paging.Address.{table_of_lem}
use peachos.Paging.Directory.{IsDirectory, table}

abbrev pub base : ℕ
base = 0x100000

abbrev pub mem : Mem
mem a =
    if leb base a && ltb a (base + page_size) then 0x200000 + (a - base) / 4 * page_size + 7 else 0

entry_lem : (i : ℕ) → i < entries_per_table → mem (base + 4 * i) ≡ 0x200000 + i * page_size + 7
entry_lem i h = ground arith

table_lem : (i : ℕ) → i < entries_per_table → table mem base i ≡ 0x200000 + i * page_size
table_lem i h =
    omega (arith, table_of_lem (mem (base + 4 * i)) (omega (arith, entry_lem i h)), entry_lem i h)

pub mem-IsDirectory : IsDirectory mem base
mem-IsDirectory = record {
  aligned = refl;
  word = λ i h. omega (arith, entry_lem i h);
  apart = λ i h e. omega (arith, table_lem i h);
  distinct = λ i j h k n e. omega (arith, table_lem i h, table_lem j k);
}

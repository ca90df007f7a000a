-- ===== src/Paging/Tests.antt =====
-- Runs on the sample directory.
use peachos.Base.{◌+◌, ◌-◌, ◌≡◌, refl, arith}
use peachos.Paging.{map_to, get_physical_address}
use peachos.Paging.Range.{Maps, map_to-Maps, get_physical_address-Maps}
use peachos.Paging.Sample.{base, mem, mem-IsDirectory}

map_to-Maps_example :
    Maps mem base 0x400000 0x1000000
      (0x1002000 - 0x1000000)
      7
      (map_to mem base 0x400000 0x1000000 0x1002000 7)
map_to-Maps_example =
    map_to-Maps mem base 0x400000 0x1000000 0x1002000 7 mem-IsDirectory refl refl refl (omega arith)
      (omega arith) (omega arith) (omega arith)

get_physical_address-Maps_example :
    get_physical_address (map_to mem base 0x400000 0x1000000 0x1002000 7).0 base 0x401234
    ≡ 0x1000000 + (0x401234 - 0x400000)
get_physical_address-Maps_example =
    get_physical_address-Maps mem base 0x400000 0x1000000 0x2000 7 0x401234
      (map_to mem base 0x400000 0x1000000 0x1002000 7) map_to-Maps_example refl refl refl
      (omega arith) (omega arith) (omega arith) (omega arith) (omega arith)

-- ===== src/Memory.antt =====
-- src/memory/memory.c over byte lists. A buffer is the list of its bytes from the pointer on, and
-- `none` is an access past its end. Source and destination are different objects.
pub mod Fill
pub mod Laws
mod Tests
use peachos.Base.{
  ℕ, zero, suc, ◌+◌, ◌%◌, Bool, Option, some, List, get_elem?, set?, ◌>>=◌, ltb, ◌==◌,
  if◌then◌else◌,
}
use peachos.Base.Int.{ℤ, pos, negsuc}

-- for (i = 0; i < size; ++i) c_ptr[i] = (char)c, with the rounds left.
memset_loop : ℕ → ℕ → ℕ → List ℕ → Option (List ℕ)
memset_loop zero i c ptr = some ptr
memset_loop (suc n) i c ptr = do ptr' ← set? ptr i (c % 256); memset_loop n (i + 1) c ptr'

unfoldable pub memset : List ℕ → ℕ → ℕ → Option (List ℕ)
unfolding memset_loop
memset ptr c size = memset_loop size 0 c ptr

-- `char` is signed: 0x80 is the least byte, 0x7f the greatest.
abbrev pub char_ltb : ℕ → ℕ → Bool
char_ltb a b = ltb ((a + 128) % 256) ((b + 128) % 256)

memcmp_loop : ℕ → ℕ → List ℕ → List ℕ → Option ℤ
memcmp_loop zero i s1 s2 = some (pos 0)
memcmp_loop (suc n) i s1 s2 = do
  a ← get_elem? s1 i
  b ← get_elem? s2 i
  let rest = memcmp_loop n (i + 1) s1 s2
  if a == b then rest else some (if char_ltb a b then negsuc 0 else pos 1)

unfoldable pub memcmp : List ℕ → List ℕ → ℕ → Option ℤ
unfolding memcmp_loop
memcmp s1 s2 count = memcmp_loop count 0 s1 s2

memcpy_loop : ℕ → ℕ → List ℕ → List ℕ → Option (List ℕ)
memcpy_loop zero i dest src = some dest
memcpy_loop (suc n) i dest src = do
  b ← get_elem? src i
  dest' ← set? dest i b
  memcpy_loop n (i + 1) dest' src

-- `len` is not negative in any call.
unfoldable pub memcpy : List ℕ → List ℕ → ℕ → Option (List ℕ)
unfolding memcpy_loop
memcpy dest src len = memcpy_loop len 0 dest src

-- ===== src/Memory/Tests.antt =====
-- The byte loops on short buffers.
use peachos.Base.{ℕ, ◌≡◌, refl, none, some, List, [], ◌∷◌}
use peachos.Base.Int.{pos, negsuc}
use peachos.Memory.{memset, memcmp}

abbrev buffer : List ℕ
buffer = 1 ∷ 2 ∷ 3 ∷ []

runs :
    (memset buffer 256 2 ≡ some (0 ∷ 0 ∷ 3 ∷ []))
    × (memset buffer 0 4 ≡ none)
    × (memcmp (1 ∷ 0x80 ∷ []) (1 ∷ 0x7f ∷ []) 2 ≡ some (negsuc 0))
    × (memcmp (1 ∷ 9 ∷ []) (1 ∷ 7 ∷ []) 2 ≡ some (pos 1))
unfolding memset memcmp
runs = (refl, refl, refl, refl)

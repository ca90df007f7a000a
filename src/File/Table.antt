-- ===== src/File/Table.antt =====
-- The search for a free slot of the descriptor table.
use peachos.Base.{
  ℕ, suc, ◌+◌, ◌≡◌, refl, ap, ◌∙◌, Option, none, some, List, [], ◌∷◌, arith, get_elem?,
}
use peachos.File.{FileDescriptor, free_slot}

module _ {V : Type 0} where
  free_slot_from :
      (b i : ℕ) (ds : List (Option (FileDescriptor V)))
      → free_slot b ds ≡ some i
      → (j : ℕ) × (i ≡ b + j) × (get_elem? ds j ≡ some none)
  unfolding free_slot
  free_slot_from b i [] h = absurd (cc)
  free_slot_from b i (none ∷ ds) h = (0, ground arith, refl)
  free_slot_from b i (some d ∷ ds) h =
      let (j, e, at) = free_slot_from (b + 1) i ds h in (suc j, omega arith, at)

  -- The slot that is found is free.
  pub free_slot-none :
      (i : ℕ) (ds : List (Option (FileDescriptor V)))
      → free_slot 0 ds ≡ some i
      → get_elem? ds i ≡ some none
  free_slot-none i ds h =
      let (j, e, there) = free_slot_from 0 i ds h in
      let same : i ≡ j = omega arith in ap (get_elem? ds) same ∙ there

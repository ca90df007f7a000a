-- ===== src/Paging/Range.antt =====
-- Mapping a range of pages, and translating an address through it.
use peachos.Base.{
  refl, zero, ℕ, suc, ◌+◌, ◌-◌, ◌%◌, ◌^◌, ◌<◌, ◌≡◌, arith, ◌==◌, if◌then◌else◌, Bool, true, ◌&&◌,
  leb, ltb, ◌*◌, ◌≢◌, ◌≤◌, false, ◌∙◌, ◌⊎◌, ◌/◌, Bool-cases, inr, inl,
}
use peachos.Status.{Result, ok, einvagr, err}
use peachos.Paging.{
  Mem, page_size, set, get, map, map_range, get_physical_address, map_to, err, table_of,
}
use peachos.Paging.Address.{table_of_lem, with_flags}
use peachos.Paging.Directory.{IsDirectory, set-IsDirectory, get-set}

-- `addr` lies in the `size` bytes from `virt` on.
abbrev pub within : ℕ → ℕ → ℕ → Bool
within virt size addr = leb virt addr && ltb addr (virt + size)

-- The outcome of mapping `size` bytes from `virt` to `phys`: every page of the range has its entry,
-- every other page the entry that it had.
pub record Maps (mem : Mem) (directory virt phys size flags : ℕ) (out : Mem × Result (Unit {0}))
    : Type 0 where
  pub done : out.1 ≡ ok tt
  pub wellformed : IsDirectory out.0 directory
  pub entry :
      (page : ℕ)
      → page < 2 ^ 32
      → page % page_size ≡ 0
      → get out.0 directory page
        ≡ (if within virt size page then phys + (page - virt) + flags else get mem directory page)

map-set :
    (mem : Mem) (directory virt phys flags : ℕ)
    → virt % page_size ≡ 0
    → phys % page_size ≡ 0
    → flags < page_size
    → map mem directory virt phys flags ≡ set mem directory virt (phys + flags)
unfolding map
map-set mem directory virt phys flags a b f =
    let p : (virt % page_size == 0) ≡ true = ground arith in
    let q : (phys % page_size == 0) ≡ true = ground arith in rw (p, q, with_flags phys flags b f)

map_range-suc :
    (n : ℕ) (mem : Mem) (directory virt phys flags : ℕ)
    → (map mem directory virt phys flags).1 ≡ ok tt
    → map_range (suc n) mem directory virt phys flags
      ≡ map_range n
          (map mem directory virt phys flags).0
          directory
          ((virt + page_size) % 2 ^ 32)
          ((phys + page_size) % 2 ^ 32)
          flags
unfolding map_range
map_range-suc n mem directory virt phys flags e = rw (e, map_range)

module _ (directory flags : ℕ) (f : flags < page_size) where
  -- One page and then the rest of the range.
  entry_step :
      (n virt phys page old next here : ℕ)
      → virt < 2 ^ 32
      → virt + suc n * page_size ≤ 2 ^ 32
      → phys + suc n * page_size ≤ 2 ^ 32
      → virt % page_size ≡ 0
      → page % page_size ≡ 0
      → page < 2 ^ 32
      → here ≡ (if page == virt then phys + flags else old)
      → next ≡ (
          if within ((virt + page_size) % 2 ^ 32) (n * page_size) page
          then (phys + page_size) % 2 ^ 32 + (page - (virt + page_size) % 2 ^ 32) + flags
          else here)
      → next ≡ (if within virt (suc n * page_size) page then phys + (page - virt) + flags else old)
  entry_step n virt phys page old next here v vn pn va pa pb h e = ground arith

  pub map_range-Maps :
      (n : ℕ) (mem : Mem) (virt phys : ℕ)
      → IsDirectory mem directory
      → virt % page_size ≡ 0
      → phys % page_size ≡ 0
      → virt + n * page_size ≤ 2 ^ 32
      → phys + n * page_size ≤ 2 ^ 32
      → Maps mem directory virt phys
          (n * page_size)
          flags
          (map_range n mem directory virt phys flags)
  map_range-Maps zero mem virt phys dir a b v p =
      unfold map_range in record { done = refl; wellformed = dir; entry = λ page h q. ground arith }
  map_range-Maps (suc n) mem virt phys dir a b v p =
      let below : virt < 2 ^ 32 = omega arith in
      let val : ℕ = phys + flags in
      let one = set-IsDirectory dir virt val below a in
      let m = map-set mem directory virt phys flags a b f in
      let m' : Mem = (set mem directory virt val).0 in
      let step : map_range (suc n) mem directory virt phys flags
          ≡ map_range n m' directory ((virt + page_size) % 2 ^ 32) ((phys + page_size) % 2 ^ 32)
              flags =
        map_range-suc n mem directory virt phys flags (rw m (one.0)) ∙ rw m refl in
      let ih =
        map_range-Maps n m' ((virt + page_size) % 2 ^ 32) ((phys + page_size) % 2 ^ 32) one.1
          (omega arith) (omega arith) (omega arith) (omega arith) in
      rw step (record {
        done = ih.done;
        wellformed = ih.wellformed;
        entry = λ page h q.
            entry_step n virt phys page (get mem directory page) _ (get m' directory page) below v p
              a q h (get-set dir virt val below a page (omega arith) h q) (ih.entry page h q);
      })

-- paging_map_to of an aligned range that ends inside the address space maps its pages in order,
-- and no other.
pub map_to-Maps :
    (mem : Mem) (directory virt phys phys_end flags : ℕ)
    → IsDirectory mem directory
    → virt % page_size ≡ 0
    → phys % page_size ≡ 0
    → phys_end % page_size ≡ 0
    → phys ≤ phys_end
    → phys_end ≤ 2 ^ 32
    → virt + (phys_end - phys) ≤ 2 ^ 32
    → flags < page_size
    → Maps mem directory virt phys
        (phys_end - phys)
        flags
        (map_to mem directory virt phys phys_end flags)
unfolding map_to
map_to-Maps mem directory virt phys phys_end flags dir a b c le small v f =
    let p : (virt % page_size == 0) ≡ true = ground arith in
    let q : (phys % page_size == 0) ≡ true = ground arith in
    let r : (phys_end % page_size == 0) ≡ true = ground arith in
    let o : ltb phys_end phys ≡ false = ground arith in
    let n : (phys_end - phys) / page_size * page_size ≡ phys_end - phys = omega arith in
    rw (p, q, r, o)
      (rw n at (
        map_range-Maps directory flags f ((phys_end - phys) / page_size) mem virt phys dir a b
          (omega arith) (omega arith)))

-- paging_map_to refuses an unaligned or reversed range and changes nothing.
pub map_to-einvagr :
    (mem : Mem) (directory virt phys phys_end flags : ℕ)
    → ((virt % page_size ≢ 0) ⊎ (phys % page_size ≢ 0))
      ⊎ ((phys_end % page_size ≢ 0) ⊎ (phys_end < phys))
    → map_to mem directory virt phys phys_end flags ≡ (mem, err einvagr)
unfolding map_to
map_to-einvagr mem directory virt phys phys_end flags bad =
    elim (Bool-cases (virt % page_size == 0)) [
      | inr p ↦ rw p
      | inl p ↦ elim (Bool-cases (phys % page_size == 0)) [
        | inr q ↦ rw (p, q)
        | inl q ↦ elim (Bool-cases (phys_end % page_size == 0)) [
          | inr r ↦ rw (p, q, r)
          | inl r ↦ elim (Bool-cases (ltb phys_end phys)) [
            | inl o ↦ rw (p, q, r, o)
            | inr o ↦ absurd (ground arith)
          ]
        ]
      ]
    ]

-- An address inside a mapped range translates to the byte at the same place of the physical range.
pub get_physical_address-Maps :
    (mem : Mem) (directory virt phys size flags addr : ℕ) (out : Mem × Result (Unit {0}))
    → Maps mem directory virt phys size flags out
    → virt % page_size ≡ 0
    → phys % page_size ≡ 0
    → size % page_size ≡ 0
    → flags < page_size
    → phys + size ≤ 2 ^ 32
    → virt ≤ addr
    → addr < virt + size
    → addr < 2 ^ 32
    → get_physical_address out.0 directory addr ≡ phys + (addr - virt)
unfolding get_physical_address
get_physical_address-Maps mem directory virt phys size flags addr out maps a b s f fits lo hi
      small =
    let page = addr - addr % page_size in
    let inside : within virt size page ≡ true = ground arith in
    let entry : get out.0 directory page ≡ phys + (page - virt) + flags =
      maps.entry page (omega arith) (omega arith) ∙ rw inside in
    let word : phys + (page - virt) + flags < 2 ^ 32 = omega arith in
    let t : table_of (phys + (page - virt) + flags) ≡ phys + (page - virt) =
      omega (arith, table_of_lem (phys + (page - virt) + flags) word) in
    rw (entry, t) (omega arith)

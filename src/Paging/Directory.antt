-- ===== src/Paging/Directory.antt =====
-- A directory whose tables stand in pages of their own: paging_set and paging_get through it.
use mathlib.Core.Path.{ap₂}
use peachos.Base.{
  ℕ_discrete, ◌⊎◌, ℕ, ◌+◌, ◌*◌, ◌/◌, ◌%◌, ◌^◌, ◌<◌, ◌≡◌, ◌≢◌, refl, ap, ◌∙◌, sym, arith, ◌==◌, inl,
  inr, if◌then◌else◌, true, false,
}
use peachos.Status.{ok}
use peachos.Paging.{Mem, page_size, entries_per_table, store, table_of, set, get}
use peachos.Paging.Address.{table_of_lem}

-- The table of entry `i`.
abbrev pub table : Mem → ℕ → ℕ → ℕ
table mem directory i = table_of (mem (directory + 4 * i))

pub record IsDirectory (mem : Mem) (directory : ℕ) : Type 0 where
  pub aligned : directory % page_size ≡ 0
  pub word : (i : ℕ) → i < entries_per_table → mem (directory + 4 * i) < 2 ^ 32
  pub apart : (i : ℕ) → i < entries_per_table → table mem directory i ≢ directory
  pub distinct :
      (i j : ℕ)
      → i < entries_per_table
      → j < entries_per_table
      → i ≢ j
      → table mem directory i ≢ table mem directory j

pub store_self : (mem : Mem) (a v : ℕ) → v < 2 ^ 32 → store mem a v a ≡ v
unfolding store
store_self mem a v h = ground arith

pub store_ne : (mem : Mem) (a v b : ℕ) → b ≢ a → store mem a v b ≡ mem b
unfolding store
store_ne mem a v b h = ground arith

-- Words of different pages have different addresses.
pub pages_apart :
    (p q x y : ℕ)
    → p % page_size ≡ 0
    → q % page_size ≡ 0
    → p ≢ q
    → x < page_size
    → y < page_size
    → p + x ≢ q + y
pages_apart p q x y a b n h k = omega arith

module _ {mem : Mem} {directory : ℕ} (dir : IsDirectory mem directory) where
  table-aligned : (i : ℕ) → i < entries_per_table → table mem directory i % page_size ≡ 0
  table-aligned i h =
      omega (arith, table_of_lem (mem (directory + 4 * i)) (dir.word i h), dir.word i h)

  -- A write to a table leaves the directory as it is.
  directory_kept :
      (d t v i : ℕ)
      → d < entries_per_table
      → t < entries_per_table
      → i < entries_per_table
      → store mem (table mem directory d + 4 * t) v (directory + 4 * i) ≡ mem (directory + 4 * i)
  directory_kept d t v i hd ht hi =
      store_ne mem (table mem directory d + 4 * t) v (directory + 4 * i) (
        pages_apart directory (table mem directory d) (4 * i) (4 * t) dir.aligned
          (table-aligned d hd) (λ e. dir.apart d hd (sym e)) (omega arith) (omega arith))

  store-IsDirectory :
      (d t v : ℕ)
      → d < entries_per_table
      → t < entries_per_table
      → IsDirectory (store mem (table mem directory d + 4 * t) v) directory
  store-IsDirectory d t v hd ht = record {
    aligned = dir.aligned;
    word = λ i hi. rw (directory_kept d t v i hd ht hi) (dir.word i hi);
    apart = λ i hi. rw (directory_kept d t v i hd ht hi) (dir.apart i hi);
    distinct = λ i j hi hj n.
        rw (directory_kept d t v i hd ht hi, directory_kept d t v j hd ht hj)
          (dir.distinct i j hi hj n);
  }

-- The address of page `t` of table `d`.
abbrev pub page_at : ℕ → ℕ → ℕ
page_at d t = (d * entries_per_table + t) * page_size

set-page_at :
    (mem : Mem) (directory val d t : ℕ)
    → t < entries_per_table
    → set mem directory (page_at d t) val ≡ (store mem (table mem directory d + 4 * t) val, ok tt)
unfolding set
set-page_at mem directory val d t ht =
    let a : (page_at d t % page_size == 0) ≡ true = ground arith in
    let q : page_at d t / (entries_per_table * page_size) ≡ d = omega arith in
    let r : page_at d t % (entries_per_table * page_size) / page_size ≡ t = omega arith in
    rw (a, q, r)

get-page_at :
    (mem : Mem) (directory d t : ℕ)
    → t < entries_per_table
    → get mem directory (page_at d t) ≡ mem (table mem directory d + 4 * t)
unfolding get
get-page_at mem directory d t ht =
    let a : (page_at d t % page_size == 0) ≡ true = ground arith in
    let q : page_at d t / (entries_per_table * page_size) ≡ d = omega arith in
    let r : page_at d t % (entries_per_table * page_size) / page_size ≡ t = omega arith in
    rw (a, get) (rw (q, r))

module _ {mem : Mem} {directory : ℕ} (dir : IsDirectory mem directory) (d t e u : ℕ)
    (hd : d < entries_per_table) (ht : t < entries_per_table) (he : e < entries_per_table)
    (hu : u < entries_per_table) where
  slots_apart : (e ≢ d) ⊎ (u ≢ t) → table mem directory e + 4 * u ≢ table mem directory d + 4 * t
  slots_apart n = elim (ℕ_discrete e d) [
    | yes p ↦
        let same : table mem directory e ≡ table mem directory d = ap (table mem directory) p in
        let other : u ≢ t = elim n [ inl a ↦ absurd (a p) | inr b ↦ b ] in omega arith
    | no p ↦
        pages_apart (table mem directory e) (table mem directory d) (4 * u) (4 * t)
          (table-aligned dir e he) (table-aligned dir d hd) (dir.distinct e d he hd p) (omega arith)
          (omega arith)
  ]

  get-set_at :
      (val : ℕ)
      → val < 2 ^ 32
      → get (set mem directory (page_at d t) val).0 directory (page_at e u)
        ≡ (if page_at e u == page_at d t then val else get mem directory (page_at e u))
  get-set_at val small =
      let w = table mem directory d + 4 * t in
      let read : get (store mem w val) directory (page_at e u)
          ≡ store mem w val (table mem directory e + 4 * u) =
        get-page_at (store mem w val) directory e u hu
        ∙ ap (λ x. store mem w val (table_of x + 4 * u)) (directory_kept dir d t val e hd ht he) in
      rw (set-page_at mem directory val d t ht, read, get-page_at mem directory e u hu)
        (elim (dec_both) [
          | inl (p, q) ↦
              let hit : (page_at e u == page_at d t) ≡ true = ground arith in
              let here : table mem directory e + 4 * u ≡ w =
                ap₂ (λ x y. table mem directory x + 4 * y) p q in
              rw (hit, here, store_self mem w val small)
          | inr n ↦
              let miss : (page_at e u == page_at d t) ≡ false = ground arith in
              rw (miss, store_ne mem w val (table mem directory e + 4 * u) (slots_apart n))
        ])
    where
      dec_both : ((e ≡ d) × (u ≡ t)) ⊎ ((e ≢ d) ⊎ (u ≢ t))
      dec_both = elim (ℕ_discrete e d) [
        | yes p ↦ elim (ℕ_discrete u t) [ yes q ↦ inl (p, q) | no q ↦ inr (inr q) ]
        | no p ↦ inr (inl p)
      ]

-- An aligned address by its indexes.
abbrev pub AreIndexes : ℕ → ℕ → ℕ → Type 0
AreIndexes virt d t = (d < entries_per_table) × (t < entries_per_table) × (virt ≡ page_at d t)

indexes :
    (virt : ℕ) → virt < 2 ^ 32 → virt % page_size ≡ 0 → (d : ℕ) × (t : ℕ) × AreIndexes virt d t
indexes virt h a = (
  virt / (entries_per_table * page_size),
  virt % (entries_per_table * page_size) / page_size,
  (omega arith, omega arith, omega arith),
)

module _ {mem : Mem} {directory : ℕ} (dir : IsDirectory mem directory) (virt val : ℕ)
    (below : virt < 2 ^ 32) (page : virt % page_size ≡ 0) where
  -- paging_set of a page succeeds and keeps the directory well formed.
  pub set-IsDirectory :
      ((set mem directory virt val).1 ≡ ok tt)
      × IsDirectory (set mem directory virt val).0 directory
  set-IsDirectory =
      let (d, t, (hd, ht, e)) = indexes virt below page in
      rw (e, set-page_at mem directory val d t ht) (refl, store-IsDirectory dir d t val hd ht)

  -- paging_get after paging_set returns the new entry at that page and the old one at every other.
  pub get-set :
      (other : ℕ)
      → val < 2 ^ 32
      → other < 2 ^ 32
      → other % page_size ≡ 0
      → get (set mem directory virt val).0 directory other
        ≡ (if other == virt then val else get mem directory other)
  get-set other small lo al =
      let (d, t, (hd, ht, p)) = indexes virt below page in
      let (e, u, (he, hu, q)) = indexes other lo al in
      rw (p, q) (get-set_at dir d t e u hd ht he hu val small)

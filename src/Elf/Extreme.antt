-- ===== src/Elf/Extreme.antt =====
-- A running extreme over the segments to load: one header more, taken or passed over.
use peachos.Base.{
  ℕ, suc, ◌<◌, ◌≤◌, ◌≡◌, ◌≢◌, ◌⊎◌, inl, inr, sym, ap, ◌∙◌, arith, ◌==◌, ◌||◌, true, false, leb,
  dec_lt,
}
use peachos.Elf.{Elf32Phdr, pt_load}

abbrev pub IsLoad : Elf32Phdr → Type 0
IsLoad phdr = phdr.p_type ≡ pt_load

-- A value that is zero before the first segment, and then one of the segments' keys.
pub data Taken (phdrs : ℕ → Elf32Phdr) (key : Elf32Phdr → ℕ) (place : Elf32Phdr → ℕ) (i v p : ℕ)
    : Type 0 where
  unset : ((j : ℕ) → j < i → ¬ IsLoad (phdrs j)) → v ≡ 0 → Taken phdrs key place i v p
  from :
      (k : ℕ)
      → k < i
      → IsLoad (phdrs k)
      → v ≡ key (phdrs k)
      → p ≡ place (phdrs k)
      → Taken phdrs key place i v p

module _ (phdrs : ℕ → Elf32Phdr) (key place : Elf32Phdr → ℕ)
    (positive : (j : ℕ) → IsLoad (phdrs j) → 0 < key (phdrs j)) where
  -- A value that has been taken is the key of a segment, and not zero.
  taken_lem : (i v p j : ℕ) → Taken phdrs key place i v p → j < i → IsLoad (phdrs j) → v ≢ 0
  taken_lem i v p j (unset none_before z) inside load = absurd (none_before j inside load)
  taken_lem i v p j (from k h load_k e f) inside load = omega (arith, positive k load_k)

  -- j is an earlier header or the last.
  last_or_before : (i j : ℕ) → j < suc i → (j < i) ⊎ (j ≡ i)
  last_or_before i j h = elim (dec_lt j i) [ yes p ↦ inl p | no p ↦ inr (omega arith) ]

  none_after :
      (i : ℕ)
      → ((j : ℕ) → j < i → ¬ IsLoad (phdrs j))
      → ¬ IsLoad (phdrs i)
      → (j : ℕ) → j < suc i
      → ¬ IsLoad (phdrs j)
  none_after i before h j inside load = elim (last_or_before i j inside) [
    | inl p ↦ before j p load
    | inr e ↦ h (ap (λ n. Elf32Phdr.p_type (phdrs n)) (sym e) ∙ load)
  ]

  -- One more header, which is none to load.
  pub skip :
      (i v p : ℕ)
      → Taken phdrs key place i v p
      → ¬ IsLoad (phdrs i)
      → Taken phdrs key place (suc i) v p
  skip i v p (unset none_before z) h = unset (none_after i none_before h) z
  skip i v p (from k h load e f) other = from k (omega arith) load e f

  pub keep : (i v p : ℕ) → Taken phdrs key place i v p → v ≢ 0 → Taken phdrs key place (suc i) v p
  keep i v p (unset none_before z) h = absurd (h z)
  keep i v p (from k h load e f) other = from k (omega arith) load e f

  abbrev pub Least : ℕ → ℕ → Type 0
  Least i v = (j : ℕ) → j < i → IsLoad (phdrs j) → v ≤ key (phdrs j)

  abbrev pub Greatest : ℕ → ℕ → Type 0
  Greatest i v = (j : ℕ) → j < i → IsLoad (phdrs j) → key (phdrs j) ≤ v

  pub Least-skip : (i v : ℕ) → Least i v → ¬ IsLoad (phdrs i) → Least (suc i) v
  Least-skip i v low h j inside load = elim (last_or_before i j inside) [
    | inl p ↦ low j p load
    | inr e ↦ absurd (h (ap (λ n. Elf32Phdr.p_type (phdrs n)) (sym e) ∙ load))
  ]

  pub Greatest-skip : (i v : ℕ) → Greatest i v → ¬ IsLoad (phdrs i) → Greatest (suc i) v
  Greatest-skip i v high h j inside load = elim (last_or_before i j inside) [
    | inl p ↦ high j p load
    | inr e ↦ absurd (h (ap (λ n. Elf32Phdr.p_type (phdrs n)) (sym e) ∙ load))
  ]

  pub Least-new :
      (i v p : ℕ)
      → Least i v
      → Taken phdrs key place i v p
      → (leb (key (phdrs i)) v || v == 0) ≡ true
      → Least (suc i) (key (phdrs i))
  Least-new i v p low t new j inside load = elim (last_or_before i j inside) [
    | inl h ↦ let bound = low j h load in let nonzero = taken_lem i v p j t h load in ground arith
    | inr e ↦ omega (arith, ap (λ n. key (phdrs n)) e)
  ]

  pub Least-old :
      (i v : ℕ) → Least i v → (leb (key (phdrs i)) v || v == 0) ≡ false → Least (suc i) v
  Least-old i v low old j inside load = elim (last_or_before i j inside) [
    | inl h ↦ low j h load
    | inr e ↦ let same = ap (λ n. key (phdrs n)) e in ground arith
  ]

  pub Greatest-new :
      (i v p : ℕ)
      → Greatest i v
      → Taken phdrs key place i v p
      → (leb v (key (phdrs i)) || v == 0) ≡ true
      → Greatest (suc i) (key (phdrs i))
  Greatest-new i v p high t new j inside load = elim (last_or_before i j inside) [
    | inl h ↦ let bound = high j h load in let nonzero = taken_lem i v p j t h load in ground arith
    | inr e ↦ omega (arith, ap (λ n. key (phdrs n)) e)
  ]

  pub Greatest-old :
      (i v : ℕ) → Greatest i v → (leb v (key (phdrs i)) || v == 0) ≡ false → Greatest (suc i) v
  Greatest-old i v high old j inside load = elim (last_or_before i j inside) [
    | inl h ↦ high j h load
    | inr e ↦ let same = ap (λ n. key (phdrs n)) e in ground arith
  ]

-- ===== src/Stringos/Compare.antt =====
-- strncmp and istrncmp decide equality of the first bytes of two C strings.
use mathlib.Core.List.{map}
use peachos.Base.{
  ℕ, zero, suc, ◌≡◌, refl, ◌↔◌, some, List, [], ◌∷◌, ◌++◌, arith, take, ◌≢◌, ◌==◌, false,
  Bool-cases, inl, inr, ◌⊎◌, ◌+◌, ◌≤◌,
}
use peachos.Base.Int.{pos}
use peachos.Stringos.{strncmp, istrncmp, tolower}
use peachos.Stringos.Laws.{NonZero}

-- `strncmp` is zero exactly when the two texts agree in their first `n` bytes.
pub strncmp-eq-zero_iff :
    (n : ℕ) (s t q r : List ℕ)
    → NonZero s
    → NonZero t
    → (strncmp (s ++ (0 ∷ q)) (t ++ (0 ∷ r)) n ≡ some (pos 0)) ↔ (take n s ≡ take n t)
unfolding strncmp
strncmp-eq-zero_iff zero s t q r y z = (λ h. refl, λ h. refl)
strncmp-eq-zero_iff (suc n) [] [] q r y z = (λ h. refl, λ h. refl)
strncmp-eq-zero_iff (suc n) [] (d ∷ t) q r y z = (λ h. ground (arith, z.0), λ h. cc)
strncmp-eq-zero_iff (suc n) (c ∷ s) [] q r y z = (λ h. ground (arith, y.0), λ h. cc)
strncmp-eq-zero_iff (suc n) (c ∷ s) (d ∷ t) q r y z =
    let ih = strncmp-eq-zero_iff n s t q r y.1 z.1 in
    (λ h. ground (arith, y.0, ih.0), λ h. ground (arith, y.0, ih.1))

tolower-zero : (c : ℕ) → c ≢ 0 → (tolower 0 == tolower c) ≡ false
unfolding tolower
tolower-zero c z = ground arith

zero-tolower : (c : ℕ) → c ≢ 0 → (tolower c == tolower 0) ≡ false
unfolding tolower
zero-tolower c z = ground arith

istrncmp-folded :
    (n : ℕ) (s t q r : List ℕ)
    → NonZero s
    → NonZero t
    → (istrncmp (s ++ (0 ∷ q)) (t ++ (0 ∷ r)) n ≡ some (pos 0))
      ↔ (map tolower (take n s) ≡ map tolower (take n t))
unfolding istrncmp
istrncmp-folded zero s t q r y z = (λ h. refl, λ h. refl)
istrncmp-folded (suc n) [] [] q r y z = (λ h. refl, λ h. refl)
istrncmp-folded (suc n) [] (d ∷ t) q r y z = (λ h. ground (arith, z.0, tolower-zero d z.0), λ h. cc)
istrncmp-folded (suc n) (c ∷ s) [] q r y z = (λ h. ground (arith, y.0, zero-tolower c y.0), λ h. cc)
istrncmp-folded (suc n) (c ∷ s) (d ∷ t) q r y z =
    let ih = istrncmp-folded n s t q r y.1 z.1 in
    (
      λ h. elim (Bool-cases (tolower c == tolower d)) [
        | inl same ↦ ground (arith, y.0, ih.0)
        | inr other ↦ ground (arith, y.0)
      ],
      λ h. ground (arith, y.0, ih.1),
    )

-- The same byte, or the same ASCII letter in the other case.
abbrev pub SameLetter : ℕ → ℕ → Type 0
SameLetter c d =
    (c ≡ d) ⊎ (((65 ≤ c) × (c ≤ 90) × (d ≡ c + 32)) ⊎ ((65 ≤ d) × (d ≤ 90) × (c ≡ d + 32)))

-- Texts of one length that agree byte by byte up to case.
pub data Agree : List ℕ → List ℕ → Type 0 where
  end : Agree [] []
  next : {c d : ℕ} {s t : List ℕ} → SameLetter c d → Agree s t → Agree (c ∷ s) (d ∷ t)

fold-SameLetter : (c d : ℕ) → tolower c ≡ tolower d → SameLetter c d
unfolding tolower
fold-SameLetter c d h = ground arith

SameLetter-fold : (c d : ℕ) → SameLetter c d → tolower c ≡ tolower d
unfolding tolower
SameLetter-fold c d h = ground arith

folded-Agree : (s t : List ℕ) → map tolower s ≡ map tolower t → Agree s t
folded-Agree [] [] h = end
folded-Agree [] (d ∷ t) h = absurd (cc)
folded-Agree (c ∷ s) [] h = absurd (cc)
folded-Agree (c ∷ s) (d ∷ t) h =
    let same : tolower c ≡ tolower d = cc in
    let rest : map tolower s ≡ map tolower t = cc in
    next (fold-SameLetter c d same) (folded-Agree s t rest)

Agree-folded : {s t : List ℕ} → Agree s t → map tolower s ≡ map tolower t
Agree-folded end = refl
Agree-folded (next {c} {d} same rest) =
    let e = SameLetter-fold c d same in let f = Agree-folded rest in cc

-- `istrncmp` is zero exactly when the first `n` bytes of the two texts agree up to the case of
-- ASCII letters.
pub istrncmp-eq-zero_iff :
    (n : ℕ) (s t q r : List ℕ)
    → NonZero s
    → NonZero t
    → (istrncmp (s ++ (0 ∷ q)) (t ++ (0 ∷ r)) n ≡ some (pos 0)) ↔ Agree (take n s) (take n t)
istrncmp-eq-zero_iff n s t q r y z =
    let folded = istrncmp-folded n s t q r y z in
    (λ h. folded-Agree (take n s) (take n t) (folded.0 h), λ a. folded.1 (Agree-folded a))

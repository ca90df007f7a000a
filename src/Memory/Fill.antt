-- ===== src/Memory/Fill.antt =====
-- memset over memory as a function from addresses to bytes.
use peachos.Base.{
  ℕ, zero, suc, ◌+◌, ◌≤◌, ◌<◌, ◌≡◌, refl, ◌∙◌, true, false, arith, ◌==◌, if◌then◌else◌, ℕ_discrete,
}

-- memset(ptr, c, n) of a byte `c`, with the rounds left.
unfoldable pub fill : ℕ → ℕ → ℕ → (ℕ → ℕ) → ℕ → ℕ
fill zero ptr c memory = memory
fill (suc n) ptr c memory = fill n (ptr + 1) c (λ a. if a == ptr then c else memory a)

pub fill-before : (n ptr c a : ℕ) (memory : ℕ → ℕ) → a < ptr → fill n ptr c memory a ≡ memory a
unfolding fill
fill-before zero ptr c a memory h = refl
fill-before (suc n) ptr c a memory h =
    let apart : (a == ptr) ≡ false = ground arith in
    fill-before n (ptr + 1) c a (λ x. if x == ptr then c else memory x) (omega arith)
    ∙ rw apart refl

pub fill-after : (n ptr c a : ℕ) (memory : ℕ → ℕ) → ptr + n ≤ a → fill n ptr c memory a ≡ memory a
unfolding fill
fill-after zero ptr c a memory h = refl
fill-after (suc n) ptr c a memory h =
    let apart : (a == ptr) ≡ false = ground arith in
    fill-after n (ptr + 1) c a (λ x. if x == ptr then c else memory x) (omega arith) ∙ rw apart refl

pub fill-inside :
    (n ptr c a : ℕ) (memory : ℕ → ℕ) → ptr ≤ a → a < ptr + n → fill n ptr c memory a ≡ c
unfolding fill
fill-inside zero ptr c a memory low high = absurd (omega arith)
fill-inside (suc n) ptr c a memory low high = elim (ℕ_discrete a ptr) [
  | yes e ↦
      let here : (a == ptr) ≡ true = ground arith in
      fill-before n (ptr + 1) c a (λ x. if x == ptr then c else memory x) (omega arith)
      ∙ rw here refl
  | no ne ↦
      fill-inside n (ptr + 1) c a (λ x. if x == ptr then c else memory x) (omega arith)
        (omega arith)
]

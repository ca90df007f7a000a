-- ===== src/PathParser/Split.antt =====
-- The parts of a path as a split at `/`, and the parser's loops against it.
use mathlib.Core.List.{map}
use peachos.Base.{
  ℕ, zero, suc, ◌+◌, ◌-◌, ◌≤◌, ◌≡◌, refl, ap, ◌∙◌, inl, inr, false, none, some, List, [], ◌∷◌, ◌++◌,
  arith, length, drop, replicate, ◌==◌, if◌then◌else◌, append_assoc, set?-at, snoc_length,
  Bool-cases, ◌<◌, Option, ◌>>=◌,
}
use peachos.Stringos.Laws.{NonZero}
use peachos.PathParser.{max_path, part_loop, skip_slash, get_path_part, parts_loop}

unfoldable pub cons_head : ℕ → List (List ℕ) → List (List ℕ)
cons_head c [] = (c ∷ []) ∷ []
cons_head c (p ∷ ps) = (c ∷ p) ∷ ps

-- A text cut at every `/`; the empty text has one empty piece.
unfoldable pub split : List ℕ → List (List ℕ)
unfolding cons_head
split [] = [] ∷ []
split (c ∷ s) = if c == b'/' then [] ∷ split s else cons_head c (split s)

-- The pieces before the first empty one.
unfoldable pub nonempty_prefix : List (List ℕ) → List (List ℕ)
nonempty_prefix [] = []
nonempty_prefix ([] ∷ ps) = []
nonempty_prefix ((c ∷ p) ∷ ps) = (c ∷ p) ∷ nonempty_prefix ps

-- A piece in its buffer.
unfoldable pub pad : List ℕ → List ℕ
pad p = p ++ replicate (max_path - length p) 0

-- The first piece, and what follows the `/` behind it.
piece : List ℕ → List ℕ
piece [] = []
piece (c ∷ s) = if c == b'/' then [] else c ∷ piece s

after : List ℕ → List ℕ
after [] = []
after (c ∷ s) = if c == b'/' then s else after s

-- Where the copying loop stops.
stop : List ℕ → List ℕ → List ℕ
stop [] r = 0 ∷ r
stop (c ∷ s) r = if c == b'/' then c ∷ (s ++ (0 ∷ r)) else stop s r

length-piece : (s : List ℕ) → length (piece s) + length (after s) ≤ length s
unfolding piece after
length-piece [] = omega arith
length-piece (c ∷ s) = ground (arith, length-piece s)

NonZero-after : (s : List ℕ) → NonZero s → NonZero (after s)
unfolding after
NonZero-after [] z = z
NonZero-after (c ∷ s) z = elim (Bool-cases (c == b'/')) [
  | inl slash ↦ rw slash (z.1)
  | inr other ↦ rw other (NonZero-after s z.1)
]

skip_slash-stop : (s r : List ℕ) → skip_slash (stop s r) ≡ after s ++ (0 ∷ r)
unfolding skip_slash stop after
skip_slash-stop [] r = refl
skip_slash-stop (c ∷ s) r = elim (Bool-cases (c == b'/')) [
  | inl slash ↦ rw slash (rw slash refl)
  | inr other ↦ rw other (skip_slash-stop s r)
]

drop-replicate : (k n : ℕ) → drop k (replicate n 0) ≡ replicate {A = ℕ} (n - k) 0
drop-replicate zero n = let e : n - 0 ≡ n = omega arith in rw e
drop-replicate (suc k) zero = let e : 0 - suc k ≡ 0 = omega arith in rw e
drop-replicate (suc k) (suc n) =
    let e : suc n - suc k ≡ n - k = omega arith in rw e (drop-replicate k n)

part_loop-piece :
    (s r : List ℕ) (i : ℕ) (new zeros : List ℕ)
    → i ≡ length new
    → NonZero s
    → length (piece s) ≤ length zeros
    → part_loop (s ++ (0 ∷ r)) i (new ++ zeros)
      ≡ some (new ++ (piece s ++ drop (length (piece s)) zeros), i + length (piece s), stop s r)
unfolding part_loop piece stop
part_loop-piece [] r i new zeros e z h = ap (λ t. some (new ++ zeros, t, 0 ∷ r)) (omega arith)
part_loop-piece (c ∷ s) r i new [] e z h = elim (Bool-cases (c == b'/')) [
  | inl slash ↦ let d : i + 0 ≡ i = omega arith in rw (slash, d)
  | inr other ↦ absurd (let h' = rw other at h in omega arith)
]
part_loop-piece (c ∷ s) r i new (x ∷ zeros) e z h = elim (Bool-cases (c == b'/')) [
  | inl slash ↦ let d : i + 0 ≡ i = omega arith in rw (slash, d)
  | inr other ↦
      let n = length (piece s) in
      let go : (c == 0) ≡ false = ground (arith, z.0) in
      let room : n ≤ length zeros = (let h' = rw other at h in omega arith) in
      let count : i + suc n ≡ i + 1 + n = omega arith in
      rw (other, go, set?-at new x zeros i c e, count)
        (part_loop-piece s r (i + 1) (new ++ (c ∷ [])) zeros (snoc_length new c i e) z.1 room
          ∙ ap (λ t. some (t, i + 1 + n, stop s r)) (append_assoc new (c ∷ []) _))
]

-- pathparser_get_path_part takes the first piece, padded, and moves behind its `/`.
get_path_part-piece :
    (s r : List ℕ)
    → NonZero s
    → length s ≤ max_path
    → get_path_part (s ++ (0 ∷ r))
      ≡ some (if length (piece s) == 0 then none else some (pad (piece s)), after s ++ (0 ∷ r))
unfolding get_path_part pad
get_path_part-piece s r z h =
    let n = length (piece s) in
    let room : n ≤ length (replicate {A = ℕ} max_path 0) = omega (arith, length-piece s) in
    let e : 0 + n ≡ n = omega arith in
    let l = part_loop-piece s r 0 [] (replicate max_path 0) refl z room in
    rw (l, e, skip_slash-stop s r, drop-replicate n max_path) refl

-- The pieces behind the first.
later : List ℕ → List (List ℕ)
later [] = []
later (c ∷ s) = if c == b'/' then split s else later s

split-piece : (s : List ℕ) → split s ≡ piece s ∷ later s
unfolding split piece later
split-piece [] = refl
split-piece (c ∷ s) = elim (Bool-cases (c == b'/')) [
  | inl slash ↦ rw slash
  | inr other ↦ rw (other, split-piece s)
]

nonempty_prefix-later : (s : List ℕ) → nonempty_prefix (later s) ≡ nonempty_prefix (split (after s))
unfolding nonempty_prefix later after split
nonempty_prefix-later [] = refl
nonempty_prefix-later (c ∷ s) = elim (Bool-cases (c == b'/')) [
  | inl slash ↦ rw slash
  | inr other ↦ rw other (nonempty_prefix-later s)
]

abbrev cons_piece : List ℕ → List (List ℕ) → List (List ℕ)
cons_piece [] ps = []
cons_piece (c ∷ p) ps = (c ∷ p) ∷ ps

nonempty_prefix-split :
    (s : List ℕ)
    → nonempty_prefix (split s) ≡ cons_piece (piece s) (nonempty_prefix (split (after s)))
nonempty_prefix-split s = rw (split-piece s, ← nonempty_prefix-later s) (go (piece s) (later s))
  where
    go :
        (p : List ℕ) (ps : List (List ℕ))
        → nonempty_prefix (p ∷ ps) ≡ cons_piece p (nonempty_prefix ps)
    go [] ps = unfold nonempty_prefix in refl
    go (c ∷ p) ps = unfold nonempty_prefix in refl

-- One round of the loop: an empty piece ends it.
round :
    (p : List ℕ) (rest : Option (List (List ℕ))) (ps : List (List ℕ))
    → (0 < length p → rest ≡ some (map pad ps))
    → (let part : Option (List ℕ) = if length p == 0 then none else some (pad p) in
        elim part [ none ↦ some [] | some q ↦ rest >>= λ qs. some (q ∷ qs) ])
      ≡ some (map pad (cons_piece p ps))
round [] rest ps h = refl
round (c ∷ p) rest ps h =
    let long : (suc (length p) == 0) ≡ false = ground arith in rw (long, h (omega arith))

-- With a round for each byte and one more, the loop ends and has the nonempty pieces up to the
-- first empty one.
pub parts_loop-split :
    (fuel : ℕ) (s r : List ℕ)
    → NonZero s
    → length s ≤ max_path
    → length s < fuel
    → parts_loop fuel (s ++ (0 ∷ r)) ≡ some (map pad (nonempty_prefix (split s)))
unfolding parts_loop
parts_loop-split zero s r z h f = absurd (omega arith)
parts_loop-split (suc fuel) s r z h f =
    rw (get_path_part-piece s r z h, nonempty_prefix-split s)
      (round (piece s) (parts_loop fuel (after s ++ (0 ∷ r))) (nonempty_prefix (split (after s)))
        λ q.
          parts_loop-split fuel (after s) r (NonZero-after s z) (omega (arith, length-piece s))
            (omega (arith, length-piece s)))

-- ===== src/PathParser/Join.antt =====
-- Names joined by `/`, which the parser takes apart again.
use peachos.Base.{ℕ, ◌<◌, ◌≡◌, ◌≢◌, refl, ap, false, List, [], ◌∷◌, ◌++◌, arith, length, ◌==◌}
use peachos.Stringos.Laws.{NonZero}
use peachos.PathParser.Split.{split, cons_head, nonempty_prefix}

abbrev NoSlash : List ℕ → Type 0
NoSlash [] = Unit
NoSlash (c ∷ p) = (c ≢ b'/') × NoSlash p

-- A name of a path: not empty, with no `/` and no zero byte.
abbrev pub AreNames : List (List ℕ) → Type 0
AreNames [] = Unit
AreNames (p ∷ ps) = (0 < length p) × NoSlash p × NonZero p × AreNames ps

-- Names with a `/` between them.
unfoldable pub join : List (List ℕ) → List ℕ
join [] = []
join (p ∷ []) = p
join (p ∷ q ∷ ps) = p ++ (b'/' ∷ join (q ∷ ps))

split-slash : (p s : List ℕ) → NoSlash p → split (p ++ (b'/' ∷ s)) ≡ p ∷ split s
unfolding split cons_head
split-slash [] s n = refl
split-slash (c ∷ p) s n =
    let other : (c == b'/') ≡ false = ground (arith, n.0) in rw (other, split-slash p s n.1)

split-plain : (p : List ℕ) → NoSlash p → split p ≡ p ∷ []
unfolding split cons_head
split-plain [] n = refl
split-plain (c ∷ p) n =
    let other : (c == b'/') ≡ false = ground (arith, n.0) in rw (other, split-plain p n.1)

nonempty_prefix-cons :
    (p : List ℕ) (ps : List (List ℕ))
    → 0 < length p
    → nonempty_prefix (p ∷ ps) ≡ p ∷ nonempty_prefix ps
unfolding nonempty_prefix
nonempty_prefix-cons [] ps h = absurd (omega arith)
nonempty_prefix-cons (c ∷ p) ps h = refl

pub split-join : (ps : List (List ℕ)) → AreNames ps → nonempty_prefix (split (join ps)) ≡ ps
unfolding join
split-join [] a = unfold split nonempty_prefix in refl
split-join (p ∷ []) a =
    rw (split-plain p a.1, nonempty_prefix-cons p [] a.0) (unfold nonempty_prefix in refl)
split-join (p ∷ q ∷ ps) a =
    rw (split-slash p (join (q ∷ ps)) a.1, nonempty_prefix-cons p (split (join (q ∷ ps))) a.0)
      (ap (λ r. p ∷ r) (split-join (q ∷ ps) a.3))

NonZero-append : (p s : List ℕ) → NonZero p → NonZero s → NonZero (p ++ s)
NonZero-append [] s y z = z
NonZero-append (c ∷ p) s y z = (y.0, NonZero-append p s y.1 z)

pub NonZero-join : (ps : List (List ℕ)) → AreNames ps → NonZero (join ps)
unfolding join
NonZero-join [] a = tt
NonZero-join (p ∷ []) a = a.2
NonZero-join (p ∷ q ∷ ps) a =
    NonZero-append p (b'/' ∷ join (q ∷ ps)) a.2 (omega arith, NonZero-join (q ∷ ps) a.3)

-- ===== src/Task/Places.antt =====
-- The object at each place of a list of tasks.
use mathlib.Core.Path.{subst}
use mathlib.Core.Option.{some-injective}
use peachos.Base.{
  ℕ, zero, suc, ◌<◌, ◌≤◌, ◌≡◌, refl, ◌≢◌, Option, some, [], ◌∷◌, arith, length, get_elem?, drop,
}
use peachos.Task.{Task}
use peachos.Task.List.{Nodes, first, Linked}

-- The object at each place of the list.
pub node-at :
    (cells : ℕ → Option Task) (q : ℕ) (ns : Nodes) (e i a : ℕ) (t : Task)
    → Linked cells q ns e
    → get_elem? ns i ≡ some (a, t)
    → (a ≢ 0)
      × ((p : ℕ) × (cells a ≡ some (record t { next = first (drop (suc i) ns) e; prev = p })))
node-at cells q [] e i a t l h = absurd (cc)
node-at cells q ((b, u) ∷ ns) e zero a t l h =
    subst
      (λ (n : ℕ × Task).
        (n.0 ≢ 0) × ((p : ℕ) × (cells n.0 ≡ some (record n.1 { next = first ns e; prev = p }))))
      (some-injective (b, u) (a, t) h) (l.0, (q, l.1))
node-at cells q ((b, u) ∷ ns) e (suc i) a t l h = node-at cells b ns e i a t l.2 h

pub first-drop :
    (ns : Nodes) (e i a : ℕ) (t : Task) → get_elem? ns i ≡ some (a, t) → first (drop i ns) e ≡ a
first-drop [] e i a t h = absurd (cc)
first-drop ((b, u) ∷ ns) e zero a t h = cc
first-drop ((b, u) ∷ ns) e (suc i) a t h = first-drop ns e i a t h

pub first-drop_end : (ns : Nodes) (e i : ℕ) → length ns ≤ i → first (drop i ns) e ≡ e
first-drop_end [] e zero h = refl
first-drop_end [] e (suc i) h = refl
first-drop_end ((b, u) ∷ ns) e zero h = absurd (omega arith)
first-drop_end ((b, u) ∷ ns) e (suc i) h = first-drop_end ns e i (omega arith)

pub get_elem?-lt : (ns : Nodes) (i a : ℕ) (t : Task) → get_elem? ns i ≡ some (a, t) → i < length ns
get_elem?-lt [] i a t h = absurd (cc)
get_elem?-lt ((b, u) ∷ ns) zero a t h = omega arith
get_elem?-lt ((b, u) ∷ ns) (suc i) a t h = omega (arith, get_elem?-lt ns i a t h)

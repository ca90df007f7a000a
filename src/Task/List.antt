-- ===== src/Task/List.antt =====
-- The linked list of the tasks: what its nodes hold, and how they are kept when a store writes
-- elsewhere.
use peachos.Base.{
  ℕ, ◌≡◌, refl, sym, ap, ◌∙◌, ◌≢◌, Option, some, List, [], ◌∷◌, ◌++◌, ◌⊎◌, inl, inr, ne→==, ==_refl,
}
use peachos.Task.{Task, Tasks, update}

-- The nodes of a list: the address of each task, and its contents but for the links.
abbrev pub Nodes : Type 0
Nodes = List (ℕ × Task)

abbrev pub first : Nodes → ℕ → ℕ
first [] e = e
first ((a, t) ∷ ns) e = a

abbrev pub last_of : ℕ → Nodes → ℕ
last_of q [] = q
last_of q ((a, t) ∷ ns) = last_of a ns

-- The nodes stand in the store, linked both ways, between `q` in front and `e` behind.
abbrev pub Linked : (ℕ → Option Task) → ℕ → Nodes → ℕ → Type 0
Linked cells q [] e = Unit
Linked cells q ((a, t) ∷ ns) e =
    (a ≢ 0) × (cells a ≡ some (record t { next = first ns e; prev = q })) × Linked cells a ns e

-- The nodes stand in the store, linked by `next`: what a walk from the head sees.
abbrev pub Forward : (ℕ → Option Task) → Nodes → ℕ → Type 0
Forward cells [] e = Unit
Forward cells ((a, t) ∷ ns) e =
    (a ≢ 0)
    × ((p : ℕ) × (cells a ≡ some (record t { next = first ns e; prev = p })))
    × Forward cells ns e

-- No node stands at the address.
abbrev pub Avoids : ℕ → Nodes → Type 0
Avoids x [] = Unit
Avoids x ((a, t) ∷ ns) = (x ≢ a) × Avoids x ns

-- No address twice.
abbrev pub Distinct : Nodes → Type 0
Distinct [] = Unit
Distinct ((a, t) ∷ ns) = Avoids a ns × Distinct ns

-- The state of the file with these nodes as its list.
abbrev pub tasks_of : (ℕ → Option Task) → Nodes → ℕ → ℕ → Tasks
tasks_of cells ns current directory = record {
  cells = cells;
  current_task = current;
  task_tail = last_of 0 ns;
  task_head = first ns 0;
  directory = directory;
}

pub update-at : (cells : ℕ → Option Task) (x : ℕ) (v : Option Task) → update cells x v x ≡ v
update-at cells x v = rw (==_refl x)

pub update-other :
    (cells : ℕ → Option Task) (x a : ℕ) (v : Option Task) → x ≢ a → update cells x v a ≡ cells a
update-other cells x a v h = rw (ne→== a x (λ e. h (sym e)))

module _ (cells : ℕ → Option Task) (x : ℕ) (v : Option Task) where
  -- A write to another address keeps a list.
  pub Linked-update :
      (q : ℕ) (ns : Nodes) (e : ℕ)
      → Avoids x ns
      → Linked cells q ns e
      → Linked (update cells x v) q ns e
  Linked-update q [] e h l = tt
  Linked-update q ((a, t) ∷ ns) e h l =
      (l.0, update-other cells x a v h.0 ∙ l.1, Linked-update a ns e h.1 l.2)

  pub Forward-update :
      (ns : Nodes) (e : ℕ) → Avoids x ns → Forward cells ns e → Forward (update cells x v) ns e
  Forward-update [] e h l = tt
  Forward-update ((a, t) ∷ ns) e h l =
      (l.0, (l.1.0, update-other cells x a v h.0 ∙ l.1.1), Forward-update ns e h.1 l.2)

pub Linked-Forward :
    (cells : ℕ → Option Task) (q : ℕ) (ns : Nodes) (e : ℕ)
    → Linked cells q ns e
    → Forward cells ns e
Linked-Forward cells q [] e l = tt
Linked-Forward cells q ((a, t) ∷ ns) e l = (l.0, (q, l.1), Linked-Forward cells a ns e l.2)

pub first-append : (xs ys : Nodes) (e : ℕ) → first (xs ++ ys) e ≡ first xs (first ys e)
first-append [] ys e = refl
first-append ((a, t) ∷ xs) ys e = refl

pub first-snoc :
    (xs : Nodes) (x : ℕ) (t : Task) (ys : Nodes) (e : ℕ)
    → first ((xs ++ ((x, t) ∷ [])) ++ ys) e ≡ first (xs ++ ((x, t) ∷ [])) e
first-snoc [] x t ys e = refl
first-snoc ((a, u) ∷ xs) x t ys e = refl

pub last_of-append : (q : ℕ) (xs ys : Nodes) → last_of q (xs ++ ys) ≡ last_of (last_of q xs) ys
last_of-append q [] ys = refl
last_of-append q ((a, t) ∷ xs) ys = last_of-append a xs ys

-- A list is cut where two lists meet, and joined there.
module _ (cells : ℕ → Option Task) (ys : Nodes) (e : ℕ) where
  pub Linked-cut :
      (q : ℕ) (xs : Nodes)
      → Linked cells q (xs ++ ys) e
      → Linked cells q xs (first ys e) × Linked cells (last_of q xs) ys e
  Linked-cut q [] l = (tt, l)
  Linked-cut q ((a, t) ∷ xs) l =
      let (left, right) = Linked-cut a xs l.2 in
      (
        (l.0, l.1 ∙ ap (λ n. some (record t { next = n; prev = q })) (first-append xs ys e), left),
        right,
      )

  pub Linked-join :
      (q : ℕ) (xs : Nodes)
      → Linked cells q xs (first ys e)
      → Linked cells (last_of q xs) ys e
      → Linked cells q (xs ++ ys) e
  Linked-join q [] l r = r
  Linked-join q ((a, t) ∷ xs) l r = (
    l.0,
    l.1 ∙ ap (λ n. some (record t { next = n; prev = q })) (sym (first-append xs ys e)),
    Linked-join a xs l.2 r,
  )

  pub Forward-join :
      (xs : Nodes) → Forward cells xs (first ys e) → Forward cells ys e → Forward cells (xs ++ ys) e
  Forward-join [] l r = r
  Forward-join ((a, t) ∷ xs) l r = (
    l.0,
    (
      l.1.0,
      l.1.1 ∙ ap (λ n. some (record t { next = n; prev = l.1.0 })) (sym (first-append xs ys e)),
    ),
    Forward-join xs l.2 r,
  )

-- A list is empty or has a last node.
pub snoc_cases :
    (ns : Nodes) → (ns ≡ []) ⊎ ((xs : Nodes) × (x : ℕ) × (t : Task) × (ns ≡ xs ++ ((x, t) ∷ [])))
snoc_cases [] = inl refl
snoc_cases ((a, u) ∷ ns) = elim (snoc_cases ns) [
  | inl e ↦ inr ([], a, u, ap (λ r. (a, u) ∷ r) e)
  | inr (xs, x, t, e) ↦ inr ((a, u) ∷ xs, x, t, ap (λ r. (a, u) ∷ r) e)
]

pub Avoids-append : (x : ℕ) (xs ys : Nodes) → Avoids x (xs ++ ys) → Avoids x xs × Avoids x ys
Avoids-append x [] ys h = (tt, h)
Avoids-append x ((a, t) ∷ xs) ys h = let (l, r) = Avoids-append x xs ys h.1 in ((h.0, l), r)

pub Avoids-join : (x : ℕ) (xs ys : Nodes) → Avoids x xs → Avoids x ys → Avoids x (xs ++ ys)
Avoids-join x [] ys h k = k
Avoids-join x ((a, t) ∷ xs) ys h k = (h.0, Avoids-join x xs ys h.1 k)

pub Distinct-append :
    (xs : Nodes) (x : ℕ) (t : Task) (ys : Nodes) → Distinct (xs ++ ((x, t) ∷ ys)) → Avoids x xs
Distinct-append [] x t ys h = tt
Distinct-append ((a, u) ∷ xs) x t ys h =
    let (l, r) = Avoids-append a xs ((x, t) ∷ ys) h.0 in
    ((λ e. r.0 (sym e)), Distinct-append xs x t ys h.1)

pub Distinct-snoc :
    (ns : Nodes) (x : ℕ) (t : Task) → Distinct ns → Avoids x ns → Distinct (ns ++ ((x, t) ∷ []))
Distinct-snoc [] x t d h = (tt, tt)
Distinct-snoc ((a, u) ∷ ns) x t d h =
    (Avoids-join a ns ((x, t) ∷ []) d.0 ((λ e. h.0 (sym e)), tt), Distinct-snoc ns x t d.1 h.1)

pub Distinct-drop : (xs ys : Nodes) → Distinct (xs ++ ys) → Distinct ys
Distinct-drop [] ys d = d
Distinct-drop ((a, u) ∷ xs) ys d = Distinct-drop xs ys d.1

-- ===== src/Task/Steps.antt =====
-- The accesses to the store, at a task that stands there.
use peachos.Base.{ℕ, ◌≡◌, ◌≢◌, some, ne→==}
use peachos.Run.{done}
use peachos.Task.{Task, Tasks, update, load, store, set_next}

module _ (p : ℕ) (s : Tasks) (t : Task) (real : p ≢ 0) (stands : s.cells p ≡ some t) where
  pub load_lem : load p s ≡ done t
  unfolding load
  load_lem = rw (ne→== p 0 real, stands)

  pub store_lem : (u : Task) → store p u s ≡ done (record s { cells = update s.cells p (some u) })
  unfolding store
  store_lem u = rw load_lem

  pub set_next_lem :
      (q : ℕ)
      → set_next p q s ≡ done (record s { cells = update s.cells p (some (record t { next = q })) })
  unfolding set_next
  set_next_lem q = rw load_lem (store_lem (record t { next = q }))

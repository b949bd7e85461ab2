-- ===== src/Store/Locks.antt =====
-- Projection locks exclude each other.
use murrmure.Prelude.{
  String, ◌≡◌, refl, true, false, none, some, str_gt, ◌==◌, Bool-cases, inl, inr, eq_refl, eq_iff,
  ◌∙◌,
}
use murrmure.Dict.{string_key, lookup, insert, remove, lookup-insert_self, lookup-remove}
use murrmure.Store.State.{MemoryStoreState, ProjectionLock}
use murrmure.Store.Port.{held_by_other, acquire_projection_lock, release_projection_lock}

-- An owner that gets the lock has it.
acquired :
    (s : MemoryStoreState) (name owner now expires : String)
    → (acquire_projection_lock now expires name owner s).0 ≡ true
    → (acquire_projection_lock now expires name owner s).1 ≡ record s {
      projection_locks =
          insert name (record { owner = owner; expires_at = expires }) s.projection_locks;
    }
unfolding acquire_projection_lock
acquired s name owner now expires got =
    elim (Bool-cases (held_by_other now owner (lookup name s.projection_locks))) [
      | inl busy ↦ cc (got, busy)
      | inr free ↦ rw free refl
    ]

refused :
    (s : MemoryStoreState) (lock : ProjectionLock) (name other later expires : String)
    → lookup name s.projection_locks ≡ some lock
    → str_gt lock.expires_at later ≡ true
    → (lock.owner == other) ≡ false
    → acquire_projection_lock later expires name other s ≡ (false, s)
unfolding acquire_projection_lock
refused s lock name other later expires found valid differ = rw (found, valid, differ) refl

-- Once an owner has acquired a projection's lock, another owner that asks for it before the lease
-- has run out is refused, and the store stays as it is.
pub acquire_projection_lock-excludes :
    (s : MemoryStoreState) (name owner other now later expires expires' : String)
    → (acquire_projection_lock now expires name owner s).0 ≡ true
    → str_gt expires later ≡ true
    → (owner == other) ≡ false
    → let held = (acquire_projection_lock now expires name owner s).1 in
      acquire_projection_lock later expires' name other held ≡ (false, held)
acquire_projection_lock-excludes s name owner other now later expires expires' got valid differ =
    rw (acquired s name owner now expires got) (
      refused
        (record s {
          projection_locks =
              insert name (record { owner = owner; expires_at = expires }) s.projection_locks;
        })
        (record { owner = owner; expires_at = expires }) name other later expires'
        (lookup-insert_self name (record { owner = owner; expires_at = expires })
          s.projection_locks)
        valid differ)

free :
    (s : MemoryStoreState) (name other later expires : String)
    → lookup name s.projection_locks ≡ none
    → (acquire_projection_lock later expires name other s).0 ≡ true
unfolding acquire_projection_lock
free s name other later expires found = rw found refl

given_back :
    (s : MemoryStoreState) (name owner : String) (lock : ProjectionLock)
    → lookup name s.projection_locks ≡ some lock
    → (lock.owner == owner) ≡ true
    → release_projection_lock name owner s
      ≡ record s { projection_locks = remove name s.projection_locks }
unfolding release_projection_lock
given_back s name owner lock found mine = rw (found, release_projection_lock) (rw mine refl)

released :
    (s : MemoryStoreState) (name owner : String) (lock : ProjectionLock)
    → lock.owner ≡ owner
    → lookup name
        (release_projection_lock name owner
          (record s { projection_locks = insert name lock s.projection_locks })).projection_locks
      ≡ none
released s name owner lock mine =
    rw
      (given_back (record s { projection_locks = insert name lock s.projection_locks }) name owner
        lock (lookup-insert_self name lock s.projection_locks) ((eq_iff lock.owner owner).1 mine))
      (lookup-remove name name (insert name lock s.projection_locks) ∙ rw (eq_refl name) refl)

-- Once an owner has acquired a projection's lock and released it, anyone can acquire it.
pub release_projection_lock-frees :
    (s : MemoryStoreState) (name owner other now later expires expires' : String)
    → (acquire_projection_lock now expires name owner s).0 ≡ true
    → let held = (acquire_projection_lock now expires name owner s).1 in
      (acquire_projection_lock later expires' name other
        (release_projection_lock name owner held)).0
      ≡ true
release_projection_lock-frees s name owner other now later expires expires' got =
    rw (acquired s name owner now expires got) (
      free
        (release_projection_lock name owner (record s {
          projection_locks =
              insert name (record { owner = owner; expires_at = expires }) s.projection_locks;
        }))
        name other later expires'
        (released s name owner (record { owner = owner; expires_at = expires }) refl))

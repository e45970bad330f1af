-- ===== src/Machines/CreateSnapshot/Laws.antt =====
-- A snapshot is taken of everything or of nothing.
use zsys.Prelude.{
  false, Option, none, some, List, [], ◌∷◌, ◌≡◌, refl, ◌∙◌, ◌⊎◌, inl, inr, Option-cases, Bool-cases,
}
use zsys.Text.{Bytes, has_byte}
use zsys.Zfs.Dataset.{Dataset, name_of}
use zsys.Zfs.Cache.{Cache}
use zsys.Zfs.Transaction.{Transaction, Outcome, snapshot, cancel, run_reverts}
use zsys.Zfs.Transaction.Laws.{Documented, back, back-snapshot}
use zsys.Machines.Model.{Machine, is_zsys_machine}
use zsys.Machines.StateName.{validate_state_name}
use zsys.Machines.StateName.Laws.{AllValid-has_byte, validate_state_name_iff}
use zsys.Machines.CreateSnapshot.{
  SaveError, Surroundings, to_snapshot, check_pools, snapshot_all, finish_snapshot, save,
  save_named, chosen_name, create_snapshot,
}

valid-has_byte : (name : Bytes) → validate_state_name name ≡ none → has_byte b'@' name ≡ false
valid-has_byte name h = AllValid-has_byte name ((validate_state_name_iff name).0 h).1

module _ (env : Surroundings) where
  module _ (doc : Documented env.libzfs) where
    back-snapshot_all :
        (name : Bytes) (ds : List Dataset) (t : Transaction)
        → has_byte b'@' name ≡ false
        → back (snapshot_all env name ds t).transaction ≡ back t
    unfolding snapshot_all
    back-snapshot_all name [] t h = refl
    back-snapshot_all name (d ∷ ds) t h =
        let now = snapshot env.libzfs name (name_of d) false t in
        let first = back-snapshot env.libzfs doc name (name_of d) false t h in
        elim (Option-cases now.error) [
          | inl q ↦ rw (snapshot_all, q) (back-snapshot_all name ds now.transaction h ∙ first)
          | inr (e, q) ↦ rw (snapshot_all, q) first
        ]

    finish_snapshot-failed :
        (name : Bytes) (o : Outcome) (e : SaveError) (cache : Cache)
        → back o.transaction ≡ cache
        → (finish_snapshot env name o).1 ≡ inl e
        → (finish_snapshot env name o).0 ≡ cache
    unfolding finish_snapshot cancel
    finish_snapshot-failed name o e cache h k = elim (Option-cases o.error) [
      | inl q ↦ absurd (succeeded (rw q at k))
      | inr (f, q) ↦ rw q h
    ]
      where
        succeeded : inr name ≡ inl e → ⊥
        succeeded g = cc

    save-failed :
        (name : Bytes) (chosen : SaveError ⊎ List Dataset) (cache : Cache) (e : SaveError)
        → has_byte b'@' name ≡ false
        → (save env name chosen cache).1 ≡ inl e
        → (save env name chosen cache).0 ≡ cache
    unfolding save run_reverts
    save-failed name (inl f) cache e h k = refl
    save-failed name (inr ds) cache e h k = elim (Option-cases (check_pools env ds)) [
      | inl q ↦
          let start : Transaction = record { cache = cache; reverts = [] } in
          rw (save, q)
            (finish_snapshot-failed name (snapshot_all env name ds start) e cache
              (back-snapshot_all name ds start h) (rw (save, q) at k))
      | inr (f, q) ↦ rw (save, q) refl
    ]

    save_named-failed :
        (m : Machine) (name only_user : Bytes) (cache : Cache) (e : SaveError)
        → (save_named env m name only_user cache).1 ≡ inl e
        → (save_named env m name only_user cache).0 ≡ cache
    unfolding save_named
    save_named-failed m name only_user cache e h = elim (Option-cases (validate_state_name name)) [
      | inr (f, q) ↦ rw (save_named, q) refl
      | inl q ↦
          rw (save_named, q)
            (save-failed name (to_snapshot m name only_user) cache e (valid-has_byte name q)
              (rw (save_named, q) at h))
    ]

    -- Where libzfs behaves as documented, a snapshot of a system or of a user that fails, for
    -- whatever reason and after whatever number of datasets, leaves the datasets as they were.
    pub create_snapshot-failed :
        (current : Option Machine) (name only_user : Bytes) (cache : Cache) (e : SaveError)
        → (create_snapshot env current name only_user cache).1 ≡ inl e
        → (create_snapshot env current name only_user cache).0 ≡ cache
    unfolding create_snapshot
    create_snapshot-failed none name only_user cache e h = refl
    create_snapshot-failed (some m) name only_user cache e h =
        elim (Bool-cases (is_zsys_machine (some m))) [
          | inr n ↦ rw (create_snapshot, n) refl
          | inl y ↦
              rw (create_snapshot, y)
                (save_named-failed m (chosen_name env.generated_id name) only_user cache e
                  (rw (create_snapshot, y) at h))
        ]

-- ===== src/Zfs/Transaction/Restore.antt =====
-- A transaction of several snapshots, cancelled.
use zsys.Prelude.{Bool, false, List, [], ◌∷◌, ◌≡◌, refl, ap, ◌∙◌}
use zsys.Text.{Bytes, has_byte}
use zsys.Zfs.Cache.{Cache}
use zsys.Zfs.Transaction.{Libzfs, Transaction, run_reverts, cancel, snapshot}
use zsys.Zfs.Transaction.Laws.{Documented, back, back-snapshot}

-- A call of `Snapshot`.
pub record Request : Type 0 where
  pub snap : Bytes
  pub name : Bytes
  pub recursive : Bool

-- No name of a snapshot has an @.
abbrev pub Plain : List Request → Type 0
Plain [] = Unit
Plain (r ∷ rs) = (has_byte b'@' r.snap ≡ false) × Plain rs

-- The calls one after the other, whether they fail or not.
unfoldable pub snapshots : Libzfs → List Request → Transaction → Transaction
snapshots z [] t = t
snapshots z (r ∷ rs) t = snapshots z rs (snapshot z r.snap r.name r.recursive t).transaction

back-snapshots :
    (z : Libzfs) (doc : Documented z) (rs : List Request) (t : Transaction)
    → Plain rs
    → back (snapshots z rs t) ≡ back t
unfolding snapshots
back-snapshots z doc [] t h = refl
back-snapshots z doc (r ∷ rs) t h =
    back-snapshots z doc rs (snapshot z r.snap r.name r.recursive t).transaction h.1
    ∙ back-snapshot z doc r.snap r.name r.recursive t h.0

-- When libzfs behaves as documented, cancelling a new transaction after any calls of `Snapshot`,
-- of which some may have failed, with names that have no @, gives back the cache it started with
-- and leaves no reverts.
pub cancel-snapshots :
    (z : Libzfs) (doc : Documented z) (rs : List Request) (cache : Cache)
    → Plain rs
    → cancel (snapshots z rs (record { cache = cache; reverts = [] }))
      ≡ record { cache = cache; reverts = [] }
unfolding cancel run_reverts
cancel-snapshots z doc rs cache h =
    ap (λ c. record { cache = c; reverts = [] })
      (back-snapshots z doc rs (record { cache = cache; reverts = [] }) h)

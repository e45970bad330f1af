-- ===== src/Zfs/Dependencies.antt =====
-- `Dependencies` of internal/zfs/zfs.go. The map of all datasets is visited in the order of a list, and
-- the recursion runs on fuel: `none` is a recursion that has not ended. Datasets are told apart by
-- their names, which are those of the map.
pub mod Laws
pub mod Total
mod Tests
use zsys.Prelude.{
  ℕ, zero, suc, Bool, true, false, not, ◌&&◌, ◌||◌, Option, none, some, List, [], ◌∷◌, ◌++◌, ◌>>=◌,
  if◌then◌else◌,
}
use zsys.Text.{Bytes, text_eq, has_prefix, has_byte, trim_prefix}
use zsys.Zfs.Names.{split_snapshot_name}
use zsys.Zfs.Dataset.{Dataset, name_of, is_snapshot_of, prop_of}

-- A snapshot of the dataset, or a direct child of it.
unfoldable pub is_below : Bytes → Bytes → Bool
is_below name k =
    has_prefix k (name ++ b'@' ∷ [])
    || (has_prefix k (name ++ b'/' ∷ []) && not (has_byte b'/' (trim_prefix k (name ++ b'/' ∷ []))))

-- A clone of the snapshot, or the snapshot of the same name of a dataset below.
unfoldable pub depends_on_snapshot : Bytes → Dataset → Bool
unfolding split_snapshot_name
depends_on_snapshot name e =
    let (base, snap) = split_snapshot_name name in
    let (base_dataset, snap_dataset) = split_snapshot_name (name_of e) in
    text_eq (prop_of e).origin name
    || (is_snapshot_of e
        && (text_eq snap_dataset snap && has_prefix base_dataset (base ++ b'/' ∷ [])))

unfoldable pub is_dependency : Dataset → Dataset → Bool
unfolding is_below depends_on_snapshot
is_dependency d e =
    if is_snapshot_of d then depends_on_snapshot (name_of d) e else is_below (name_of d) (name_of e)

unfoldable pub name_among : Bytes → List Dataset → Bool
name_among name [] = false
name_among name (x ∷ xs) = text_eq (name_of x) name || name_among name xs

-- The loop over all datasets.
unfoldable pub gather :
    (Dataset → Option (List Dataset)) → Dataset → List Dataset → Option (List Dataset)
unfolding is_dependency
gather below d [] = some []
gather below d (e ∷ es) = elim (is_dependency d e) [
  | true ↦ below e >>= λ deps. gather below d es >>= λ rest. some (deps ++ e ∷ rest)
  | false ↦ gather below d es
]

-- Each dataset where it is first met; `kept` are those met so far.
unfoldable pub deduplicate : List Dataset → List Dataset → List Dataset
unfolding name_among
deduplicate kept [] = []
deduplicate kept (e ∷ es) = elim (name_among (name_of e) kept) [
  | true ↦ deduplicate kept es
  | false ↦ e ∷ deduplicate (kept ++ e ∷ []) es
]

unfoldable pub dependencies : ℕ → List Dataset → Dataset → Option (List Dataset)
unfolding gather deduplicate
dependencies zero all d = none
dependencies (suc fuel) all d =
    gather (dependencies fuel all) d all >>= λ deps. some (deduplicate [] deps)

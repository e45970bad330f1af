-- ===== src/Lib.antt =====
-- ZSys: the daemon that keeps several ZFS systems on one machine, with their history of states.
--
-- Parts of the program and the files that model them:
--
-- - Text.antt: texts as lists of bytes, with the functions of Go's `strings` and `path/filepath`
--   that the program calls. Text/Numbers: `strconv.ParseUint`, `strconv.Atoi` and the cut to 32 bits,
--   as the authorizer uses them. Text/Laws, Text/Fields, Text/Split and Text/Base hold their laws.
-- - Zfs/: the library of internal/zfs. Names: `splitSnapshotName`. Dataset: the record `Dataset`
--   with its properties and its tree of children. Hierarchy: the functions of helpers.go and zfs.go
--   that walk the tree (`checkSnapshotHierarchyIntegrity`, `HasSnapshotInHierarchy`, `Datasets`,
--   `removeChild`, `IsUserDataset`). Cache: `findDatasetByName` and changes at one dataset.
--   Transaction: the reverts of `Transaction` and `nestedTransaction`, `Snapshot`, `destroyOne`.
--   Refresh: `refreshProperties`, and the user properties that a snapshot is given. Property:
--   `setProperty` with the datasets that inherit, and `SetProperty`. Destroy: `Destroy` with
--   `checkNoClone`. Create: `Create`. Clone: `Clone` with `cloneRecursive`, and the new name
--   (Clone/Name). Dependencies: `Dependencies`, the datasets that stand on a dataset.
--   InverseOrigin: `inverseOrigin`, which moves the snapshots of a promotion.
-- - Machines/: internal/machines. Model: `State` and `Machine` of machines.go. Cmdline: the boot
--   parameters of cmdline.go. StateName: `validateStateName` of snapshot.go. Tags: the new tag of
--   `remove` in state.go, and `diffDatasets` of boot.go. Unique: `appendDatasetIfNotPresent` and
--   `appendStateIfNotPresent` of helpers.go. Origin: `resolveOrigin` of helpers.go. Maps: Go's maps
--   from names. Populate: `populate` of machines.go, which sorts the datasets into machines.
--   UserStates: `addUserState` and `attachRemainingDatasets`. UserTags: the tags that boot.go sets on
--   user datasets, and `nameInBootfsDatasets`, which reads them. Remove: `remove` of state.go.
--   CreateSnapshot: `createSnapshot` of snapshot.go. Find: `IDToState` of state.go, `GetMachine`
--   and `findFromRoot`. Boot: `EnsureBoot`, `UpdateLastUsed` and `createClones` (Boot/Clones) of
--   boot.go. UserData: `CreateUserData`, `ChangeHomeOnUserData` and `DissociateUser` of userdata.go.
-- - Authorizer: internal/authorizer, `IsAllowedFromContext` and `isAllowed`. StartTime: the time when
--   a process was started.
-- - Gc/: internal/machines/gc.go. Combinations: `combinations`, `binomial`, `nextCombination`.
--   Selection: `selectStatesToRemove`, the choice of the states to remove from a bucket. Buckets:
--   `computeBuckets`. Slice: `removeFromSlice` and the maps of names. Walk: the loop over the
--   buckets, for any rules that keep a state. Pass: one round of the system part of `GC`, over the
--   history of each machine. UserPass: one round of its user part.
--   Loop: the loop of the passes of the system part, with the removals. Unmanaged: the loop over the
--   datasets that belong to no machine.
--
-- The machines are read from the tree of datasets: the properties of the datasets are refreshed,
-- origins are resolved, and the datasets are sorted into machines, histories and users. A boot sets
-- properties in a transaction, among them the tags by which the next scan finds the datasets of users.
-- The garbage collection reads the histories of the machines and the tree of datasets, and chooses
-- states; their removal takes tags off and destroys datasets. The check of the hierarchy guards the
-- cloning of a snapshot.
--
-- An `int` is a native number where the program keeps it from being negative, and ℤ where the sign
-- is a value of its own (`samples`, `keep_last`). The product in `binomial` wraps at 2 ^ 64, and a
-- panic is `none`, as is that of `make` in `combinations` for more than 2 ^ 48 bytes, the bound of
-- Go on a 64-bit machine. The loop over the buckets of a rule runs on fuel: the number of buckets
-- of the rule and one more is enough. So does the search for an origin in `resolveOrigin`: more
-- fuel than the number of clones that stand on each other is enough. `Dependencies` runs on fuel
-- too, of which a chain of datasets that depend on each other uses one for each. The loop of the
-- passes runs on fuel, one for a pass. The last use of a state is in seconds, the times of the
-- buckets are in nanoseconds, and durations are `int64` and wrap.
--
-- What libzfs answers is a record of functions, `Libzfs`, of which `Documented` says what the code
-- relies on. The map of all datasets is that of the trees; where `Create` or `Clone` leaves an
-- entry outside them, the error carries it. Setting properties, creating, cloning and destroying
-- datasets take their own records. The answer of polkit, the files of /proc, the accounts of the
-- host and the random part of a name are parameters. What opens and reloads a dataset is one in
-- InverseOrigin. The sort of the states is one, and so are, for the loops of the garbage
-- collection, the refresh of the machines and, in Gc/Loop, the removal of a state.
--
-- Not modelled: the calls of libzfs themselves, `Promote` beyond the inversion of origins, `Commit`
-- with the new boot entries, the search for what a removal takes along (`getDependencies`), the
-- rest of the refresh of the machines, the loop of the passes over user states, the daemon's gRPC
-- services, the client and the log.
pub mod Authorizer
pub mod Gc
pub mod Machines
pub mod Prelude
pub mod Text
pub mod Zfs

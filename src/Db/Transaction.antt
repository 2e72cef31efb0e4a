-- ===== src/Db/Transaction.antt =====
-- db/transaction.rs, `BatchTransaction`: staged mutations over a retained root.
-- Each function takes the transaction first and the database after it. A `BTreeMap` is a list of its
-- entries in order.
pub mod Overlay
pub mod Reads
pub mod States
pub mod Conflict
use seerdb.Base.{
  ℕ, ◌+◌, ◌≡◌, refl, Bool, true, false, not, ◌&&◌, Option, none, some, List, [], ◌∷◌, ◌++◌, ◌==◌,
  if◌then◌else◌, list_eq, list_eq→eq, list_eq_refl, checked_add, Key, Pair, without, Result, ok,
  err, stuck, ◌>>=◌, ◌>>◌, ok_or, Error, needs_recovery, invalid_argument, wal, commit_cleanup,
}
use seerdb.Btree.Order.{Ordering, less, equal, greater, compare_keys, is_less}
use seerdb.Db.WalPayload.{validate_wal_key_length, validate_wal_put_lengths}
use seerdb.Db.Batch.{BatchMutation, put, delete, DurabilityStatus, Engine, commit_batch_at}

instance abbrev pub bytes_key : Key (List ℕ)
bytes_key = record { same = list_eq; same→eq = list_eq→eq; same_refl = list_eq_refl }

pub data BatchTransactionState : Type 0 where
  active committed aborted : BatchTransactionState
  recovery_required : (commit : ℕ) → BatchTransactionState

-- `RetentionLease`, which is taken from the transaction once it is released.
pub record RetentionLease : Type 0 where
  pub snapshot_id : ℕ
  pub released : Bool

pub record BatchTransaction : Type 0 where
  pub base_commit : ℕ
  pub snapshot_id : ℕ
  pub lease : Option RetentionLease
  pub mutations : List BatchMutation
  pub state : BatchTransactionState

unfoldable pub check_active : BatchTransaction → Result Error (Unit {0})
check_active t = elim (t.state) [
  | active ↦ ok tt
  | recovery_required commit ↦ err (needs_recovery "transaction commit requires database reopen")
  | committed ↦ err (invalid_argument "transaction is no longer active")
  | aborted ↦ err (invalid_argument "transaction is no longer active")
]

abbrev stage : BatchTransaction → BatchMutation → BatchTransaction
stage t m = record t { mutations = t.mutations ++ (m ∷ []) }

-- A refused call leaves the transaction as it was.
abbrev staged :
    BatchTransaction
    → Result Error (Unit {0})
    → BatchMutation
    → BatchTransaction × Result Error (Unit {0})
staged t (ok u) m = (stage t m, ok tt)
staged t (err e) m = (t, err e)
staged t stuck m = (t, stuck)

unfoldable pub stage_put :
    BatchTransaction → List ℕ → List ℕ → BatchTransaction × Result Error (Unit {0})
stage_put t key value =
    staged t (check_active t >> validate_wal_put_lengths key value) (put key value)

unfoldable pub stage_delete : BatchTransaction → List ℕ → BatchTransaction × Result Error (Unit {0})
stage_delete t key = staged t (check_active t >> validate_wal_key_length key) (delete key)

abbrev pub reversed : List BatchMutation → List BatchMutation
reversed [] = []
reversed (m ∷ ms) = reversed ms ++ (m ∷ [])

-- `for mutation in self.mutations.iter().rev()`: the answer of the first that matches.
unfoldable pub scan : List BatchMutation → List ℕ → Option (Option (List ℕ))
scan [] key = none
scan (put mutation_key value ∷ ms) key =
    let rest = scan ms key in if list_eq mutation_key key then some (some value) else rest
scan (delete mutation_key ∷ ms) key =
    let rest = scan ms key in if list_eq mutation_key key then some none else rest

-- `key >= start && key < end`
abbrev pub in_range : List ℕ → List ℕ → List ℕ → Bool
in_range start end key = not (is_less (compare_keys key start)) && is_less (compare_keys key end)

-- `BTreeMap::insert`
unfoldable pub tree_insert :
    List ℕ → List ℕ → List (Pair (List ℕ) (List ℕ)) → List (Pair (List ℕ) (List ℕ))
tree_insert key value [] = record { at = key; held = value } ∷ []
tree_insert key value (p ∷ ps) =
    let rest = tree_insert key value ps in
    elim (compare_keys key p.at) [
      | less ↦ record { at = key; held = value } ∷ p ∷ ps
      | equal ↦ record { at = key; held = value } ∷ ps
      | greater ↦ p ∷ rest
    ]

-- `collect::<BTreeMap<_, _>>()`, onto what was collected.
unfoldable pub collect :
    List (Pair (List ℕ) (List ℕ)) → List (Pair (List ℕ) (List ℕ)) → List (Pair (List ℕ) (List ℕ))
collect [] values = values
collect (p ∷ ps) values = collect ps (tree_insert p.at p.held values)

-- `for mutation in &self.mutations`
unfoldable pub overlay :
    List ℕ
    → List ℕ
    → List BatchMutation
    → List (Pair (List ℕ) (List ℕ))
    → List (Pair (List ℕ) (List ℕ))
overlay start end [] values = values
overlay start end (put key value ∷ ms) values =
    overlay start end ms (if in_range start end key then tree_insert key value values else values)
overlay start end (delete key ∷ ms) values =
    overlay start end ms (if in_range start end key then without key values else values)

-- A call that takes the database too: what it leaves, and what it returns.
pub record Done (D : Type 0) (A : Type 0) : Type 0 where
  pub transaction : BatchTransaction
  pub database : D
  pub result : Result Error A

-- `release` of the lease that a transaction may hold: what is left of it.
unfoldable pub settle : RetentionLease → Result Error (Unit {0}) → Option RetentionLease
settle lease (ok u) = none
settle lease (err e) = some lease
settle lease stuck = some lease

abbrev lease_after : Option RetentionLease → Result Error (Unit {0}) → Option RetentionLease
lease_after none r = none
lease_after (some lease) r = settle lease r

-- A transaction that fails to release its root stays active.
unfoldable pub abort_released :
    {D : Type 0} → BatchTransaction → Done D (Unit {0}) → Done D (Unit {0})
abort_released t done = elim (done.result) [
  | ok u ↦ record done { transaction = record (done.transaction) { state = aborted } }
  | err e ↦ done
  | stuck ↦ done
]

unfoldable pub attempted_commit : BatchTransaction → Result Error ℕ
attempted_commit t = elim (t.mutations) [
  | [] ↦ ok t.base_commit
  | m ∷ ms ↦ ok_or (checked_add t.base_commit 1) (wal "transaction commit ID overflow")
]

-- The commit is durable; a lease that is not released is reported, and kept.
unfoldable pub after_publish :
    {D : Type 0} → DurabilityStatus → Done D (Unit {0}) → Done D DurabilityStatus
after_publish status done = record {
  transaction = record (done.transaction) { state = committed };
  database = done.database;
  result = elim (done.result) [
    | ok u ↦ ok status
    | err e ↦ err (commit_cleanup status.commit_id e)
    | stuck ↦ stuck
  ];
}

module _ {D : Type 0} (db : Engine D) where
  unfoldable pub get : BatchTransaction → D → List ℕ → Result Error (Option (List ℕ))
  get t d key = check_active t >> elim (scan (reversed t.mutations) key) [
    | some answer ↦ ok answer
    | none ↦ db.get_at d t.snapshot_id key
  ]

  unfoldable pub range :
      BatchTransaction → D → List ℕ → List ℕ → Result Error (List (Pair (List ℕ) (List ℕ)))
  range t d start end =
      check_active t
      >> (db.range_at d t.snapshot_id start end >>= λ rows.
          ok (overlay start end t.mutations (collect rows [])))

  unfoldable pub release_lease : Option RetentionLease → D → D × Result Error (Unit {0})
  release_lease none d = (d, ok tt)
  release_lease (some lease) d =
      if lease.released then (d, ok tt) else db.release_root d lease.snapshot_id

  unfoldable pub release : BatchTransaction → D → Done D (Unit {0})
  release t d =
      let r = release_lease t.lease d in
      record {
        transaction = record t { lease = lease_after t.lease r.1 };
        database = r.0;
        result = r.1;
      }

  unfoldable pub abort : BatchTransaction → D → Done D (Unit {0})
  abort t d = elim (check_active t) [
    | ok u ↦ abort_released t (release t d)
    | err e ↦ record { transaction = t; database = d; result = err e }
    | stuck ↦ record { transaction = t; database = d; result = stuck }
  ]

  -- The arms of the match on `commit_batch_at`.
  unfoldable pub published :
      BatchTransaction → ℕ → D × Result Error DurabilityStatus → Done D DurabilityStatus
  published t attempted (d, ok status) = after_publish status (release t d)
  published t attempted (d, stuck) = record { transaction = t; database = d; result = stuck }
  published t attempted (d, err e) =
      if (db.durability_status d).write_fenced
      then record {
        transaction = record t { state = recovery_required attempted };
        database = d;
        result = err (needs_recovery "transaction commit may be durable after publication failure");
      }
      else record { transaction = t; database = d; result = err e }

  unfoldable pub commit : BatchTransaction → D → Done D DurabilityStatus
  commit t d = elim (check_active t >> attempted_commit t) [
    | err e ↦ record { transaction = t; database = d; result = err e }
    | stuck ↦ record { transaction = t; database = d; result = stuck }
    | ok attempted ↦ published t attempted (commit_batch_at db d t.base_commit t.mutations)
  ]

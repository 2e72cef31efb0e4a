-- ===== src/Db/Transaction/States.antt =====
-- db/transaction.rs: the states of a transaction, and which transactions commit.
use seerdb.Base.{
  ℕ, ◌≡◌, refl, ◌∙◌, Bool, true, false, List, err, Error, invalid_argument, needs_recovery, arith,
  inl, inr, ◌⊎◌,
}
use seerdb.Db.Batch.{Engine}
use seerdb.Db.Transaction.{
  BatchTransactionState, BatchTransaction, active, committed, aborted, recovery_required,
  check_active, stage_put, stage_delete, release, abort, commit,
}

abbrev pub is_active : BatchTransactionState → Bool
is_active active = true
is_active committed = false
is_active aborted = false
is_active (recovery_required commit) = false

-- One call on a transaction, with any database.
pub data Step {D : Type 0} (db : Engine D) : BatchTransaction → BatchTransaction → Type 0 where
  put_staged : (t : BatchTransaction) (key value : List ℕ) → Step db t (stage_put t key value).0
  delete_staged : (t : BatchTransaction) (key : List ℕ) → Step db t (stage_delete t key).0
  commit_called : (t : BatchTransaction) (d : D) → Step db t ((commit db t d).transaction)
  abort_called : (t : BatchTransaction) (d : D) → Step db t ((abort db t d).transaction)
  release_called : (t : BatchTransaction) (d : D) → Step db t ((release db t d).transaction)

pub data Steps {D : Type 0} (db : Engine D) : BatchTransaction → BatchTransaction → Type 0 where
  done : (t : BatchTransaction) → Steps db t t
  next : (t u v : BatchTransaction) → Step db t u → Steps db u v → Steps db t v

-- What never changes once a transaction is closed.
pub record IsSettled (t u : BatchTransaction) : Type 0 where
  pub state : u.state ≡ t.state
  pub mutations : u.mutations ≡ t.mutations
  pub base_commit : u.base_commit ≡ t.base_commit

IsSettled-refl : (t : BatchTransaction) → IsSettled t t
IsSettled-refl t = record { state = refl; mutations = refl; base_commit = refl }

closed-cases :
    (s : BatchTransactionState)
    → is_active s ≡ false
    → (s ≡ committed) ⊎ (s ≡ aborted) ⊎ ((c : ℕ) × (s ≡ recovery_required c))
closed-cases active h = absurd (ground arith)
closed-cases committed h = inl refl
closed-cases aborted h = inr (inl refl)
closed-cases (recovery_required c) h = inr (inr (c, refl))

check_active-closed :
    (t : BatchTransaction) → is_active t.state ≡ false → (e : Error) × (check_active t ≡ err e)
unfolding check_active
check_active-closed t h = elim (closed-cases t.state h) [
  | inl e ↦ rw e (invalid_argument "transaction is no longer active", refl)
  | inr (inl e) ↦ rw e (invalid_argument "transaction is no longer active", refl)
  | inr (inr (c, e)) ↦ rw e (needs_recovery "transaction commit requires database reopen", refl)
]

module _ {D : Type 0} (db : Engine D) where
  put-IsSettled :
      (t : BatchTransaction) (key value : List ℕ)
      → is_active t.state ≡ false
      → IsSettled t (stage_put t key value).0
  unfolding stage_put
  put-IsSettled t key value h =
      let (e, closed) = check_active-closed t h in rw closed (IsSettled-refl t)

  delete-IsSettled :
      (t : BatchTransaction) (key : List ℕ)
      → is_active t.state ≡ false
      → IsSettled t (stage_delete t key).0
  unfolding stage_delete
  delete-IsSettled t key h =
      let (e, closed) = check_active-closed t h in rw closed (IsSettled-refl t)

  commit-IsSettled :
      (t : BatchTransaction) (d : D)
      → is_active t.state ≡ false
      → IsSettled t ((commit db t d).transaction)
  unfolding commit
  commit-IsSettled t d h =
      let (e, closed) = check_active-closed t h in rw (closed, commit) (IsSettled-refl t)

  abort-IsSettled :
      (t : BatchTransaction) (d : D)
      → is_active t.state ≡ false
      → IsSettled t ((abort db t d).transaction)
  unfolding abort
  abort-IsSettled t d h =
      let (e, closed) = check_active-closed t h in rw (closed, abort) (IsSettled-refl t)

  release-IsSettled : (t : BatchTransaction) (d : D) → IsSettled t ((release db t d).transaction)
  unfolding release
  release-IsSettled t d = record { state = refl; mutations = refl; base_commit = refl }

  Step-IsSettled :
      (t u : BatchTransaction) → is_active t.state ≡ false → Step db t u → IsSettled t u
  Step-IsSettled t _ h (put_staged _ key value) = put-IsSettled t key value h
  Step-IsSettled t _ h (delete_staged _ key) = delete-IsSettled t key h
  Step-IsSettled t _ h (commit_called _ d) = commit-IsSettled t d h
  Step-IsSettled t _ h (abort_called _ d) = abort-IsSettled t d h
  Step-IsSettled t _ h (release_called _ d) = release-IsSettled t d

-- Once a transaction is committed, aborted or in need of recovery, no sequence of puts, deletes, commits,
-- aborts and releases, on whatever databases, changes its state, its mutations or its base commit.
pub Steps-IsSettled :
    {D : Type 0} (db : Engine D) (t u : BatchTransaction)
    → is_active t.state ≡ false
    → Steps db t u
    → IsSettled t u
Steps-IsSettled db t _ h (done _) = IsSettled-refl t
Steps-IsSettled db t v h (next _ u _ s more) =
    let a = Step-IsSettled db t u h s in
    let b = Steps-IsSettled db u v (rw a.state h) more in
    record {
      state = b.state ∙ a.state;
      mutations = b.mutations ∙ a.mutations;
      base_commit = b.base_commit ∙ a.base_commit;
    }

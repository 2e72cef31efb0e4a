-- ===== src/Db/Transaction/Reads.antt =====
-- db/transaction.rs: a transaction reads its own mutations over its root.
use seerdb.Base.{
  ℕ, ◌≡◌, refl, sym, ap, ◌∙◌, true, Option, List, [], Pair, lookup, ok, Option-cases, inl, inr,
}
use seerdb.Db.Batch.{Engine}
use seerdb.Db.Transaction.{
  bytes_key, BatchTransaction, active, reversed, scan, in_range, collect, overlay, check_active,
  get, range,
}
use seerdb.Db.Transaction.Overlay.{
  view_after, scan-reversed, DistinctRows, lookup-collected, lookup-overlay,
}

pub check_active-active : (t : BatchTransaction) → t.state ≡ active → check_active t ≡ ok tt
unfolding check_active
check_active-active t e = rw e refl

-- In an active transaction, when the database answers for a key at the transaction's root, `get` returns that
-- answer changed by the staged mutations of the key, one after the other in commit order.
pub get-view_after :
    {D : Type 0} (db : Engine D) (t : BatchTransaction) (d : D) (key : List ℕ)
    (base : Option (List ℕ))
    → t.state ≡ active
    → db.get_at d t.snapshot_id key ≡ ok base
    → get db t d key ≡ ok (view_after t.mutations key base)
unfolding get
get-view_after db t d key base e read =
    let last = scan-reversed t.mutations key base in
    elim (Option-cases (scan (reversed t.mutations) key)) [
      | inl nothing ↦ rw (check_active-active t e, nothing, read) (ap ok (rw nothing at last))
      | inr (a, found) ↦ rw (check_active-active t e, found) (ap ok (rw found at last))
    ]

-- In an active transaction, when the database's scan of a range at the root returns rows with distinct keys
-- and its read of a key in the range agrees with them, `range` returns rows in which the key has what `get`
-- returns for it: both see the staged mutations.
pub range-get :
    {D : Type 0} (db : Engine D) (t : BatchTransaction) (d : D) (start end key : List ℕ)
    (rows : List (Pair (List ℕ) (List ℕ)))
    → t.state ≡ active
    → db.range_at d t.snapshot_id start end ≡ ok rows
    → DistinctRows rows
    → db.get_at d t.snapshot_id key ≡ ok (lookup key rows)
    → in_range start end key ≡ true
    → (seen : List (Pair (List ℕ) (List ℕ))) × (range db t d start end ≡ ok seen)
      × (get db t d key ≡ ok (lookup key seen))
unfolding range
range-get db t d start end key rows e scanned distinct read inside =
    let values = collect rows [] in
    (
      overlay start end t.mutations values,
      rw (check_active-active t e, scanned) refl,
      get-view_after db t d key (lookup key rows) e read
          ∙ ap ok (
              ap (view_after t.mutations key) (sym (lookup-collected rows key distinct))
              ∙ sym (lookup-overlay start end t.mutations values key inside)),
    )

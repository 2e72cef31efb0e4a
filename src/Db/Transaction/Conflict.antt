-- ===== src/Db/Transaction/Conflict.antt =====
-- db/transaction.rs and db/batch.rs: what a commit that succeeds was based on.
use seerdb.Base.{
  ℕ, ◌≡◌, refl, Option, List, ◌==◌, Result, ok, err, stuck, ◌>>◌, Error, arith, Bool-cases, inl,
  inr, ◌⊎◌,
}
use seerdb.Db.Batch.{BatchMutation, DurabilityStatus, Engine, admit, commit_batch_at}
use seerdb.Db.Transaction.{
  BatchTransaction, active, committed, attempted_commit, after_publish, published, commit,
}
use seerdb.Db.Transaction.Reads.{check_active-active}

Result-cases :
    {E : Type 0} {A : Type 0} (r : Result E A)
    → ((a : A) × (r ≡ ok a)) ⊎ ((e : E) × (r ≡ err e)) ⊎ (r ≡ stuck)
Result-cases (ok a) = inl (a, refl)
Result-cases (err e) = inr (inl (e, refl))
Result-cases stuck = inr (inr refl)

>>-eq-ok :
    {E : Type 0} {B : Type 0} (check : Result E (Unit {0})) (rest : Result E B) {b : B}
    → (check >> rest) ≡ ok b
    → rest ≡ ok b
>>-eq-ok (ok u) rest e = e
>>-eq-ok (err x) rest e = absurd (ground arith)
>>-eq-ok stuck rest e = absurd (ground arith)

module _ {D : Type 0} (db : Engine D) where
  admit-base :
      (d : D) (base : ℕ) (ms : List BatchMutation) {a : Option DurabilityStatus}
      → admit db d base ms ≡ ok a
      → db.commit_id d ≡ base
  unfolding admit
  admit-base d base ms e =
      let e₁ = >>-eq-ok (db.check_writable d) _ e in
      let e₂ = >>-eq-ok (db.check_maintenance_idle d) _ e₁ in
      elim (Bool-cases (db.commit_id d == base)) [
        | inl same ↦ ground arith
        | inr stale ↦ absurd (ground (arith, rw stale at e₂))
      ]

  -- A batch that is accepted was meant for the published commit.
  commit_batch_at-ok :
      (d : D) (base : ℕ) (ms : List BatchMutation) {s : DurabilityStatus}
      → (commit_batch_at db d base ms).1 ≡ ok s
      → db.commit_id d ≡ base
  unfolding commit_batch_at
  commit_batch_at-ok d base ms e = elim (Result-cases (admit db d base ms)) [
    | inl (a, admitted) ↦ admit-base d base ms admitted
    | inr (inl (x, refused)) ↦ absurd (ground (arith, rw (refused, commit_batch_at) at e))
    | inr (inr lost) ↦ absurd (ground (arith, rw (lost, commit_batch_at) at e))
  ]

  published-committed :
      (t : BatchTransaction) (attempted : ℕ) (p : D × Result Error DurabilityStatus)
      → t.state ≡ active
      → (published db t attempted p).transaction.state ≡ committed
      → (s : DurabilityStatus) × (p.1 ≡ ok s)
  unfolding published after_publish
  published-committed t attempted (d, ok s) h e = (s, refl)
  published-committed t attempted (d, stuck) h e = absurd (ground (arith, h, e))
  published-committed t attempted (d, err x) h e =
      elim (Bool-cases ((db.durability_status d).write_fenced)) [
        | inl fenced ↦ absurd (ground (arith, rw fenced at e))
        | inr live ↦ absurd (ground (arith, h, rw live at e))
      ]

  -- What a commit that ends in `Committed` has done.
  commit-committed :
      (t : BatchTransaction) (d : D)
      → t.state ≡ active
      → (commit db t d).transaction.state ≡ committed
      → (s : DurabilityStatus) × ((commit_batch_at db d t.base_commit t.mutations).1 ≡ ok s)
  unfolding commit
  commit-committed t d h e = elim (Result-cases (attempted_commit t)) [
    | inl (attempted, a) ↦
        let e' : (published db t attempted
              (commit_batch_at db d t.base_commit t.mutations)).transaction.state
            ≡ committed =
          rw (check_active-active t h, a, commit) at e in
        published-committed t attempted (commit_batch_at db d t.base_commit t.mutations) h e'
    | inr (inl (x, a)) ↦ absurd (ground (arith, h, rw (check_active-active t h, a, commit) at e))
    | inr (inr a) ↦ absurd (ground (arith, h, rw (check_active-active t h, a, commit) at e))
  ]

-- An active transaction that ends as committed had the published commit of the database as its base, and the
-- database accepted exactly its mutations on that base.
pub commit_on_base :
    {D : Type 0} (db : Engine D) (t : BatchTransaction) (d : D)
    → t.state ≡ active
    → (commit db t d).transaction.state ≡ committed
    → (db.commit_id d ≡ t.base_commit)
      × ((s : DurabilityStatus) × ((commit_batch_at db d t.base_commit t.mutations).1 ≡ ok s))
commit_on_base db t d h e =
    let (s, accepted) = commit-committed db t d h e in
    (commit_batch_at-ok db d t.base_commit t.mutations accepted, (s, accepted))

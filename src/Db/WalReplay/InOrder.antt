-- ===== src/Db/WalReplay/InOrder.antt =====
-- db/wal_recovery.rs, `recover_from_wal`: what it means to apply mutation records in order.
use mathlib.Core.Bool.{or_assoc}
use seerdb.Base.{
  ◌≡◌, refl, sym, ap, ◌∙◌, Bool, false, ◌||◌, arith, List, [], ◌∷◌, ◌++◌, Result, Error, ok, ◌>>=◌,
  >>=-assoc, >>=-cong, >>=-ok,
}
use seerdb.Recovery.Record.{WalRecord}
use seerdb.Db.WalReplay.{Applier, Mutation, decode_mutation, apply_pending}

module _ {S : Type 0} (applier : Applier S) where
  -- Each record is decoded and applied to what the records before it left. The flag says whether
  -- one of the applications changed the blob image.
  unfoldable pub apply_in_order : List WalRecord → S → Result Error (S × Bool)
  apply_in_order [] store = ok (store, false)
  apply_in_order (r ∷ rs) store = do
    m ← decode_mutation r
    applied ← applier.apply m store
    rest ← apply_in_order rs (applied.0)
    ok (rest.0, applied.1 || rest.1)

  pub apply_pending-append :
      (xs ys : List WalRecord) (store : S) (changed : Bool)
      → apply_pending applier (xs ++ ys) store changed
        ≡ (apply_pending applier xs store changed >>= λ a. apply_pending applier ys (a.0) (a.1))
  unfolding apply_pending
  apply_pending-append [] ys store changed = refl
  apply_pending-append (r ∷ rs) ys store changed =
      let go : Mutation → Result Error (S × Bool) =
        λ m. applier.apply m store >>= λ a. apply_pending applier rs (a.0) (changed || a.1) in
      >>=-cong (decode_mutation r)
        (λ m.
          applier.apply m store >>= λ a. apply_pending applier (rs ++ ys) (a.0) (changed || a.1))
        (λ m. go m >>= λ b. apply_pending applier ys (b.0) (b.1))
        (λ m.
          >>=-cong (applier.apply m store)
            (λ a. apply_pending applier (rs ++ ys) (a.0) (changed || a.1))
            (λ a. apply_pending applier rs (a.0) (changed || a.1) >>= λ b.
              apply_pending applier ys (b.0) (b.1))
            (λ a. apply_pending-append rs ys (a.0) (changed || a.1))
          ∙ sym (>>=-assoc (applier.apply m store) _ (λ b. apply_pending applier ys (b.0) (b.1))))
      ∙ sym (>>=-assoc (decode_mutation r) go (λ b. apply_pending applier ys (b.0) (b.1)))

  -- The loop's flag is carried along, and the specification's is collected at the end.
  apply_pending-flag :
      (rs : List WalRecord) (store : S) (changed : Bool)
      → apply_pending applier rs store changed
        ≡ (apply_in_order rs store >>= λ a. ok (a.0, changed || a.1))
  unfolding apply_pending apply_in_order
  apply_pending-flag [] store changed = ground arith
  apply_pending-flag (r ∷ rs) store changed =
      let flag : S × Bool → Result Error (S × Bool) = λ a. ok (a.0, changed || a.1) in
      let join : S × Bool → S × Bool → Result Error (S × Bool) = λ a b. ok (b.0, a.1 || b.1) in
      let tail : S × Bool → Result Error (S × Bool) = λ a. apply_in_order rs (a.0) >>= join a in
      >>=-cong (decode_mutation r)
        (λ m. applier.apply m store >>= λ a. apply_pending applier rs (a.0) (changed || a.1))
        (λ m. (applier.apply m store >>= tail) >>= flag)
        (λ m.
          >>=-cong (applier.apply m store) (λ a. apply_pending applier rs (a.0) (changed || a.1))
            (λ a. tail a >>= flag)
            (λ a.
              apply_pending-flag rs (a.0) (changed || a.1)
              ∙ >>=-cong (apply_in_order rs (a.0)) (λ b. ok (b.0, (changed || a.1) || b.1))
                  (λ b. ok (b.0, changed || (a.1 || b.1)))
                  (λ b. ap (λ c. ok (b.0, c)) (or_assoc changed (a.1) (b.1)))
              ∙ sym (>>=-assoc (apply_in_order rs (a.0)) (join a) flag))
          ∙ sym (>>=-assoc (applier.apply m store) tail flag))
      ∙ sym (>>=-assoc (decode_mutation r) (λ m. applier.apply m store >>= tail) flag)

  pub apply_pending-in_order :
      (rs : List WalRecord) (store : S)
      → apply_pending applier rs store false ≡ apply_in_order rs store
  apply_pending-in_order rs store =
      apply_pending-flag rs store false
      ∙ >>=-cong (apply_in_order rs store) (λ a. ok (a.0, false || a.1)) (λ a. ok a) (λ a. refl)
      ∙ >>=-ok (apply_in_order rs store)

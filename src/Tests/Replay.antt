-- ===== src/Tests/Replay.antt =====
-- Tests of db/: the replay of the log.
use seerdb.Base.{
  ◌≡◌, refl, true, false, none, List, [], ◌∷◌, ◌++◌, All, arith, ok, ◌>>=◌, to_le, from_le,
}
use seerdb.Storage.Format.CommitRecord
use seerdb.Storage.Format.CommitRecord.{CommitRecord}
use seerdb.Recovery.Record.{new_commit, encode_all, to_bytes, type_code}
use seerdb.Recovery.Record.RoundTrip.{IsEncodable}
use seerdb.Db.WalPayload.{decode_put_payload, decode_delete_payload}
use seerdb.Db.WalRecovery.{kind, digest_records, digest_from, extend_digest}
use seerdb.Db.WalReplay.{
  Mutation, put_key, delete_key, Applier, is_published, apply_pending, decode_mutation,
  recover_from_wal,
}
use seerdb.Db.WalReplay.InOrder.{apply_in_order}
use seerdb.Db.WalReplay.Commits.{
  Group, log_of, IsMutation, IsUnpublished, mutations_of, recovered, recover_from_wal-log_of,
}
use seerdb.Tests.Fixtures.{
  crc, put_record, delete_record, put_record-IsEncodable, delete_record-IsEncodable,
}

-- A candidate that records what is applied to it.
abbrev journal : Applier (List Mutation)
journal = record { apply = λ m applied. ok (applied ++ (m ∷ []), false) }

abbrev a_group : Group
a_group = record {
  mutations = put_record ∷ delete_record ∷ [];
  commit = record {
    commit_id = 1;
    generation_id = 1;
    root_page_id = 2;
    mutation_count = 2;
    digest = 123;
  };
}

a_group-IsUnpublished : IsUnpublished crc none a_group
unfolding kind is_published digest_records digest_from extend_digest to_bytes type_code to_le
a_group-IsUnpublished = record {
  mutations = (refl, (refl, tt));
  in_range = record {
    commit_id = omega arith;
    generation_id = omega arith;
    root_page_id = omega arith;
    mutation_count = omega arith;
    digest = omega arith;
  };
  count = refl;
  digest = refl;
  ahead = refl;
}

commit-IsEncodable : IsEncodable (new_commit a_group.commit)
unfolding new_commit CommitRecord.to_bytes to_le
commit-IsEncodable = record { bytes = ground arith; fits = omega arith }

a_group-IsEncodable : All IsEncodable (log_of (a_group ∷ []) ++ (delete_record ∷ []))
unfolding log_of
a_group-IsEncodable = (
  put_record-IsEncodable,
  (delete_record-IsEncodable, (commit-IsEncodable, (delete_record-IsEncodable, tt))),
)

-- Two mutations in one group: the put comes first.
apply_in_order_test :
    apply_in_order journal (put_record ∷ delete_record ∷ []) []
    ≡ ok (put_key (7 ∷ []) (9 ∷ []) ∷ delete_key (7 ∷ []) ∷ [], false)
unfolding apply_in_order decode_mutation decode_put_payload decode_delete_payload from_le
apply_in_order_test = refl

apply_pending_test :
    apply_pending journal (put_record ∷ delete_record ∷ []) [] true
    ≡ ok (put_key (7 ∷ []) (9 ∷ []) ∷ delete_key (7 ∷ []) ∷ [], true)
unfolding apply_pending decode_mutation decode_put_payload decode_delete_payload from_le
apply_pending_test = refl

delete-IsMutation : IsMutation delete_record
unfolding kind
delete-IsMutation = refl

recover_from_wal-log_of_example :
    (recover_from_wal journal crc none
        (encode_all crc (log_of (a_group ∷ []) ++ (delete_record ∷ [])))
        []
      >>= recovered journal crc none)
    ≡ apply_in_order journal (mutations_of (a_group ∷ [])) []
recover_from_wal-log_of_example =
    recover_from_wal-log_of journal crc none (a_group ∷ []) (delete_record ∷ []) []
      (a_group-IsUnpublished, tt) (delete-IsMutation, tt) a_group-IsEncodable

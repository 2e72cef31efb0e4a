-- ===== src/Tests/Registry.antt =====
-- Tests of storage/: the manifest history and the retention registry.
use seerdb.Base.{ℕ, ◌≡◌, refl, some, List, [], ◌∷◌, ◌++◌, arith, ok, contains, to_le}
use seerdb.Storage.Format.{valid_page_size}
use seerdb.Storage.Format.Manifest.{Manifest, IsCurrent, is_newer_than}
use seerdb.Storage.History
use seerdb.Storage.History.{ManifestHistory}
use seerdb.Storage.History.Order
use seerdb.Storage.History.Order.{push_lem}
use seerdb.Storage.History.Reconcile.{Reconciled, reconcile_current_lem}
use seerdb.Storage.History.RoundTrip.{history_from_bytes-to_bytes}
use seerdb.Storage.Retention
use seerdb.Storage.Retention.{RetentionRegistry, RetainedRoot, insert_root, remove_root, take_root}
use seerdb.Storage.Retention.Registry
use seerdb.Storage.Retention.Registry.{ids, lookup, insert_root_lem, remove_root_lem}
use seerdb.Storage.Retention.RoundTrip.{retention_from_bytes-to_bytes}
use seerdb.Tests.Fixtures.{crc, a_manifest, a_manifest-InRange}

abbrev next_manifest : Manifest
next_manifest = record a_manifest { generation_id = 4; commit_id = 5 }

a_manifest-IsCurrent : IsCurrent a_manifest
unfolding valid_page_size
a_manifest-IsCurrent = record { version = refl; page_size = refl }

next_manifest-IsCurrent : IsCurrent next_manifest
unfolding valid_page_size
next_manifest-IsCurrent = record { version = refl; page_size = refl }

abbrev a_history : ManifestHistory
a_history = record { manifests = a_manifest ∷ [] }

abbrev two_manifests : ManifestHistory
two_manifests = record { manifests = a_manifest ∷ next_manifest ∷ [] }

a_history-IsValid : Order.IsValid a_history
a_history-IsValid = record { ordered = (tt, tt); current = (a_manifest-IsCurrent, tt) }

push_test : History.push a_history next_manifest ≡ ok two_manifests
unfolding History.push History.latest History.last History.manifest_eq is_newer_than valid_page_size
push_test = refl

two_manifests-IsValid : Order.IsValid two_manifests
two_manifests-IsValid = (push_lem a_history next_manifest a_history-IsValid push_test).0

-- An orphan behind the authority is discarded.
orphan_test : History.reconcile_current two_manifests a_manifest ≡ ok a_history
unfolding History.reconcile_current History.position History.manifest_eq
orphan_test = refl

-- A newer authority of the same history is appended, and one of another history replaces it.
extension_test : History.reconcile_current a_history next_manifest ≡ ok two_manifests
unfolding History.reconcile_current History.position History.manifest_eq History.push History.latest
    History.last is_newer_than valid_page_size
extension_test = refl

restart_test :
    History.reconcile_current two_manifests (record next_manifest { history_id = 12 })
    ≡ ok (record { manifests = record next_manifest { history_id = 12 } ∷ [] })
unfolding History.reconcile_current History.position History.manifest_eq History.latest History.last
    History.reset
restart_test = refl

reconcile_current_lem_example :
    Order.IsValid a_history
    × (History.latest a_history ≡ some a_manifest)
    × Reconciled a_manifest two_manifests a_history
reconcile_current_lem_example =
    reconcile_current_lem two_manifests a_manifest two_manifests-IsValid a_manifest-IsCurrent
      orphan_test

history_from_bytes-to_bytes_example :
    History.from_bytes crc
      ((History.header_bytes ++ History.encode_entries crc (a_manifest ∷ [])) ++ (1 ∷ 2 ∷ []))
    ≡ ok a_history
history_from_bytes-to_bytes_example =
    history_from_bytes-to_bytes crc a_history (1 ∷ 2 ∷ [])
      ((a_manifest-InRange, a_manifest-IsCurrent), tt) (tt, tt) (unfold History.to_bytes in refl)
      (omega arith)

-- Root 1 was removed, root 2 is retained.
abbrev a_registry : RetentionRegistry
a_registry = record {
  next_snapshot_id = 3;
  roots = record { snapshot_id = 2; manifest = a_manifest } ∷ [];
}

a_registry-IsWellFormed : Registry.IsWellFormed a_registry
unfolding contains
a_registry-IsWellFormed = record {
  started = omega arith;
  distinct = (refl, tt);
  issued = ((omega arith, omega arith), tt);
}

abbrev registry_body : List ℕ
registry_body = Retention.header crc a_registry ++ Retention.encode_roots crc a_registry.roots

retention_from_bytes-to_bytes_example :
    Retention.from_bytes crc (registry_body ++ to_le 4 (crc.checksum registry_body)) ≡ ok a_registry
retention_from_bytes-to_bytes_example =
    retention_from_bytes-to_bytes crc a_registry a_registry-IsWellFormed
      ((a_manifest-InRange, a_manifest-IsCurrent), tt) (omega arith)
      (unfold Retention.to_bytes Retention.body_len in refl)

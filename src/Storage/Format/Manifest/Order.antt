-- ===== src/Storage/Format/Manifest/Order.antt =====
-- The order by which a reader prefers one manifest to another.
use seerdb.Base.{◌≡◌, ◌⊎◌, true, false, arith}
use seerdb.Storage.Format.Manifest.{Manifest, is_newer_than}

pub is_newer_than_trans :
    (a b c : Manifest)
    → is_newer_than a b ≡ true
    → is_newer_than b c ≡ true
    → is_newer_than a c ≡ true
unfolding is_newer_than
is_newer_than_trans a b c p q = ground arith

pub is_newer_than_asymm : (a b : Manifest) → is_newer_than a b ≡ true → is_newer_than b a ≡ false
unfolding is_newer_than
is_newer_than_asymm a b p = ground arith

-- Of two manifests one is newer, unless they have the same generation and the same commit.
pub is_newer_than_total :
    (a b : Manifest)
    → (is_newer_than a b ≡ true)
      ⊎ (is_newer_than b a ≡ true)
      ⊎ ((a.generation_id ≡ b.generation_id) × (a.commit_id ≡ b.commit_id))
unfolding is_newer_than
is_newer_than_total a b = ground arith

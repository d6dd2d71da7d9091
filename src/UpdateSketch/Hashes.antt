-- ===== src/UpdateSketch/Hashes.antt =====
-- An update with bytes is an update with their hash.
use singlestoredb_extension.Base.{ℕ, ◌≡◌, refl, List}
use singlestoredb_extension.Table.{Table, screen}
use singlestoredb_extension.UpdateSketch.{update, update_by_hash, compute_hash, hash_and_screen}

pub update-compute_hash :
    (murmur : List ℕ → ℕ → ℕ) (t : Table) (bytes : List ℕ)
    → update murmur t bytes ≡ update_by_hash t (compute_hash murmur bytes t.seed)
unfolding update update_by_hash screen hash_and_screen
update-compute_hash murmur t bytes = refl

-- ===== src/Examples/Startups.antt =====
-- The startup of daemon/src/store/mod.rs, which finds a file that no record points at.
use rldyour_clipboard.Io.{Io}
use rldyour_clipboard.Blobs.{file_exists}
use rldyour_clipboard.Index.Queries.{known_digests}
use rldyour_clipboard.Store.Recording.{Store}
use rldyour_clipboard.Store.Startup.{Shard, reconcile}
use rldyour_clipboard.Store.Startup.Collecting.{is_listed, reconcile-collects}
use rldyour_clipboard.Examples.Disk.{store}
use rldyour_clipboard.Prelude.{
  ◌≡◌, refl, true, not, ◌&&◌, ◌||◌, some, List, [], ◌∷◌, ok, Text, codes, text_mem,
}

abbrev rest : Text
rest = codes "00000000000000000000000000000000000000000000000000000000000000"

abbrev orphan : Text
orphan = codes "ab00000000000000000000000000000000000000000000000000000000000000"

-- The store with a file that its index does not know.
abbrev littered : Store
littered = record store {
  blobs = record store.blobs { files = (orphan, codes "lost") ∷ store.blobs.files };
}

abbrev shards : List (Io Shard)
shards =
    ok (record { name = some (codes "incoming"); plain = ok tt; is_dir = true; blobs = ok [] })
    ∷ ok (record {
      name = some (codes "ab");
      plain = ok tt;
      is_dir = true;
      blobs = ok (ok (record { name = some rest; bytes = 4 }) ∷ []);
    })
    ∷ []

listed_orphan : is_listed orphan shards ≡ true
unfolding is_listed
listed_orphan = refl

reclaims_orphan : (reconcile (λ d. ok tt) (λ d. ok tt) littered (ok shards)).0 ≡ ok 4
unfolding reconcile
reclaims_orphan = refl

reconcile-collects_example :
    file_exists orphan (reconcile (λ d. ok tt) (λ d. ok tt) littered (ok shards)).1.blobs.files ≡ (
      file_exists orphan littered.blobs.files
      && (text_mem orphan (known_digests littered.tables)
          || text_mem orphan littered.blobs.leases
          || not (is_listed orphan shards)))
reconcile-collects_example =
    reconcile-collects (λ d. ok tt) (λ d. ok tt) littered shards 4 orphan reclaims_orphan

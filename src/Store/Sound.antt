-- ===== src/Store/Sound.antt =====
-- The store of daemon/src/store/mod.rs with its leases: what a draft holds a lease on has its file,
-- whatever is swept beside it.
pub mod Taking
pub mod Dropping
pub mod Publishing
use rldyour_clipboard.Index.Tables.{Tables}
use rldyour_clipboard.Index.Refs.Counts.{uses, occurs, one_if, occurs-append}
use rldyour_clipboard.Index.Consistent.{IsConsistent}
use rldyour_clipboard.Index.Queries.{references}
use rldyour_clipboard.Blobs.{Blobs, Written, file_exists, release_one, drop_lease, finish}
use rldyour_clipboard.Store.{Accepted}
use rldyour_clipboard.Store.Sweeping.{sweep, drop_parts, discard, file_exists-sweep, leases-sweep}
use rldyour_clipboard.Store.Recording.{Store}
use rldyour_clipboard.Store.Keeping.{swept}
use rldyour_clipboard.Store.Keeping.Backed.{IsBacked, references-uses}
use rldyour_clipboard.Prelude.{
  ℕ, zero, suc, ◌+◌, ◌-◌, ◌*◌, ◌/◌, ◌%◌, ◌^◌, ◌≤◌, ◌<◌, min, ◌≡◌, refl, sym, ap, ◌∙◌, subst, ◌≢◌,
  ◌↔◌, ◌⊎◌, inl, inr, Bool, true, false, not, ◌&&◌, ◌||◌, Option, none, some, List, [], ◌∷◌, ◌++◌,
  map, append-nil, append_assoc, reverse, arith, ltb, leb, ◌==◌, if◌then◌else◌, ltb→lt, lt→ltb,
  leb→le, le→leb, ==_iff, Bool-cases, Option-cases, is_some, Result, ok, err, ◌>>=◌, length, take,
  drop, head_of, any, all, keep, find, All, length-append, length-take, length-drop,
  take-append-drop, length-keep-le, any-append, All-append, All-map, Text, codes, text_eq,
  text_eq_iff, text_eq_refl, text_le, text_mem, lower_char, to_ascii_lowercase, is_whitespace, trim,
  starts_with, ends_with_char, strip_prefix_char, utf8, sort_by, insert_by, IsSorted,
  length-sort_by, any-sort_by, All-sort_by, sort_by-IsSorted, sort_by_of_IsSorted, keep-sort_by,
  insert_by_least, All-keep, keep-All, keep-keep, All-take, All-map₂, List-cases, keep_congr,
  take_of_length-lt,
}

abbrev pub digests_of : List Accepted → List Text
digests_of = map (λ a. a.digest)

-- How many of the parts have this digest.
abbrev pub holds : Text → List Accepted → ℕ
holds x parts = occurs x (digests_of parts)

-- The store is backed, `reserved` of the leases are spoken for, and each lease has its file.
pub record IsSound (reserved : Text → ℕ) (store : Store) : Type 0 where
  pub backed : IsBacked store
  pub reserved-le : (x : Text) → reserved x ≤ occurs x store.blobs.leases
  pub leased :
      (x : Text)
      → ltb 0 (occurs x store.blobs.leases) ≡ true
      → file_exists x store.blobs.files ≡ true

pub weaken :
    (r s : Text → ℕ) (store : Store) → ((x : Text) → s x ≤ r x) → IsSound r store → IsSound s store
weaken r s store h i = record {
  backed = i.backed;
  reserved-le = λ x. omega (arith, h x, i.reserved-le x);
  leased = i.leased;
}

text_mem-occurs : (x : Text) (ds : List Text) → text_mem x ds ≡ ltb 0 (occurs x ds)
unfolding text_mem occurs
text_mem-occurs x [] = ground arith
text_mem-occurs x (d ∷ ds) = ground (arith, text_mem-occurs x ds)

occurs-release_one :
    (x d : Text) (ds : List Text) → occurs x ds ≤ occurs x (release_one d ds) + one_if (text_eq d x)
unfolding occurs release_one
occurs-release_one x d [] = omega arith
occurs-release_one x d (e ∷ ds) =
    ground (arith, occurs-release_one x d ds, text_eq_iff e d, text_eq_iff e x, text_eq_iff d x)

occurs-release_one-le : (x d : Text) (ds : List Text) → occurs x (release_one d ds) ≤ occurs x ds
unfolding occurs release_one
occurs-release_one-le x d [] = omega arith
occurs-release_one-le x d (e ∷ ds) = ground (arith, occurs-release_one-le x d ds)

-- A lease that is given up is no longer spoken for.
pub drop_lease-IsSound :
    (r : Text → ℕ) (store : Store) (d : Text)
    → IsSound (λ x. r x + one_if (text_eq d x)) store
    → IsSound r (record store { blobs = drop_lease store.blobs d })
unfolding drop_lease
drop_lease-IsSound r store d i = record {
  backed = record { consistent = i.backed.consistent; backed = i.backed.backed };
  reserved-le = λ x. omega (arith, i.reserved-le x, occurs-release_one x d store.blobs.leases);
  leased = λ x h. i.leased x (ground (arith, h, occurs-release_one-le x d store.blobs.leases));
}

-- A sweep under tables that refer to less keeps what is referred to and what is leased.
pub swept-IsSound :
    (r : Text → ℕ) (store : Store) (tables : Tables) (orphaned : List Text)
    → IsSound r store
    → IsConsistent tables
    → ((x : Text) → ltb 0 (uses x tables) ≡ true → file_exists x store.blobs.files ≡ true)
    → IsSound r (swept store tables orphaned)
unfolding swept
swept-IsSound r store tables orphaned i c there =
    let same = leases-sweep tables store.blobs orphaned in
    record {
      backed = record {
        consistent = c;
        backed = λ x h. ground (
          arith,
          h,
          there x,
          file_exists-sweep tables store.blobs orphaned x,
          references-uses tables x c,
        );
      };
      reserved-le = λ x. subst (λ ls. r x ≤ occurs x ls) (sym same) (i.reserved-le x);
      leased = λ x h.
          let held : ltb 0 (occurs x store.blobs.leases) ≡ true =
            subst (λ ls. ltb 0 (occurs x ls) ≡ true) same h in
          ground (
            arith,
            held,
            i.leased x held,
            text_mem-occurs x store.blobs.leases,
            file_exists-sweep tables store.blobs orphaned x,
          );
    }

pub sweep-IsSound :
    (r : Text → ℕ) (store : Store) (orphaned : List Text)
    → IsSound r store
    → IsSound r (record store { blobs = sweep store.tables store.blobs orphaned })
sweep-IsSound r store orphaned i =
    unfold swept in
    swept-IsSound r store store.tables orphaned i i.backed.consistent i.backed.backed

-- Tables that refer only to what has its file leave a store sound.
pub tables-IsSound :
    (r : Text → ℕ) (store : Store) (tables : Tables)
    → IsSound r store
    → IsConsistent tables
    → ((x : Text) → ltb 0 (uses x tables) ≡ true → file_exists x store.blobs.files ≡ true)
    → IsSound r (record store { tables = tables })
tables-IsSound r store tables i c there = record {
  backed = record { consistent = c; backed = there };
  reserved-le = i.reserved-le;
  leased = i.leased;
}

-- Tables that refer to the same leave a store sound.
pub retabled-IsSound :
    (r : Text → ℕ) (store : Store) (tables : Tables)
    → IsConsistent tables
    → ((x : Text) → uses x tables ≡ uses x store.tables)
    → IsSound r store
    → IsSound r (record store { tables = tables })
retabled-IsSound r store tables c same i = record {
  backed = record {
    consistent = c;
    backed = λ x h. i.backed.backed x (ap (ltb 0) (sym (same x)) ∙ h);
  };
  reserved-le = i.reserved-le;
  leased = i.leased;
}

-- Leases that are given up are spoken for no longer.
pub drop_parts-IsSound :
    (r : Text → ℕ) (store : Store) (parts : List Accepted)
    → IsSound (λ x. r x + holds x parts) store
    → IsSound r (record store { blobs = drop_parts store.blobs parts })
unfolding drop_parts occurs
drop_parts-IsSound r store [] i = weaken _ r store (λ x. omega arith) i
drop_parts-IsSound r store (p ∷ parts) i =
    drop_parts-IsSound r (record store { blobs = drop_lease store.blobs p.digest }) parts
      (drop_lease-IsSound (λ x. r x + holds x parts) store p.digest
        (weaken _ _ store (λ x. omega arith) i))

-- The parts of a draft that is dropped are spoken for no longer, and nothing else is touched.
pub discard-IsSound :
    (r : Text → ℕ) (store : Store) (parts : List Accepted)
    → IsSound (λ x. r x + holds x parts) store
    → IsSound r (record store { blobs = discard store.tables store.blobs parts })
unfolding discard
discard-IsSound r store parts i =
    sweep-IsSound r (record store { blobs = drop_parts store.blobs parts }) (digests_of parts)
      (drop_parts-IsSound r store parts i)

file_exists-cons :
    (x d : Text) (content : List ℕ) (files : List (Text × List ℕ))
    → file_exists x ((d, content) ∷ files) ≡ (text_eq d x || file_exists x files)
unfolding file_exists
file_exists-cons x d content files = refl

-- A lease more, on a file that is there.
leased-IsSound :
    (r : Text → ℕ) (store : Store) (d : Text) (files : List (Text × List ℕ))
    → IsSound r store
    → ((x : Text) → file_exists x files ≡ (text_eq d x || file_exists x store.blobs.files))
    → IsSound
        (λ x. r x + one_if (text_eq d x))
        (record store { blobs = record { files = files; leases = d ∷ store.blobs.leases } })
unfolding occurs
leased-IsSound r store d files i more = record {
  backed = record {
    consistent = i.backed.consistent;
    backed = λ x h. ground (arith, more x, i.backed.backed x h);
  };
  reserved-le = λ x. omega (arith, i.reserved-le x);
  leased = λ x h. ground (arith, h, more x, i.leased x);
}

-- A blob that is finished is leased to the writer.
pub finish-IsSound :
    (r : Text → ℕ) (digest_of : List ℕ → Text) (store : Store) (content : List ℕ)
    → IsSound r store
    → let out : Blobs × Written = finish digest_of store.blobs content in
      IsSound (λ x. r x + one_if (text_eq out.1.digest x)) (record store { blobs = out.0 })
unfolding finish
finish-IsSound r digest_of store content i =
    let d = digest_of content in
    elim (Bool-cases (file_exists d store.blobs.files)) [
      | inl e ↦
          rw (e, finish)
            (leased-IsSound r store d store.blobs.files i (λ x. elim (Bool-cases (text_eq d x)) [
              | inl q ↦
                  rw q
                    (subst (λ y. file_exists y store.blobs.files ≡ true) ((text_eq_iff d x).0 q) e)
              | inr q ↦ rw q
            ]))
      | inr e ↦
          rw (e, finish)
            (leased-IsSound r store d ((d, content) ∷ store.blobs.files) i
              (λ x. file_exists-cons x d content store.blobs.files))
    ]

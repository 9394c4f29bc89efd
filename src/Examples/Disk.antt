-- ===== src/Examples/Disk.antt =====
-- A store over the small archive, with the files on its disk, and requests of a session.
use mathlib.Core.List.{Permᴰ}
use rldyour_clipboard.Store.{Accepted}
use rldyour_clipboard.Store.Deriving.{identity}
use rldyour_clipboard.Store.Identity.{identity_of_Perm}
use rldyour_clipboard.Index.Tables.{bytes, has_id, empty}
use rldyour_clipboard.Index.Refs.Counts.{uses}
use rldyour_clipboard.Index.Queries.{references}
use rldyour_clipboard.Index.Consistent.{IsConsistent}
use rldyour_clipboard.Index.Eviction.{queue}
use rldyour_clipboard.Io.{Io, Input, bytes_of, flat}
use rldyour_clipboard.Blobs.{Blobs, file_exists, absorb}
use rldyour_clipboard.Blobs.Copying.{absorb_ok}
use rldyour_clipboard.Config.{
  parse_budget, parse_budget-in_range, parse_retention, parse_retention-in_range,
}
use rldyour_clipboard.Config
use rldyour_clipboard.Store.Sweeping.{sweep, file_exists-sweep}
use rldyour_clipboard.Store.Recording.{Store, Committed, make_room}
use rldyour_clipboard.Store.Recording.Retained.{make_room-retains}
use rldyour_clipboard.Store.Keeping.{remove_entry, expire}
use rldyour_clipboard.Store.Keeping.Backed.{IsBacked, Drains, remove_entry-IsBacked, expire-Drains}
use rldyour_clipboard.Session.Parts.{whole_part, whole_part-aligned}
use rldyour_clipboard.Session.Drafts.{Drafts, Answer, part, IsBounded, part-answers}
use rldyour_clipboard.Examples.Archive.{archive, archive-IsConsistent}
use rldyour_clipboard.Proto.{Summary, max_frame}
use rldyour_clipboard.Kind.Preview.{preview, preview-bounded}
use rldyour_clipboard.Session.Pages.{list_reply, requested}
use rldyour_clipboard.Session.Pages.Encoded.{list_frame, json_size, list_reply-sends}
use rldyour_clipboard.Outbox.{send}
use rldyour_clipboard.Proto as Proto
use rldyour_clipboard.Proto.{Response}
use rldyour_clipboard.Prelude.{
  ℕ, ◌-◌, ◌≤◌, ◌<◌, ◌≡◌, refl, ◌⊎◌, Bool, true, false, not, ◌&&◌, ◌||◌, none, some, List, [], ◌∷◌,
  map, arith, ltb, leb, is_some, ok, length, take, drop, Text, codes, text_eq, text_eq_iff,
  text_mem, suc, zero, ◌++◌, ◌+◌,
}

abbrev pub blobs : Blobs
blobs = record {
  files =
      (codes "a", codes "text")
      ∷ (codes "b", codes "<b>t</b>")
      ∷ (codes "c", codes "png")
      ∷ (codes "d", codes "secret")
      ∷ (codes "f", codes "draft")
      ∷ [];
  leases = codes "f" ∷ [];
}

abbrev pub store : Store
store = record { tables = archive; blobs = blobs; budget = 8 }

pub store-IsBacked : IsBacked store
unfolding uses file_exists text_eq
store-IsBacked = record {
  consistent = archive-IsConsistent;
  backed = λ x h. ground (
    arith,
    h,
    text_eq_iff (codes "a") x,
    text_eq_iff (codes "b") x,
    text_eq_iff (codes "c") x,
    text_eq_iff (codes "d") x,
  );
}

-- Of three digests, the one that the index has stays, the leased one stays, and one goes.
swept_files :
    map (λ f. f.0) (sweep empty blobs (codes "d" ∷ codes "f" ∷ [])).files
    ≡ codes "a" ∷ codes "b" ∷ codes "c" ∷ codes "f" ∷ []
unfolding sweep text_mem text_eq
swept_files = refl

file_exists-sweep_example : file_exists (codes "d") (sweep empty blobs (codes "d" ∷ [])).files ≡ (
    file_exists (codes "d") blobs.files
    && not (
        text_mem (codes "d") (codes "d" ∷ [])
        && not (references empty (codes "d"))
        && not (text_mem (codes "d") blobs.leases)))
file_exists-sweep_example = file_exists-sweep empty blobs (codes "d" ∷ []) (codes "d")

remove_entry-IsBacked_example : IsBacked (remove_entry store 3).0
remove_entry-IsBacked_example = remove_entry-IsBacked store 3 store-IsBacked

expire-Drains_example : Drains 4 store (100 - 75) (expire store (some 75) 100)
expire-Drains_example = expire-Drains store 75 100 store-IsBacked

make_room-retains_example :
    let out : Committed × Store = make_room store (archive, 3, true) none in
    IsConsistent out.1.tables
    × ((bytes out.1.tables ≤ 8) ⊎ (queue out.1.tables ≡ []))
    × (is_some out.0.summary ≡ true)
    × ((out.0.entry ≡ 0) ⊎ ((out.0.entry ≡ 3) × (has_id 3 out.1.tables.entries ≡ true)))
    × ((x : Text)
        → (references out.1.tables x && file_exists x out.1.blobs.files)
          ≡ (references out.1.tables x && file_exists x store.blobs.files))
make_room-retains_example =
    make_room-retains store archive 3 true none archive-IsConsistent (unfold bytes in omega arith)
      refl

abbrev write_all : List ℕ → List ℕ → Io (Unit {0})
write_all held piece = ok tt

abbrev digest_of : List ℕ → Text
digest_of content = take 2 content

abbrev sent : Input
sent = record { buffers = codes "hel" ∷ codes "lo{}\n" ∷ []; broken = false }

abbrev drafts : Drafts
drafts = record { held = (1, record { source = none; parts = [] }) ∷ []; next = 2 }

drafts-IsBounded : IsBounded drafts
drafts-IsBounded = record { few = omega arith; within = ((omega arith, omega arith), tt) }

part-answers_example :
    let out : Io (Answer × Drafts) × Store × Input =
      part write_all digest_of drafts store 1 (codes "text/plain") 5 sent in
    (r : Answer × Drafts) × (out.0 ≡ ok r)
    × IsBounded r.1
    × (bytes_of out.2 ≡ drop 5 (bytes_of sent))
part-answers_example =
    part-answers write_all digest_of drafts store 1 (codes "text/plain") 5 sent
      (omega arith, (omega arith, tt)) (unfold flat in omega arith) drafts-IsBounded

whole_part-aligned_example :
    bytes_of (whole_part write_all digest_of blobs 4 (codes "text/plain") true 5 sent).input
    ≡ drop 5 (bytes_of sent)
whole_part-aligned_example =
    whole_part-aligned write_all digest_of blobs 4 (codes "text/plain") true 5 sent
      (omega arith, (omega arith, tt))

absorb_ok_example : (absorb write_all sent [] 5).result ≡ ok tt
absorb_ok_example =
    absorb_ok write_all sent [] 5 (omega arith, (omega arith, tt)) (unfold flat in omega arith)
      (λ held piece. refl)

abbrev offered : List Text
offered = codes "TARGETS" ∷ codes "text/html" ∷ codes "UTF8_STRING" ∷ []

parse_budget-in_range_example :
    (0 < parse_budget (some (codes "0"))) × (parse_budget (some (codes "0")) ≤ Config.i64_max)
parse_budget-in_range_example = parse_budget-in_range (some (codes "0"))

parse_retention-in_range_example : (86400 ≤ 604800) × (604800 ≤ 3153600000)
unfolding parse_retention
parse_retention-in_range_example = parse_retention-in_range (some (codes "bad")) 604800 refl

abbrev item : ℕ → Summary
item id = record {
  id = id;
  kind = codes "text";
  mimes = codes "text/plain" ∷ [];
  bytes = 4;
  preview = none;
  width = none;
  height = none;
  thumb = false;
  pinned = false;
  source = none;
  at = 10;
}

-- An item of 40,000 bytes, of which one fits a frame.
abbrev two_items : List Summary
two_items = item 2 ∷ item 1 ∷ []

abbrev blanks : ℕ → List ℕ
blanks zero = []
blanks (suc n) = 32 ∷ blanks n

abbrev large : Summary → List ℕ
large i = blanks 40000

abbrev encode_list : Response → List ℕ
encode_list (Proto.list req items more) = list_frame (codes "7") (map large items) more
encode_list response = []

list_reply-sends_example :
    let out : List Summary × Bool = list_reply (json_size large) (some 2) two_items in
    (length (encode_list (Proto.list 7 out.0 out.1)) ≤ max_frame)
    × (send encode_list (λ wire bytes. (ok tt, wire ++ bytes)) [] (Proto.list 7 out.0 out.1)
        ≡ (ok tt, [] ++ encode_list (Proto.list 7 out.0 out.1)))
    × (out.0 ≡ take (length out.0) two_items)
    × (out.1
        ≡ (ltb (length out.0) (length two_items) || leb (requested (some 2)) (length two_items)))
    × ((out.0 ≡ two_items)
        ⊎ (max_frame
            < 128 + length (encode_list (Proto.list 7 (take (suc (length out.0)) two_items) true))))
list_reply-sends_example =
    list_reply-sends large (λ n. codes "7") encode_list (λ wire bytes. (ok tt, wire ++ bytes)) [] 7
      (some 2) two_items (λ is more. refl) (omega arith)

preview-bounded_example : length (preview (codes " a  b ")) ≤ 162
preview-bounded_example = preview-bounded (codes " a  b ")

abbrev offer : Text → Text → Accepted
offer mime digest = record { mime = mime; digest = digest; bytes = 4 }

identity_of_Perm_example :
    identity digest_of
      (offer (codes "text/html") (codes "b") ∷ offer (codes "a/b") (codes "c") ∷ [])
    ≡ identity digest_of
        (offer (codes "a/b") (codes "c") ∷ offer (codes "text/html") (codes "b") ∷ [])
identity_of_Perm_example = identity_of_Perm digest_of (Permᴰ.swap refl refl)

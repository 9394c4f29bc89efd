-- ===== src/Examples/Conversations.antt =====
-- Requests of a connection over the small archive, and the watchers beside it.
use rldyour_clipboard.Index.Refs.Counts.{occurs}
use rldyour_clipboard.Index.Queries.{references}
use rldyour_clipboard.Io.{Io, Input, bytes_of, flat}
use rldyour_clipboard.Proto.{begin, part, capture, Request, remove, chunk}
use rldyour_clipboard.Blobs.{file_exists}
use rldyour_clipboard.Config.{is_valid_mime}
use rldyour_clipboard.Store.Recording.{Store}
use rldyour_clipboard.Store.Keeping.{remove_entry, clear_entries, expire, open_part}
use rldyour_clipboard.Store.Refinement.{
  forget, remove_entry-forgets, clear_entries-forgets, expire-forgets,
}
use rldyour_clipboard.Session.Parts.{PartOutcome, recorded}
use rldyour_clipboard.Session.Chunks.{chunked_part}
use rldyour_clipboard.Session.Chunks.Streaming.{Chunk, chunked_part-records, chunked_part-aligned}
use rldyour_clipboard.Session.Conversation.{Outside, Session, World, new_session}
use rldyour_clipboard.Session.Conversation.Requests.{perform}
use rldyour_clipboard.Session.Conversation.Answers.{Replied, perform-Replied}
use rldyour_clipboard.Session.Conversation.Safety.{Keeps, perform-Keeps}
use rldyour_clipboard.Session.Conversation.Keeping.{held_by}
use rldyour_clipboard.Index.Changes.{clear}
use rldyour_clipboard.Holds.{sweeps, act, doing, held_pending}
use rldyour_clipboard.System.{
  clears, acts, connects, greets, max_connections, held, world_of, requests, begins, goes,
}
use rldyour_clipboard.Store.Keeping.Backed.{IsBacked}
use rldyour_clipboard.System.Safety.{reached_has_files}
use rldyour_clipboard.Examples.Disk.{store, store-IsBacked}
use rldyour_clipboard.Prelude.{
  ℕ, ◌-◌, ◌≤◌, ◌≡◌, refl, true, false, not, Option, none, some, List, [], ◌∷◌, ◌++◌, map, arith, ok,
  take, keep, Text, codes, text_eq, text_eq_iff,
}

abbrev decode : Text → Option Request
decode [] = none
decode (c ∷ cs) = some (chunk (c - b'0'))

-- A line is the digit of a chunk's size, and a digest the first two bytes.
abbrev pub outside : Outside
outside = record {
  write_file = λ held piece. ok tt;
  sync_pinned = λ digest. ok tt;
  write_socket = λ wire bytes. (ok tt, wire ++ bytes);
  encode = λ response. codes "{}\n";
  decode = decode;
  item_size = λ item. 100;
  from_utf8 = λ bytes. some bytes;
  lossy = λ bytes. bytes;
  digest_of = λ content. take 2 content;
  thumb_of_image = λ content. record { png = none; width = none; height = none };
  decode_png = λ content. none;
  write_bmp = λ content. none;
  is_alphanumeric = λ c. true;
  matches = λ expression body. true;
}

abbrev pub chunks : Input
chunks = record { buffers = codes "5\nhe" ∷ codes "llo0\n{}" ∷ []; broken = false }

abbrev hello : List Chunk
hello = record { line = codes "5"; payload = codes "hello" } ∷ []

chunked_part-records_example :
    (chunked_part outside.write_file outside.digest_of outside.from_utf8 decode store.blobs 8
      (codes "text/plain")
      true
      chunks).outcome
    ≡ ok (recorded (record { mime = codes "text/plain"; digest = codes "he"; bytes = 5 }))
unfolding is_valid_mime
chunked_part-records_example =
    chunked_part-records outside.write_file outside.digest_of outside.from_utf8 decode store.blobs 8
      (codes "text/plain") chunks hello (codes "0") (codes "{}")
      (refl, (omega arith, (omega arith, tt))) (unfold flat in refl)
      (((refl, omega arith, (codes "5", refl, refl)), omega arith), tt)
      (refl, omega arith, (codes "0", refl, refl)) refl (λ held piece. refl) (omega arith)

chunked_part-aligned_example :
    let out =
      chunked_part outside.write_file outside.digest_of outside.from_utf8 decode store.blobs 2
        (codes "text/plain")
        true
        chunks in
    ((o : PartOutcome) × (out.outcome ≡ ok o)) × (bytes_of out.input ≡ codes "{}")
chunked_part-aligned_example =
    chunked_part-aligned outside.write_file outside.digest_of outside.from_utf8 decode store.blobs 2
      (codes "text/plain") true chunks hello (codes "0") (codes "{}")
      (refl, (omega arith, (omega arith, tt))) (unfold flat in refl)
      (((refl, omega arith, (codes "5", refl, refl)), omega arith), tt)
      (refl, omega arith, (codes "0", refl, refl))

-- A connection with a draft open, whose part has the leased file of the store.
abbrev pub session : Session
session = record {
  role = capture;
  watch = false;
  drafts = record {
    held =
        (
          1,
          record {
            source = none;
            parts = record { mime = codes "text/plain"; digest = codes "f"; bytes = 5 } ∷ [];
          },
        )
        ∷ [];
    next = 2;
  };
}

session_sound : Keeps outside (λ x. 0) session store
unfolding held_by occurs text_eq file_exists
session_sound = record {
  backed = store-IsBacked;
  reserved-le = λ x. omega arith;
  leased = λ x h. ground (arith, h, text_eq_iff (codes "f") x);
}

abbrev world : World
world = world_of session store chunks

perform-Keeps_example :
    let out : Io (Unit {0}) × World = perform outside (λ s. s) 0 none world (remove 7 3) in
    Keeps outside (λ x. 0) out.1.session out.1.store
perform-Keeps_example =
    perform-Keeps outside (λ s. s) 0 none (λ x. 0) world (remove 7 3) (λ s other h. h) session_sound

perform-Replied_example :
    Replied outside
      (λ wire bytes h. refl)
      (some 7)
      []
      (perform outside (λ s. s) 0 none world (remove 7 3))
perform-Replied_example =
    perform-Replied outside (λ wire bytes h. refl) (λ s. s) 0 none world (remove 7 3)

remove_entry-forgets_example :
    open_part (remove_entry store 3).0 1 none ≡ forget (3 ∷ []) (open_part store) 1 none
remove_entry-forgets_example = remove_entry-forgets store 3 1 none store-IsBacked

clear_entries-forgets_example :
    open_part (clear_entries store) 2 none
    ≡ forget
        (map (λ e. e.id) (keep (λ e. not e.pinned) store.tables.entries))
        (open_part store)
        2
        none
clear_entries-forgets_example = clear_entries-forgets store 2 none store-IsBacked

expire-forgets_example :
    let out : Store × List ℕ = expire store (some 75) 100 in
    open_part out.0 3 none ≡ forget out.1 (open_part store) 3 none
expire-forgets_example = expire-forgets store (some 75) 100 3 none store-IsBacked

-- The store as it is found at a start, without its lease.
abbrev found : Store
found = record store { blobs = record store.blobs { leases = [] } }

found-IsBacked : IsBacked found
found-IsBacked = record { consistent = store-IsBacked.consistent; backed = store-IsBacked.backed }

-- A connection opens a draft and sends a part, of which the digest is `he`.
abbrev begun : Io (Unit {0}) × World
begun =
    perform outside (λ s. s) 0 none (world_of (record new_session { role = capture }) found chunks)
      (begin 1 none)

abbrev sent_part : Io (Unit {0}) × World
sent_part =
    perform outside (λ s. s) 0 none (world_of begun.1.session begun.1.store chunks)
      (part 2 1 (codes "text/plain") none)

-- Then the archive is cleared, and its orphans are swept.
abbrev cleared_store : Store
cleared_store = record sent_part.1.store { tables = (clear sent_part.1.store.tables).0 }

abbrev orphans : List Text
orphans = (clear sent_part.1.store.tables).1

reached_has_files_example :
    (file_exists (codes "he") (act (sweeps orphans) cleared_store).blobs.files ≡ true)
    × (1 ≤ max_connections)
unfolding perform held held_by held_pending occurs references text_eq is_valid_mime flat clear act
reached_has_files_example =
    reached_has_files outside found
      (record {
        store = act (sweeps orphans) cleared_store;
        connections = sent_part.1.session ∷ [];
        pending = doing [] ∷ [];
        capturing = [];
      })
      (codes "he") found-IsBacked refl
      (goes
        (goes
          (goes
            (goes
              (goes (goes begins (connects found [] [] [] [] (omega arith)))
                (greets found [] [] [] [] new_session capture true))
              (requests found [] [] [] [] (record new_session { role = capture }) chunks
                (begin 1 none) 0 none begun refl))
            (requests begun.1.store [] [] [] [] begun.1.session chunks
              (part 2 1 (codes "text/plain") none) 0 none sent_part refl))
          (clears sent_part.1.store [] (sent_part.1.session ∷ []) []))
        (acts cleared_store [] (sent_part.1.session ∷ []) [] [] (sweeps orphans) []))
      refl

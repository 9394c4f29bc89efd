-- ===== src/Index/Order.antt =====
-- The two orders of daemon/src/store/index.rs: by age, for eviction and expiry, and by position in
-- the list.
use rldyour_clipboard.Index.Tables.{EntryRow}
use rldyour_clipboard.Index.Changes.{older}
use rldyour_clipboard.Index.Listing.{newest}
use rldyour_clipboard.Prelude.{◌≡◌, true, false, arith}

pub older_total : (a b : EntryRow) → older a b ≡ false → older b a ≡ true
unfolding older
older_total a b h = ground arith

pub older_trans : (a b c : EntryRow) → older a b ≡ true → older b c ≡ true → older a c ≡ true
unfolding older
older_trans a b c h k = ground arith

pub newest_total : (a b : EntryRow) → newest a b ≡ false → newest b a ≡ true
unfolding newest
newest_total a b h = ground arith

pub newest_trans : (a b c : EntryRow) → newest a b ≡ true → newest b c ≡ true → newest a c ≡ true
unfolding newest
newest_trans a b c h k = ground arith

-- ===== src/Store/Incoming.antt =====
-- daemon/src/store/mod.rs: `Incoming`, a representation that is streamed in without a declared length.
use rldyour_clipboard.Io.{Input, Io}
use rldyour_clipboard.Blobs.{Blobs, absorb, finish}
use rldyour_clipboard.Store.{StoreError, io, larger, Accepted, validate_mime}
use rldyour_clipboard.Store.Deriving.{or_io}
use rldyour_clipboard.Prelude.{
  ℕ, List, [], ltb, if◌then◌else◌, Result, ok, err, ◌>>=◌, length, Text,
}

-- The writer, as the content of its temporary, and the mime type.
pub record Incoming : Type 0 where
  pub content : List ℕ
  pub mime : Text

-- What a piece leaves: its result, the writer, the stream and what was taken off it.
pub record Absorbed : Type 0 where
  pub result : Result StoreError (Unit {0})
  pub incoming : Incoming
  pub input : Input
  pub read : ℕ

unfoldable pub incoming : Text → Result StoreError Incoming
unfolding validate_mime
incoming mime = do u ← or_io (validate_mime mime); ok (record { content = []; mime = mime })

module _ (write_all : List ℕ → List ℕ → Io (Unit {0})) (digest_of : List ℕ → Text) where
  unfoldable pub absorb_piece : ℕ → Incoming → Input → ℕ → Absorbed
  unfolding absorb
  absorb_piece budget writer input bytes =
      let out = absorb write_all input writer.content bytes in
      record {
        result = elim out.result [
          | err e ↦ err (io e)
          | ok u ↦ if ltb budget (length out.content) then err larger else ok tt
        ];
        incoming = record writer { content = out.content };
        input = out.input;
        read = out.read;
      }

  unfoldable pub finish_incoming : Blobs → Incoming → Accepted × Blobs
  unfolding finish
  finish_incoming blobs writer =
      let done = finish digest_of blobs writer.content in
      (record { mime = writer.mime; digest = done.1.digest; bytes = done.1.bytes }, done.0)

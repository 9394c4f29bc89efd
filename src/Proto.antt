-- ===== src/Proto.antt =====
-- daemon/src/proto.rs: the frames of the wire format, as values. Their JSON text is serde's.
use rldyour_clipboard.Prelude.{ℕ, ◌*◌, Bool, true, false, Option, none, some, List, Text}

abbrev pub protocol_version : ℕ
protocol_version = 1

abbrev pub max_frame : ℕ
max_frame = 64 * 1024

pub data Role : Type 0 where
  capture ui both : Role

-- `#[default]`
abbrev pub default_role : Role
default_role = ui

unfoldable pub records : Role → Bool
records capture = true
records ui = false
records both = true

unfoldable pub role_watches : Role → Bool
role_watches capture = false
role_watches ui = true
role_watches both = true

pub data Request : Type 0 where
  hello : (v : ℕ) (role : Role) (watch : Bool) → Request
  begin : (req : ℕ) (source : Option Text) → Request
  part : (req draft : ℕ) (mime : Text) (bytes : Option ℕ) → Request
  chunk : (bytes : ℕ) → Request
  commit : (req draft : ℕ) → Request
  abort : (req draft : ℕ) → Request
  list :
      (req : ℕ) (limit : Option ℕ) (before : Option ℕ) (query : Option Text) (kind : Option Text)
      (pinned : Option Bool)
      → Request
  fetch : (req entry : ℕ) (mime : Option Text) (transcode : Bool) → Request
  thumb : (req entry : ℕ) → Request
  pin : (req entry : ℕ) (pinned : Bool) → Request
  remove : (req entry : ℕ) → Request
  clear : (req : ℕ) → Request
  stats : (req : ℕ) → Request

unfoldable pub req_of : Request → Option ℕ
req_of (hello v role watch) = none
req_of (begin req source) = some req
req_of (part req draft mime bytes) = some req
req_of (chunk bytes) = none
req_of (commit req draft) = some req
req_of (abort req draft) = some req
req_of (list req limit before query kind pinned) = some req
req_of (fetch req entry mime transcode) = some req
req_of (thumb req entry) = some req
req_of (pin req entry pinned) = some req
req_of (remove req entry) = some req
req_of (clear req) = some req
req_of (stats req) = some req

pub record Summary : Type 0 where
  pub id : ℕ
  pub kind : Text
  pub mimes : List Text
  pub bytes : ℕ
  pub preview : Option Text
  pub width : Option ℕ
  pub height : Option ℕ
  pub thumb : Bool
  pub pinned : Bool
  pub source : Option Text
  pub at : ℕ

pub data Code : Type 0 where
  bad_frame bad_version no_such_entry no_such_mime no_such_draft too_large storage : Code

-- The message of an error frame is text for people, and is left out.
pub data Response : Type 0 where
  hello : (v entries bytes budget : ℕ) (retention_days : Option ℕ) → Response
  accepted : (req : ℕ) → Response
  begin : (req draft : ℕ) → Response
  commit : (req entry : ℕ) (created : Bool) → Response
  list : (req : ℕ) (items : List Summary) (more : Bool) → Response
  blob : (req : ℕ) (mime : Text) (bytes : ℕ) → Response
  thumb : (req width height stride bytes : ℕ) → Response
  stats : (req entries pinned bytes budget : ℕ) (retention_days : Option ℕ) → Response
  added : (entry : Summary) → Response
  updated : (entry : Summary) → Response
  removed : (entry : ℕ) → Response
  cleared : Response
  error : (req : Option ℕ) (code : Code) → Response

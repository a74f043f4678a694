-- ===== src/Alerts.antt =====
-- alerts/email_alert.py: the throttle and `send_security_alert`, with its attachments.
pub mod Delivery
use Prim.Native.Char.{Char}
use intrusion_detection_syst.Prelude.{
  ℕ, ◌*◌, String, ◌<>◌, Bool, true, false, not, ◌&&◌, ◌||◌, Option, none, some, List, [], ◌∷◌, ◌++◌,
  ltb, if◌then◌else◌, ◌==◌, string_eq, nat_eq,
}
use intrusion_detection_syst.Detection.Dedup.{Deduplicator, fingerprint, is_duplicate}

-- The environment: `window` is ALERT_DEDUP_WINDOW_SECONDS, 0 where that is not positive; a variable
-- that is not set is `none`.
pub record Environment : Type 0 where
  pub window : ℕ
  pub sender : Option String
  pub password : Option String
  pub receiver : Option String

-- What the disk answers for an attachment's path; `guess` is that of `mimetypes.guess_type`.
pub data AttachmentFile : Type 0 where
  absent : AttachmentFile
  unreadable : AttachmentFile
  present : (size : ℕ) (file_data : String) (guess : Option String × Option String) → AttachmentFile

pub record Attachment : Type 0 where
  pub path : String
  pub content_type : String
  pub file_data : String

pub record Mail : Type 0 where
  pub subject : String
  pub from : String
  pub to : String
  pub content : String
  pub attachments : List Attachment

-- How the SMTP session ends: the message is handed over, or one of the errors that are caught is
-- raised before that.
pub data Transmission : Type 0 where
  delivered authentication_error connection_error protocol_error unexpected : Transmission

-- The throttle, and the messages handed to the server.
pub record Mailer : Type 0 where
  pub throttle : Deduplicator
  pub sent : List Mail

abbrev pub max_attachment_size_bytes : ℕ
max_attachment_size_bytes = 15 * 1024 * 1024

abbrev pub content_type_of : Option String × Option String → String
content_type_of (none, encoding) = "application/octet-stream"
content_type_of (some ctype, none) = ctype
content_type_of (some ctype, some encoding) = "application/octet-stream"

-- One step of the loop: a file that is missing, too large or not readable is skipped.
unfoldable pub attach : String → AttachmentFile → List Attachment → List Attachment
attach path absent attached = attached
attach path unreadable attached = attached
attach path (present size file_data guess) attached =
    if ltb max_attachment_size_bytes size
    then attached
    else attached
      ++ record { path = path; content_type = content_type_of guess; file_data = file_data } ∷ []

unfoldable pub attach_all :
    (String → AttachmentFile) → List String → List Attachment → List Attachment
attach_all disk [] attached = attached
attach_all disk (path ∷ paths) attached = attach_all disk paths (attach path (disk path) attached)

-- A throttle is asked only if a window is set, which becomes its own.
unfoldable pub is_throttled :
    (String → String)
    → Environment
    → ℕ
    → String
    → String
    → String
    → Deduplicator
    → Bool × Deduplicator
is_throttled sha256 env now level source message d =
    if env.window == 0
    then (false, d)
    else is_duplicate (fingerprint sha256 source (some message) level) now
        (record d { window_seconds = env.window })

-- Python's truth of a variable
abbrev pub is_set : Option String → Bool
is_set none = false
is_set (some s) = not (s == "")

abbrev pub or_unset : Option String → String
or_unset none = ""
or_unset (some s) = s

abbrev pub subject_or : (String → String) → String → String → Option String → String
subject_or upper level source none = "[" <> upper level <> "] IDS Alert - " <> source
subject_or upper level source (some s) =
    if s == "" then "[" <> upper level <> "] IDS Alert - " <> source else s

unfoldable pub mail_for :
    (String → AttachmentFile) → Environment → String → String → List String → Mail
mail_for disk env subject message paths = record {
  subject = subject;
  from = or_unset env.sender;
  to = or_unset env.receiver;
  content = message;
  attachments = attach_all disk paths [];
}

unfoldable pub transmit : Transmission → Mail → Mailer → Bool × Mailer
transmit delivered mail m = (true, record m { sent = m.sent ++ mail ∷ [] })
transmit _ mail m = (false, m)

-- After the throttle.
unfoldable pub deliver :
    (String → AttachmentFile)
    → (Mail → Transmission)
    → Environment
    → String
    → String
    → List String
    → Mailer
    → Bool × Mailer
deliver disk smtp env subject message paths m =
    if is_set env.sender && is_set env.password && is_set env.receiver
    then (let mail = mail_for disk env subject message paths in transmit (smtp mail) mail m)
    else (false, m)

module _ (upper sha256 : String → String) (disk : String → AttachmentFile)
    (smtp : Mail → Transmission) where
  unfoldable pub send_security_alert :
      Environment
      → ℕ
      → String
      → String
      → String
      → Option String
      → List String
      → Mailer
      → Bool × Mailer
  send_security_alert env now level source message subject paths m =
      let (throttled, d) = is_throttled sha256 env now level source message m.throttle in
      let m' = record m { throttle = d } in
      if throttled
      then (false, m')
      else deliver disk smtp env (subject_or upper level source subject) message paths m'

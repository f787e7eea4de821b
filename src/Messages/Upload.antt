-- ===== src/Messages/Upload.antt =====
-- repo/backend/internal/handler/message_handler.go: `Send`, once the ids have been read, with the file that
-- comes along.
use w1t.Base.{
  ℕ, String, Bool, true, false, not, ◌&&◌, ◌||◌, List, [], ◌∷◌, Option, none, some, length, ltb,
  ◌==◌, str_eq, contains, starts_with, if◌then◌else◌,
}
use w1t.Errors.{Response, map_error}
use w1t.Model.Message.{Message}
use w1t.Action.{Action, pure, ◌>>=◌, catch}
use w1t.Experiments.{bytes}
use w1t.Messages.Service.{max_attachment_size, send}
use w1t.Messages.Pii.{detect_pii}
use w1t.Messages.Scan.{Bytes, is_ext, extract_scannable_text}

-- A `multipart.FileHeader`: the name in code points, and what reading the file gives, unless it fails.
pub record FileHeader : Type 0 where
  pub size : ℕ
  pub mime : String
  pub filename : List ℕ
  pub content : Option Bytes

abbrev has_slash : List ℕ → Bool
has_slash [] = false
has_slash (c ∷ cs) = c == b'/' || has_slash cs

abbrev later_or : List ℕ → List ℕ → List ℕ
later_or [] here = here
later_or (c ∷ cs) here = c ∷ cs

-- `filepath.Ext`: from the last dot of the last element on.
unfoldable pub ext_of : List ℕ → List ℕ
ext_of [] = []
ext_of (c ∷ cs) = later_or (ext_of cs) (if c == b'.' && not (has_slash cs) then c ∷ cs else [])

-- `isTextAttachment`
unfoldable pub is_text_attachment : String → List ℕ → Bool
is_text_attachment mime ext = starts_with "text/" mime || (is_ext ext ".csv" || is_ext ext ".txt")

-- `safeBinaryMIMEs` and `safeBinaryExts`
abbrev pub safe_binary_mimes : List String
safe_binary_mimes =
    "image/jpeg" ∷ "image/png" ∷ "image/gif" ∷ "image/webp" ∷ "image/svg+xml" ∷ "application/pdf"
    ∷ []

abbrev pub safe_binary_exts : List String
safe_binary_exts = ".jpg" ∷ ".jpeg" ∷ ".png" ∷ ".gif" ∷ ".webp" ∷ ".svg" ∷ ".pdf" ∷ []

abbrev any_ext : List ℕ → List String → Bool
any_ext ext [] = false
any_ext ext (s ∷ ss) = is_ext ext s || any_ext ext ss

-- `isSafeBinaryAttachment`
unfoldable pub is_safe_binary_attachment : String → List ℕ → Bool
is_safe_binary_attachment mime ext =
    if contains mime safe_binary_mimes then true else any_ext ext safe_binary_exts

-- What the client gets: an error, or 201 with the message.
pub data Reply : Type 0 where
  refused : Response → Reply
  created : Message → Reply

abbrev pub invalid : Action Reply
invalid = pure (refused (record { status = 422; code = "ERR_VALIDATION" }))

module _ (pdf_text : Bytes → Bytes) (order user : ℕ) (body : String) where
  abbrev pub store_message : Bytes → ℕ → String → Action Reply
  store_message content size mime =
      catch (do m ← send order user body content size mime; pure (created m))
        (λ e. pure (refused (map_error e)))

  -- The type of the file, and the text in it.
  abbrev pub store_content : FileHeader → Option Bytes → Action Reply
  store_content file none = pure (refused (record { status = 500; code = "ERR_INTERNAL" }))
  store_content file (some content) =
      if not (is_text_attachment file.mime (ext_of file.filename))
        && not (is_safe_binary_attachment file.mime (ext_of file.filename))
      then invalid
      else if detect_pii (extract_scannable_text pdf_text content file.mime (ext_of file.filename))
      then invalid
      else store_message content file.size file.mime

  abbrev pub store_form : Option FileHeader → Action Reply
  store_form none = store_message [] 0 ""
  store_form (some file) =
      if ltb max_attachment_size file.size
      then pure (refused (record { status = 413; code = "ERR_ATTACHMENT_TOO_LARGE" }))
      else store_content file file.content

  -- `Send`
  unfoldable pub send_form : Option FileHeader → Action Reply
  send_form file =
      if str_eq body ""
      then invalid
      else if ltb 10000 (length (bytes body))
      then pure (refused (record { status = 400; code = "ERR_VALIDATION" }))
      else if detect_pii (bytes body)
      then invalid
      else store_form file

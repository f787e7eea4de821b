-- ===== src/Messages/Screening.antt =====
-- What has been checked of a message that a client managed to store.
use w1t.Base.{
  ℕ, ◌≤◌, String, Bool, true, false, not, ◌&&◌, ◌||◌, ◌≡◌, ◌≢◌, refl, ◌⊎◌, inl, inr, [], Option,
  none, some, arith, length, ltb, str_eq_iff, if◌then◌else◌,
}
use w1t.World.{World}
use w1t.Action.{pure}
use w1t.Action.Rules.{Ends, Ends-mono, proceed-Ends, recover-Ends}
use w1t.Action.Calm.{Never}
use w1t.Experiments.{bytes}
use w1t.Messages.Service.{max_attachment_size}
use w1t.Messages.Pii.{detect_pii}
use w1t.Messages.Scan.{Bytes, extract_scannable_text}
use w1t.Messages.Sending.{Sent, Lost, send-Posted}
use w1t.Messages.Upload.{
  FileHeader, ext_of, is_text_attachment, is_safe_binary_attachment, refused, invalid,
  store_message, store_content, store_form, send_form,
}

-- The file that was stored is of an allowed type and size, and shows no personal data.
abbrev pub FileScreened : (Bytes → Bytes) → Option FileHeader → Bytes → Type 0
FileScreened pdf_text none content = content ≡ []
FileScreened pdf_text (some file) content =
    (file.content ≡ some content)
    × (file.size ≤ max_attachment_size)
    × (is_text_attachment file.mime (ext_of file.filename)
          || is_safe_binary_attachment file.mime (ext_of file.filename)
        ≡ true)
    × (detect_pii (extract_scannable_text pdf_text content file.mime (ext_of file.filename))
        ≡ false)

abbrev pub size_of : Option FileHeader → ℕ
size_of none = 0
size_of (some file) = file.size

abbrev pub mime_of : Option FileHeader → String
mime_of none = ""
mime_of (some file) = file.mime

module _ (pdf_text : Bytes → Bytes) (order user : ℕ) (body : String) (w : World) where
  -- The message is stored with its content, or without it after a failure.
  Stores : Bytes → ℕ → String → World → Type 0
  Stores content size mime v =
      Sent order user body content size mime w.db v.db
      ⊎ Lost order user body content size mime w.db v.db

  -- No table has changed, or the body and the file have passed every check and are what was stored.
  abbrev pub Screened : Option FileHeader → World → Type 0
  Screened file v =
      (v.db ≡ w.db)
      ⊎ ((body ≢ "")
          × (length (bytes body) ≤ 10000)
          × (detect_pii (bytes body) ≡ false)
          × ((content : Bytes) × FileScreened pdf_text file content
              × (Sent order user body content (size_of file) (mime_of file) w.db v.db
                  ⊎ Lost order user body content (size_of file) (mime_of file) w.db v.db)))

  store_message-Stores :
      (content : Bytes) (size : ℕ) (mime : String)
      → Ends
          (λ r v. Stores content size mime v)
          Never
          (store_message pdf_text order user body content size mime w)
  unfolding Stores
  store_message-Stores content size mime =
      recover-Ends (λ r v. Stores content size mime v) (λ e v. Stores content size mime v) Never _ _
        (proceed-Ends (λ m v. Stores content size mime v) (λ r v. Stores content size mime v)
          (λ e v. Stores content size mime v) _ _
          (Ends-mono _ {R = λ m v. Stores content size mime v}
            (λ e v. Lost order user body content size mime w.db v.db)
            {F = λ e v. Stores content size mime v} _ (λ m v h. inl h.2) (λ e v h. inr h)
            (send-Posted order user body content size mime w))
          (λ m v h. h))
        (λ e v h. h)

  -- A stored file was screened, or nothing changed.
  FileStored : Option FileHeader → World → Type 0
  FileStored file v =
      (v.db ≡ w.db)
      ⊎ ((content : Bytes) × FileScreened pdf_text file content
          × Stores content (size_of file) (mime_of file) v)

  store_content-FileStored :
      (file : FileHeader) (read : Option Bytes)
      → file.content ≡ read
      → file.size ≤ max_attachment_size
      → Ends
          (λ r v. FileStored (some file) v)
          Never
          (store_content pdf_text order user body file read w)
  unfolding FileStored
  store_content-FileStored file none e le = inl refl
  store_content-FileStored file (some content) e le = checked _ _ _ refl refl
    where
      checked :
          (text binary pii : Bool)
          → is_text_attachment file.mime (ext_of file.filename)
              || is_safe_binary_attachment file.mime (ext_of file.filename)
            ≡ text || binary
          → detect_pii (extract_scannable_text pdf_text content file.mime (ext_of file.filename))
            ≡ pii
          → Ends
              (λ r v. FileStored (some file) v)
              Never
              ((if not text && not binary
                  then invalid
                  else if pii
                  then invalid
                  else store_message pdf_text order user body content file.size file.mime)
                w)
      checked false false pii allowed found = inl refl
      checked true binary true allowed found = inl refl
      checked false true true allowed found = inl refl
      checked true binary false allowed found =
          Ends-mono (λ r v. Stores content file.size file.mime v) Never _
            (λ r v h. inr (content, (e, le, allowed, found), h)) (λ e v h. h)
            (store_message-Stores content file.size file.mime)
      checked false true false allowed found =
          Ends-mono (λ r v. Stores content file.size file.mime v) Never _
            (λ r v h. inr (content, (e, le, allowed, found), h)) (λ e v h. h)
            (store_message-Stores content file.size file.mime)

  store_form-FileStored :
      (file : Option FileHeader)
      → Ends (λ r v. FileStored file v) Never (store_form pdf_text order user body file w)
  unfolding FileStored
  store_form-FileStored none =
      Ends-mono (λ r v. Stores [] 0 "" v) Never _ (λ r v h. inr ([], refl, h)) (λ e v h. h)
        (store_message-Stores [] 0 "")
  store_form-FileStored (some file) = sized _ refl
    where
      sized :
          (big : Bool)
          → ltb max_attachment_size file.size ≡ big
          → Ends
              (λ r v. FileStored (some file) v)
              Never
              ((if big
                  then pure (refused (record { status = 413; code = "ERR_ATTACHMENT_TOO_LARGE" }))
                  else store_content pdf_text order user body file file.content)
                w)
      sized true e = inl refl
      sized false e = store_content-FileStored file file.content refl (ground arith)

  -- Whatever calls fail, a request to send a message gets an answer. It changes nothing unless the
  -- body is not empty, has 10,000 bytes at most and shows no personal data, and the file, if there
  -- is one, could be read, has 10 MB at most by its header, is of an allowed type and shows no
  -- personal data; then what is stored is that body with that file, or without it after a failure.
  pub send_form-Screened :
      (file : Option FileHeader)
      → Ends (λ r v. Screened file v) Never (send_form pdf_text order user body file w)
  unfolding send_form FileStored Stores
  send_form-Screened file = checked _ _ _ (str_eq_iff body "").1 refl refl
    where
      checked :
          (empty long pii : Bool)
          → (body ≡ "" → empty ≡ true)
          → ltb 10000 (length (bytes body)) ≡ long
          → detect_pii (bytes body) ≡ pii
          → Ends
              (λ r v. Screened file v)
              Never
              ((if empty
                  then invalid
                  else if long
                  then pure (refused (record { status = 400; code = "ERR_VALIDATION" }))
                  else if pii
                  then invalid
                  else store_form pdf_text order user body file)
                w)
      checked true long pii e l p = inl refl
      checked false true pii e l p = inl refl
      checked false false true e l p = inl refl
      checked false false false e l p =
          Ends-mono (λ r v. FileStored file v) Never _ (λ r v h. passed v h) (λ e v h. h)
            (store_form-FileStored file)
        where
          passed : (v : World) → FileStored file v → Screened file v
          passed v (inl same) = inl same
          passed v (inr (content, screened, stored)) =
              inr
                ((λ q. absurd (ground (arith, e q))), ground arith, p, (content, screened, stored))

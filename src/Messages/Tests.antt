-- ===== src/Messages/Tests.antt =====
-- Messages about one order, and texts with and without personal data.
use w1t.Base.{
  ◌≤◌, true, ◌≡◌, ◌↔◌, refl, [], ◌∷◌, ◌++◌, none, some, arith, find, str_eq, starts_with,
}
use w1t.Model.Order.{Order, pending}
use w1t.Model.Message.{Message, MessageAttachment}
use w1t.World.{World}
use w1t.Action.{pure}
use w1t.Action.Rules.{Ends}
use w1t.Action.Calm.{Never}
use w1t.Samples.{empty_tables, at_rest}
use w1t.Experiments.{bytes, utf8}
use w1t.Messages.Store
use w1t.Messages.Service.{max_attachment_size, send, get_attachment}
use w1t.Messages.Access.{HasParty, MayRead, get_attachment-Shows}
use w1t.Messages.Sending.{Sent, Lost, send-Posted}
use w1t.Messages.Pii.{
  PiiType, pattern_of, detect_pii, pii_types, match_string, match_from, match_here, match_many, ssn,
  phone_number, email_address,
}
use w1t.Messages.Language.{Occurs, detect_pii-Occurs}
use w1t.Messages.Scan.{codes, extract_ascii_strings, ascii_runs, extract_scannable_text}
use w1t.Messages.Runs.{Within, extract_ascii_strings-Within}
use w1t.Messages.Upload.{
  FileHeader, send_form, ext_of, is_text_attachment, is_safe_binary_attachment, refused,
}
use w1t.Messages.Screening.{Screened, send_form-Screened}

abbrev order : Order
order = record {
  id = 1;
  idempotency_key = "key";
  buyer_id = 2;
  collectible_id = 3;
  seller_id = 4;
  status = pending;
  price_snapshot_cents = 500;
  cancellation_reason = "";
  cancelled_by = none;
  fulfillment_tracking = none;
  created_at = 4000;
  updated_at = 4000;
}

abbrev question : Message
question = record {
  id = 5;
  order_id = 1;
  sender_id = 2;
  body = "Has it been sent?";
  attachment_id = "";
  attachment_size = 0;
  attachment_mime = "";
  created_at = 4500;
}

abbrev picture : MessageAttachment
picture = record {
  id = 6;
  message_id = 5;
  content = 1 ∷ 2 ∷ 3 ∷ [];
  size = 3;
  mime = "image/png";
  created_at = 4500;
}

abbrev talk : World
talk = at_rest record empty_tables {
  orders = order ∷ [];
  messages = question ∷ [];
  attachments = picture ∷ [];
}

get_attachment-Shows_example :
    Ends
      (λ a v.
        (find (Store.is_of 5) talk.db.attachments ≡ some a)
        × ((m : Message) × MayRead 5 4 talk.env.uuid_string talk.db m)
        × (v.db ≡ talk.db))
      (λ e v. v.db ≡ talk.db)
      (get_attachment 5 4 talk)
get_attachment-Shows_example = get_attachment-Shows 5 4 talk

send-Posted_example :
    Ends
      (λ m v.
        HasParty 1 4 talk.db
        × (2 ≤ max_attachment_size)
        × Sent 1 4 "Yes." (7 ∷ 8 ∷ []) 2 "image/png" talk.db v.db)
      (λ e v. Lost 1 4 "Yes." (7 ∷ 8 ∷ []) 2 "image/png" talk.db v.db)
      (send 1 4 "Yes." (7 ∷ 8 ∷ []) 2 "image/png" talk)
send-Posted_example = send-Posted 1 4 "Yes." (7 ∷ 8 ∷ []) 2 "image/png" talk

finds_ssn : pii_types (codes "my number is 123-45-6789.") ≡ ssn ∷ []
unfolding pii_types match_string match_from match_here match_many
finds_ssn = refl

finds_phone : pii_types (codes "call +1 (555) 123-4567") ≡ phone_number ∷ []
unfolding pii_types match_string match_from match_here match_many
finds_phone = refl

finds_email : pii_types (codes "a@b.co?") ≡ email_address ∷ []
unfolding pii_types match_string match_from match_here match_many
finds_email = refl

finds_nothing : pii_types (codes "order 12345 for 99 at x.y") ≡ []
unfolding pii_types match_string match_from match_here match_many
finds_nothing = refl

detect_pii-Occurs_example :
    (detect_pii (codes "123-45-6789") ≡ true)
    ↔ ((t : PiiType) × Occurs (pattern_of t) none (codes "123-45-6789"))
detect_pii-Occurs_example = detect_pii-Occurs (codes "123-45-6789")

two_runs :
    extract_ascii_strings 3 (0 ∷ 65 ∷ 66 ∷ 67 ∷ 255 ∷ 68 ∷ 200 ∷ 69 ∷ 70 ∷ 71 ∷ [])
    ≡ codes "ABC EFG"
unfolding extract_ascii_strings ascii_runs
two_runs = refl

extract_ascii_strings-Within_example :
    Within (codes "ABC") (extract_ascii_strings 3 (0 ∷ 33 ∷ codes "ABC" ++ (68 ∷ 255 ∷ [])))
extract_ascii_strings-Within_example =
    extract_ascii_strings-Within 3 (0 ∷ 33 ∷ []) (codes "ABC") (68 ∷ 255 ∷ [])
      (refl, (refl, (refl, tt))) (omega arith)

extension : ext_of (codes "a.b/photo.x.PNG") ≡ codes ".PNG"
unfolding ext_of
extension = refl

no_extension : ext_of (codes "a.b/photo") ≡ []
unfolding ext_of
no_extension = refl

abbrev upload : FileHeader
upload = record {
  size = 11;
  mime = "image/png";
  filename = codes "id.png";
  content = some (codes "123-45-6789");
}

-- The number in the picture is found.
picture_refused :
    (w : World)
    → send_form (λ x. x) 1 4 "Hello" (some upload) w
      ≡ pure (refused (record { status = 422; code = "ERR_VALIDATION" })) w
unfolding send_form is_text_attachment is_safe_binary_attachment ext_of extract_scannable_text
    extract_ascii_strings ascii_runs detect_pii pii_types match_string match_from match_here
    match_many bytes utf8 str_eq starts_with
picture_refused w = refl

send_form-Screened_example :
    Ends
      (λ r v. Screened (λ x. x) 1 4 "Hello" talk (some upload) v)
      Never
      (send_form (λ x. x) 1 4 "Hello" (some upload) talk)
send_form-Screened_example = send_form-Screened (λ x. x) 1 4 "Hello" talk (some upload)

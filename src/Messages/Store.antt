-- ===== src/Messages/Store.antt =====
-- repo/backend/internal/store/message_store.go: each method is its SQL statement.
use w1t.Base.{
  ℕ, suc, ◌-◌, ◌*◌, String, Bool, List, [], ◌∷◌, ◌++◌, map, Option, none, some, ltb, ◌==◌, find,
  exists, select, length, take, drop, if◌then◌else◌,
}
use w1t.Model.Message.{Message, MessageAttachment}
use w1t.World.{Database}
use w1t.Action.{Action, ◌>>=◌, pure, query, reading}

abbrev pub has_id : ℕ → Message → Bool
has_id id m = m.id == id

abbrev pub is_of : ℕ → MessageAttachment → Bool
is_of message a = a.message_id == message

-- The columns of the `LEFT JOIN`, and `AttachmentID`, which is set where there is a size.
abbrev pub described : (ℕ → String) → Message → Option MessageAttachment → Message
described show m none = record m { attachment_id = ""; attachment_size = 0; attachment_mime = "" }
described show m (some a) = record m {
  attachment_id = if ltb 0 a.size then show m.id else "";
  attachment_size = a.size;
  attachment_mime = a.mime;
}

abbrev pub join_attachment : (ℕ → String) → Database → Message → Message
join_attachment show d m = described show m (find (is_of m.id) d.attachments)

abbrev pub joined_row : (ℕ → String) → Database → Option Message → Option Message
joined_row show d none = none
joined_row show d (some m) = some (join_attachment show d m)

-- `GetByID`
unfoldable pub get_by_id : ℕ → Action (Option Message)
get_by_id id =
    reading
      λ w. query (λ now d. some (joined_row w.env.uuid_string d (find (has_id id) d.messages), d))

abbrev pub new_row : Message → ℕ → Database → Message
new_row m now d = record m { id = d.next_id; created_at = now }

abbrev pub insert_message : Message → ℕ → Database → Option (Message × Database)
insert_message m now d = some (
  new_row m now d,
  record d { next_id = suc d.next_id; messages = d.messages ++ (new_row m now d ∷ []) },
)

-- `Create`
unfoldable pub create : Message → Action Message
create m = query (insert_message m)

-- A message has one attachment at most.
abbrev pub insert_attachment :
    MessageAttachment → ℕ → Database → Option (MessageAttachment × Database)
insert_attachment a now d =
    let row : MessageAttachment = record a { id = d.next_id; created_at = now } in
    if exists (is_of a.message_id) d.attachments
    then none
    else some (row, record d { next_id = suc d.next_id; attachments = d.attachments ++ (row ∷ []) })

-- `CreateAttachment`
unfoldable pub create_attachment : MessageAttachment → Action MessageAttachment
create_attachment a = query (insert_attachment a)

-- `GetAttachmentByMessageID`
unfoldable pub get_attachment_by_message_id : ℕ → Action (Option MessageAttachment)
get_attachment_by_message_id message = query (λ now d. some (find (is_of message) d.attachments, d))

abbrev pub is_about : ℕ → Message → Bool
is_about order m = m.order_id == order

-- `ListByOrder`: the total, and a page of the messages, the oldest first.
unfoldable pub list_by_order : ℕ → ℕ → ℕ → Action (List Message × ℕ)
list_by_order order page page_size = reading λ w. do
  total ← query (λ now d. some (length (select (is_about order) d.messages), d))
  rows ← query (λ now d. some (
    map (join_attachment w.env.uuid_string d)
        (take page_size (drop ((page - 1) * page_size) (select (is_about order) d.messages))),
    d,
  ))
  pure (rows, total)

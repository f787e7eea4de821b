-- ===== src/Messages/Service.antt =====
-- repo/backend/internal/service/message_service.go, one function for each method.
use w1t.Base.{ℕ, String, not, List, [], ◌∷◌, ltb}
use w1t.Errors.{sentinel, not_found, forbidden, attachment_too_large}
use w1t.Model.Order.{Order}
use w1t.Model.Message.{Message, MessageAttachment}
use w1t.Action.{Action, pure, reading, ◌>>=◌, ◌>>◌, in_context, fail_if, found}
use w1t.Orders.Service.{get_order, is_party}
use w1t.Messages.Store.{
  get_by_id, create, create_attachment, get_attachment_by_message_id, list_by_order,
}

-- 10 MB
abbrev pub max_attachment_size : ℕ
max_attachment_size = 10485760

-- The order, for its buyer and its seller; each method starts so.
unfoldable pub order_of_party : ℕ → ℕ → Action Order
order_of_party order user = do
  o ← get_order order
  fail_if (not (is_party o user)) (sentinel forbidden "")
  pure o

abbrev pub shown_to : ℕ → Message → Action Message
shown_to user m = do o ← order_of_party m.order_id user; pure m

-- `GetByID`
unfoldable pub get : ℕ → ℕ → Action Message
get message user = do
  row ← get_by_id message
  m ← found row (sentinel not_found "")
  shown_to user m

-- `GetAttachment`
unfoldable pub get_attachment : ℕ → ℕ → Action MessageAttachment
get_attachment message user = do
  m ← get message user
  row ← get_attachment_by_message_id message
  found row (sentinel not_found "")

abbrev pub new_message : ℕ → ℕ → String → Message
new_message order sender body = record {
  id = 0;
  order_id = order;
  sender_id = sender;
  body = body;
  attachment_id = "";
  attachment_size = 0;
  attachment_mime = "";
  created_at = 0;
}

abbrev pub new_attachment : ℕ → List ℕ → ℕ → String → MessageAttachment
new_attachment message content size mime = record {
  id = 0;
  message_id = message;
  content = content;
  size = size;
  mime = mime;
  created_at = 0;
}

-- The attachment, where there is content.
unfoldable pub attach : Message → List ℕ → ℕ → String → Action Message
attach m [] size mime = pure m
attach m (b ∷ bs) size mime = do
  a ← in_context "create attachment" (create_attachment (new_attachment m.id (b ∷ bs) size mime))
  reading (λ w. pure (record m {
    attachment_id = w.env.uuid_string m.id;
    attachment_size = size;
    attachment_mime = mime;
  }))

-- `Send`
unfoldable pub send : ℕ → ℕ → String → List ℕ → ℕ → String → Action Message
send order sender body content size mime = do
  o ← order_of_party order sender
  fail_if (ltb max_attachment_size size) (sentinel attachment_too_large "")
  m ← in_context "create message" (create (new_message order sender body))
  attach m content size mime

-- `ListByOrder`
unfoldable pub list : ℕ → ℕ → ℕ → ℕ → Action (List Message × ℕ)
list order user page page_size = do
  o ← order_of_party order user
  list_by_order order page page_size

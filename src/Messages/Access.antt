-- ===== src/Messages/Access.antt =====
-- Who is shown a message, its attachment, and the messages of an order.
use w1t.Base.{ℕ, String, true, ◌≡◌, refl, sym, ap, subst, ◌∙◌, Option, none, some, find}
use w1t.Errors.{Error, sentinel, not_found}
use w1t.Model.Order.{Order}
use w1t.Model.Message.{Message, MessageAttachment}
use w1t.World.{World, Database}
use w1t.Action.Rules.{Ends, Same, Answers, Ends-mono, proceed-Ends, found-Ends, read-Answers}
use w1t.Orders.Service.{get, is_party}
use w1t.Orders.Aftercare.{Finds, get-Shows}
use w1t.Messages.Store
use w1t.Messages.Service

-- The user is the buyer or the seller of the order.
pub record HasParty (order user : ℕ) (d : Database) : Type 0 where
  pub row : Order
  pub finds : Finds order row d
  pub party : is_party row user ≡ true

pub order_of_party-HasParty :
    (order user : ℕ) (w : World)
    → Ends
        (λ o v. HasParty order user w.db × (v.db ≡ w.db))
        (λ e v. v.db ≡ w.db)
        (Service.order_of_party order user w)
unfolding Service.order_of_party get
order_of_party-HasParty order user w =
    Ends-mono _ {R = λ o v. HasParty order user w.db × (v.db ≡ w.db)} (λ e v. v.db ≡ w.db)
      {F = λ e v. v.db ≡ w.db} _ (λ o v h. (record { row = o; finds = h.0; party = h.1 }, h.2))
      (λ e v h. h) (get-Shows order user w)

-- The message is in the table, with what is known of its attachment, and the user is a party of its
-- order.
pub record MayRead (message user : ℕ) (show : ℕ → String) (d : Database) (m : Message)
    : Type 0 where
  pub row : Message
  pub stored : find (Store.has_id message) d.messages ≡ some row
  pub joined : m ≡ Store.join_attachment show d row
  pub order : HasParty row.order_id user d

-- The same, after calls that left the tables of `w`.
order_of_party-at :
    (order user : ℕ) (v w : World)
    → v.db ≡ w.db
    → Ends
        (λ o u. HasParty order user w.db × (u.db ≡ w.db))
        (λ e u. u.db ≡ w.db)
        (Service.order_of_party order user v)
order_of_party-at order user v w at =
    subst
      (λ (d : Database).
        Ends (λ o u. HasParty order user d × (u.db ≡ d)) (λ e u. u.db ≡ d)
          (Service.order_of_party order user v))
      at (order_of_party-HasParty order user v)

module _ (message user : ℕ) (w : World) where
  row_of :
      (o : Option Message) (m : Message)
      → Store.joined_row w.env.uuid_string w.db o ≡ some m
      → (row : Message) × (o ≡ some row) × (m ≡ Store.join_attachment w.env.uuid_string w.db row)
  row_of none m h = cc
  row_of (some row) m h = (row, refl, cc)

  order_id_of :
      (row : Message) (a : Option MessageAttachment)
      → (Store.described w.env.uuid_string row a).order_id ≡ row.order_id
  order_id_of row none = refl
  order_id_of row (some a) = refl

  get-MayRead :
      Ends
        (λ m v. MayRead message user w.env.uuid_string w.db m × (v.db ≡ w.db))
        (λ e v. v.db ≡ w.db)
        (Service.get message user w)
  unfolding Service.get Store.get_by_id
  get-MayRead =
      proceed-Ends
        (Answers
          (Store.joined_row w.env.uuid_string w.db (find (Store.has_id message) w.db.messages))
          w.db)
        R E _ _ (read-Answers _ w)
        λ o v answer.
          proceed-Ends (λ m u. (o ≡ some m) × (u.db ≡ w.db)) R E _ _
            (found-Ends _ E o (sentinel not_found "") v (λ h. answer.1) (λ m h. (h, answer.1)))
            λ m u h.
              proceed-Ends (λ x t. HasParty m.order_id user w.db × (t.db ≡ w.db)) R E _ _
                (order_of_party-at m.order_id user u w h.1)
                λ x t k. (known m (row_of _ m (sym answer.0 ∙ h.0)) k.0, k.1)
    where
      R : Message → World → Type 0
      R m v = MayRead message user w.env.uuid_string w.db m × (v.db ≡ w.db)

      E : Error → World → Type 0
      E e v = v.db ≡ w.db

      known :
          (m : Message)
          → (row : Message) × (find (Store.has_id message) w.db.messages ≡ some row)
            × (m ≡ Store.join_attachment w.env.uuid_string w.db row)
          → HasParty m.order_id user w.db
          → MayRead message user w.env.uuid_string w.db m
      known m (row, stored, joined) h = record {
        row = row;
        stored = stored;
        joined = joined;
        order =
            subst (λ n. HasParty n user w.db)
              (ap (λ (x : Message). x.order_id) joined
                ∙ order_id_of row (find (Store.is_of row.id) w.db.attachments))
              h;
      }

  -- An attachment is shown to the buyer and the seller of the order of its message only, and showing
  -- it changes no table.
  pub get_attachment-Shows :
      Ends
        (λ a v.
          (find (Store.is_of message) w.db.attachments ≡ some a)
          × ((m : Message) × MayRead message user w.env.uuid_string w.db m)
          × (v.db ≡ w.db))
        (λ e v. v.db ≡ w.db)
        (Service.get_attachment message user w)
  unfolding Service.get_attachment Store.get_attachment_by_message_id
  get_attachment-Shows =
      proceed-Ends (λ m v. MayRead message user w.env.uuid_string w.db m × (v.db ≡ w.db)) R E _ _
        get-MayRead
        λ m v h.
          proceed-Ends (Answers (find (Store.is_of message) v.db.attachments) v.db) R E _ _
            (Ends-mono (Answers (find (Store.is_of message) v.db.attachments) v.db)
              (λ e. Same v.db e) {F = E} _ (λ o u k. k) (λ e u k. k ∙ h.1) (read-Answers _ v))
            λ o u k.
              found-Ends R E o (sentinel not_found "") u (λ none_there. k.1 ∙ h.1)
                λ a there. (
                  ap (λ (d : Database). find (Store.is_of message) d.attachments) (sym h.1)
                      ∙ sym k.0
                      ∙ there,
                  (m, h.0),
                  k.1 ∙ h.1,
                )
    where
      R : MessageAttachment → World → Type 0
      R a v =
          (find (Store.is_of message) w.db.attachments ≡ some a)
          × ((m : Message) × MayRead message user w.env.uuid_string w.db m)
          × (v.db ≡ w.db)

      E : Error → World → Type 0
      E e v = v.db ≡ w.db

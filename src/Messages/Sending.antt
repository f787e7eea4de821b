-- ===== src/Messages/Sending.antt =====
-- What sending a message stores, on every branch.
use w1t.Base.{
  ℕ, ◌≤◌, String, ◌≡◌, ◌≢◌, refl, sym, subst, ◌∙◌, ◌⊎◌, inl, inr, List, [], ◌∷◌, some, arith, ltb,
}
use w1t.Errors.{Error, sentinel, attachment_too_large}
use w1t.Model.Message.{Message, MessageAttachment}
use w1t.World.{World, Database}
use w1t.Action.Rules.{Ends, Ends-mono, proceed-Ends, recover-Ends, fail_if-Ends, query-Ends}
use w1t.Messages.Store.{insert_message, insert_attachment, create, create_attachment}
use w1t.Messages.Service.{max_attachment_size, new_message, new_attachment, attach, send}
use w1t.Messages.Access.{HasParty, order_of_party-HasParty}

-- The message `row` is added to the tables of `d`.
abbrev pub Posted : ℕ → ℕ → String → Message → Database → Database → Type 0
Posted order sender body row d d' =
    (now : ℕ) × (insert_message (new_message order sender body) now d ≡ some (row, d'))

-- And its attachment, where there is content.
abbrev pub Attached : ℕ → List ℕ → ℕ → String → Database → Database → Type 0
Attached message [] size mime d d' = d' ≡ d
Attached message (b ∷ bs) size mime d d' =
    (now : ℕ) × (a : MessageAttachment) × (insert_attachment
        (new_attachment message (b ∷ bs) size mime) now d
      ≡ some (a, d'))

module _ (m : Message) (size : ℕ) (mime : String) where
  attach-Attached :
      (content : List ℕ) (w : World)
      → Ends
          (λ x v. Attached m.id content size mime w.db v.db)
          (λ e v. (content ≢ []) × (v.db ≡ w.db))
          (attach m content size mime w)
  unfolding attach create_attachment
  attach-Attached [] w = refl
  attach-Attached (b ∷ bs) w =
      proceed-Ends R (λ x. Q) E _ _
        (recover-Ends R (λ e v. v.db ≡ w.db) E _ _
          (query-Ends R (λ e v. v.db ≡ w.db) _ w (λ e v h. h) (λ a v h. (w.now, a, h)))
          (λ e v h. ((λ p. absurd (ground arith)), h)))
        (λ a v h. h)
    where
      Q : World → Type 0
      Q v = Attached m.id (b ∷ bs) size mime w.db v.db

      R : MessageAttachment → World → Type 0
      R a v = Q v

      E : Error → World → Type 0
      E e v = (b ∷ bs ≢ []) × (v.db ≡ w.db)

module _ (order sender : ℕ) (body : String) (content : List ℕ) (size : ℕ) (mime : String) where
  -- What is left when sending fails: nothing, or the message without the content.
  abbrev pub Lost : Database → Database → Type 0
  Lost d d' = (d' ≡ d) ⊎ ((content ≢ []) × ((row : Message) × Posted order sender body row d d'))

  -- The message is there, with its content.
  abbrev pub Sent : Database → Database → Type 0
  Sent d d' =
      (row : Message) × (mid : Database) × Posted order sender body row d mid
      × Attached row.id content size mime mid d'

  -- Whatever calls fail: a message is sent by the buyer or the seller of the order alone, where the
  -- size that is declared for the content is 10 MB at most; it is added with its content, and
  -- nothing else changes. On an error nothing has changed, or the message is there without its
  -- content.
  pub send-Posted :
      (w : World)
      → Ends
          (λ m v. HasParty order sender w.db × (size ≤ max_attachment_size) × Sent w.db v.db)
          (λ e v. Lost w.db v.db)
          (send order sender body content size mime w)
  unfolding send create
  send-Posted w =
      proceed-Ends (λ o v. HasParty order sender w.db × (v.db ≡ w.db)) Q E _ _
        (Ends-mono (λ o v. HasParty order sender w.db × (v.db ≡ w.db))
          {R = λ o v. HasParty order sender w.db × (v.db ≡ w.db)} (λ e v. v.db ≡ w.db) {F = E} _
          (λ o v h. h) (λ e v h. inl h) (order_of_party-HasParty order sender w))
        λ o v h.
          proceed-Ends (λ a u. (size ≤ max_attachment_size) × (u.db ≡ w.db)) Q E _ _
            (fail_if-Ends _ E (ltb max_attachment_size size) (sentinel attachment_too_large "") v
              (λ big. inl h.1) (λ fits. (ground arith, h.1)))
            λ a u k.
              proceed-Ends (λ row t. Posted order sender body row w.db t.db) Q E _ _
                (recover-Ends (λ row t. Posted order sender body row w.db t.db) (λ e t. t.db ≡ u.db)
                  E _ _
                  (query-Ends (λ row t. Posted order sender body row w.db t.db) (λ e t. t.db ≡ u.db)
                    _ u (λ e t same. same)
                    (λ row t put. (
                      u.now,
                      subst
                          (λ d.
                            insert_message (new_message order sender body) u.now d
                            ≡ some (row, t.db))
                          k.1 put,
                    )))
                  (λ e t same. inl (same ∙ k.1)))
                λ row t put.
                  Ends-mono (λ x s. Attached row.id content size mime t.db s.db) {R = Q}
                    (λ e s. (content ≢ []) × (s.db ≡ t.db)) {F = E} _
                    (λ x s at. (h.0, k.0, (row, t.db, put, at)))
                    (λ e s lost. inr (
                      lost.0,
                      (row, subst (λ d. Posted order sender body row w.db d) (sym lost.1) put),
                    ))
                    (attach-Attached row size mime content t)
    where
      Q : Message → World → Type 0
      Q m v = HasParty order sender w.db × (size ≤ max_attachment_size) × Sent w.db v.db

      E : Error → World → Type 0
      E e v = Lost w.db v.db

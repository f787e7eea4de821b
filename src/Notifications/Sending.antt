-- ===== src/Notifications/Sending.antt =====
-- What the methods of internal/service/notification_service.go do to the tables, on every branch.
use w1t.Base.{
  ℕ, String, Bool, true, false, not, ◌&&◌, ◌≡◌, sym, ap, subst, ◌∙◌, ◌⊎◌, inl, inr, some, arith,
  find, update, ◌==◌,
}
use w1t.Errors.{Error, sentinel, plain, not_found}
use w1t.Model.Notification.{Notification, NotificationTemplate, NotificationPreferences, Params}
use w1t.World.{World, Database}
use w1t.Action.Rules.{
  Ends, Same, Answers, Ends-mono, proceed-Ends, recover-Ends, query-Ends, found-Ends, fail_if-Ends,
  read-Answers,
}
use w1t.Notifications.Store.{
  get_preferences, or_default, is_for, get_template_by_slug, has_slug, create, insert_notification,
  new_notification, get_by_id, has_id, has_template, set_pending, set_read, mark_read,
  reset_to_pending,
}
use w1t.Notifications.Preferences.{Muted, is_muted-Muted, Muted-is_muted}
use w1t.Notifications.Service.{
  is_muted, render_template, send, send_wanted, unless_muted, get_own, has_failed, retry,
  mark_own_read,
}

-- The new row of the notification, for the template.
abbrev pub rendered : ℕ → NotificationTemplate → Params → Notification
rendered user t params =
    new_notification user t params (render_template t.title_template params)
      (render_template t.body_template params)

abbrev pub preferences_of : ℕ → Database → NotificationPreferences
preferences_of user d = or_default user (find (is_for user) d.preferences)

-- One more notification, which waits for its delivery.
abbrev pub Posts : ℕ → String → Params → Database → Database → Type 0
Posts user slug params d d' =
    (t : NotificationTemplate) × (at : ℕ) × (find (has_slug slug) d.templates ≡ some t)
    × (d' ≡ (insert_notification (rendered user t params) at d).1)

module _ (user : ℕ) (slug : String) (params : Params) where
  abbrev pub Sent : Database → Unit {0} → World → Type 0
  Sent d a v =
      (Muted (preferences_of user d) slug × (v.db ≡ d))
      ⊎ ((¬ Muted (preferences_of user d) slug) × Posts user slug params d v.db)

  create-Posts :
      (t : NotificationTemplate) (d : Database) (w : World)
      → w.db ≡ d
      → find (has_slug slug) d.templates ≡ some t
      → Ends
          (λ n v. Posts user slug params d v.db)
          (λ e v. v.db ≡ d)
          (create (rendered user t params) w)
  unfolding create
  create-Posts t d w at h =
      query-Ends (λ n v. Posts user slug params d v.db) (λ e v. v.db ≡ d) _ w (λ e v k. k ∙ at)
        (λ n v k. (
          t,
          w.now,
          h,
          subst (λ (b : Database). v.db ≡ (insert_notification (rendered user t params) w.now b).1)
              at (ground (arith, k)),
        ))

  send_wanted-Posts :
      (d : Database) (w : World)
      → w.db ≡ d
      → Ends
          (λ a v. Posts user slug params d v.db)
          (λ e v. v.db ≡ d)
          (send_wanted user slug params w)
  unfolding send_wanted get_template_by_slug
  send_wanted-Posts d w at =
      proceed-Ends (Answers (find (has_slug slug) w.db.templates) w.db) _ E _ _
        (recover-Ends _ (λ e. Same w.db e) E _ _
          (read-Answers (λ now d. find (has_slug slug) d.templates) w) (λ e v h. h ∙ at))
        λ row v answer.
          proceed-Ends (λ t u. (find (has_slug slug) d.templates ≡ some t) × (u.db ≡ d)) _ E _ _
            (found-Ends _ E row (plain _) v (λ h. answer.1 ∙ at)
              (λ t h. (
                ap (λ (b : Database). find (has_slug slug) b.templates) (sym at) ∙ sym answer.0 ∙ h,
                answer.1 ∙ at,
              )))
            λ t u h.
              proceed-Ends (λ n s. Posts user slug params d s.db) _ E _ _
                (recover-Ends _ E E _ _ (create-Posts t d u h.1 h.0) (λ e s k. k))
                λ n s posted. posted
    where
      E : Error → World → Type 0
      E e v = v.db ≡ d

  unless_muted-Sent :
      (b : Bool) (d : Database) (w : World)
      → is_muted (preferences_of user d) slug ≡ b
      → w.db ≡ d
      → Ends (Sent d) (λ e v. v.db ≡ d) (unless_muted b (send_wanted user slug params) w)
  unless_muted-Sent true d w h at = inl (is_muted-Muted (preferences_of user d) slug h, at)
  unless_muted-Sent false d w h at =
      Ends-mono (λ a v. Posts user slug params d v.db) {R = Sent d} (λ e v. v.db ≡ d)
        (send_wanted user slug params w) (λ a v p. inr (heard, p)) (λ e v k. k)
        (send_wanted-Posts d w at)
    where
      heard : ¬ Muted (preferences_of user d) slug
      heard m =
          let on : is_muted (preferences_of user d) slug ≡ true =
            Muted-is_muted (preferences_of user d) slug m in
          absurd (ground (arith, on, h))

  -- Whatever calls fail: an event that the user has switched off, or that a subscription to statuses
  -- leaves out, changes nothing; any other adds exactly one pending notification, rendered from
  -- the template of the slug; and an error changes nothing.
  pub send-Sent : (w : World) → Ends (Sent w.db) (λ e v. v.db ≡ w.db) (send user slug params w)
  unfolding send get_preferences
  send-Sent w =
      proceed-Ends (Answers (preferences_of user w.db) w.db) (Sent w.db) (λ e v. v.db ≡ w.db) _ _
        (recover-Ends _ (λ e. Same w.db e) (λ e v. v.db ≡ w.db) _ _
          (read-Answers (λ now d. or_default user (find (is_for user) d.preferences)) w)
          (λ e v h. h))
        λ prefs v answer.
          unless_muted-Sent (is_muted prefs slug) w.db v
            (ap (λ (p : NotificationPreferences). is_muted p slug) (sym answer.0)) answer.1

-- The notification of the id, which is the user's.
abbrev pub Owns : ℕ → ℕ → Notification → Database → Type 0
Owns id user n d =
    (find (λ m. has_id id m && has_template d m) d.notifications ≡ some n) × (n.user_id ≡ user)

module _ (id user : ℕ) (w : World) where
  abbrev E : Error → World → Type 0
  E e v = v.db ≡ w.db

  get_own-Owns : Ends (λ n v. Owns id user n w.db × (v.db ≡ w.db)) E (get_own id user w)
  unfolding get_own get_by_id
  get_own-Owns =
      proceed-Ends
        (Answers (find (λ m. has_id id m && has_template w.db m) w.db.notifications) w.db) _ E _ _
        (read-Answers (λ now d. find (λ m. has_id id m && has_template d m) d.notifications) w)
        λ row v answer.
          proceed-Ends
            (λ n u.
              (find (λ m. has_id id m && has_template w.db m) w.db.notifications ≡ some n)
              × (u.db ≡ w.db))
            _ E _ _
            (found-Ends _ E row (sentinel not_found "") v (λ h. answer.1)
              (λ n h. (sym answer.0 ∙ h, answer.1)))
            λ n u h.
              proceed-Ends (λ a s. (n.user_id ≡ user) × (s.db ≡ w.db)) _ E _ _
                (fail_if-Ends _ E (not (n.user_id == user)) _ u (λ k. h.1)
                  (λ k. (ground arith, h.1)))
                λ a s k. ((h.0, k.0), k.1)

  -- A retry is asked for by the owner alone, of a notification that failed; then its rows, and nothing
  -- else, become pending with no time set. An error changes nothing.
  pub retry-Resets :
      Ends
        (λ a v.
          (n : Notification) × Owns id user n w.db
          × (has_failed n.status ≡ true)
          × (v.db
              ≡ record w.db { notifications = update (has_id id) set_pending w.db.notifications }))
        (λ e v. v.db ≡ w.db)
        (retry id user w)
  unfolding retry reset_to_pending
  retry-Resets =
      proceed-Ends (λ n v. Owns id user n w.db × (v.db ≡ w.db)) R E _ _ get_own-Owns
        λ n v h.
          proceed-Ends (λ a u. (has_failed n.status ≡ true) × (u.db ≡ w.db)) R E _ _
            (fail_if-Ends _ E (not (has_failed n.status)) _ v (λ k. h.1) (λ k. (ground arith, h.1)))
            λ a u k.
              query-Ends R E _ u (λ e s q. q ∙ k.1)
                (λ x s q. (
                  n,
                  h.0,
                  k.0,
                  subst
                      (λ (b : Database). s.db ≡ record b {
                        notifications = update (has_id id) set_pending b.notifications;
                      })
                      k.1 (ground (arith, q)),
                ))
    where
      R : Unit {0} → World → Type 0
      R a v =
          (n : Notification) × Owns id user n w.db
          × (has_failed n.status ≡ true)
          × (v.db
              ≡ record w.db { notifications = update (has_id id) set_pending w.db.notifications })

  -- A notification is marked as read by its owner alone; an error changes nothing.
  pub mark_own_read-Reads :
      Ends
        (λ a v.
          (n : Notification) × Owns id user n w.db
          × (v.db ≡ record w.db { notifications = update (has_id id) set_read w.db.notifications }))
        (λ e v. v.db ≡ w.db)
        (mark_own_read id user w)
  unfolding mark_own_read mark_read
  mark_own_read-Reads =
      proceed-Ends (λ n v. Owns id user n w.db × (v.db ≡ w.db)) R E _ _ get_own-Owns
        λ n v h.
          query-Ends R E _ v (λ e s q. q ∙ h.1)
            (λ x s q. (
              n,
              h.0,
              subst
                  (λ (b : Database).
                    s.db ≡ record b { notifications = update (has_id id) set_read b.notifications })
                  h.1 (ground (arith, q)),
            ))
    where
      R : Unit {0} → World → Type 0
      R a v =
          (n : Notification) × Owns id user n w.db
          × (v.db ≡ record w.db { notifications = update (has_id id) set_read w.db.notifications })

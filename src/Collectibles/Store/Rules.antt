-- ===== src/Collectibles/Store/Rules.antt =====
-- What the methods of collectible_store.go that orders call do to the tables.
use w1t.Base.{ℕ, ◌≡◌, find, arith, ◌++◌, [], ◌∷◌}
use w1t.Model.Collectible.{CollectibleTxHistory}
use w1t.World.{World}
use w1t.Action.Rules.{Ends, Same, Answers, query-Ends, read-Answers}
use w1t.Collectibles.Store.{has_id, get_by_id, record_tx_history}

pub get_by_id-Answers :
    (id : ℕ) (w : World)
    → Ends (Answers (find (has_id id) w.db.collectibles) w.db) (λ e. Same w.db e) (get_by_id id w)
unfolding get_by_id
get_by_id-Answers id w = read-Answers (λ now d. find (has_id id) d.collectibles) w

pub record_tx_history-Appends :
    (h : CollectibleTxHistory) (w : World)
    → Ends
        (λ a v. v.db ≡ record w.db { tx_history = w.db.tx_history ++ (h ∷ []) })
        (λ e. Same w.db e)
        (record_tx_history h w)
unfolding record_tx_history
record_tx_history-Appends h w =
    query-Ends (λ a v. v.db ≡ record w.db { tx_history = w.db.tx_history ++ (h ∷ []) })
      (λ e. Same w.db e) _ w (λ e v h. h) (λ a v h. ground arith)

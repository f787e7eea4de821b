-- ===== src/Orders/Tests.antt =====
-- Runs of the order service on a small shop, and its theorems at concrete inputs.
use w1t.Base.{◌≤◌, ◌≡◌, refl, List, [], ◌∷◌, none, some, arith, find, count, str_eq}
use w1t.Errors.{oversold}
use w1t.Model.Order.{Fulfillment, Order, OrderStatus, pending, confirmed, completed, cancelled}
use w1t.Model.Collectible.{Collectible, published}
use w1t.World.{World, Database}
use w1t.Samples.{test_env, empty_tables}
use w1t.Action.{Result, ok, world_of, query, proceed, recover, spawn, transaction}
use w1t.Action.Rules.{Ends}
use w1t.Experiments.{
  emit_event, emit_for, resolve_ab_variant, resolve_for, list_running_ab_tests, join,
}
use w1t.Collectibles.Store.{get_by_id as get_collectible}
use w1t.Orders.Store.{
  set_fulfillment, has_id, is_active_for, get_by_idempotency_key, has_active_order,
  acquire_advisory_lock, begin_tx, commit, create_in_tx, record_transition,
}
use w1t.Orders.Service.{fulfill, place_order, create_new, create, transition_status, approve_refund}
use w1t.Orders.Store.Rules.{Rewrites}
use w1t.Orders.Refusals.{Verdict}
use w1t.Orders.Verdict.{refusal, create-Verdict}
use w1t.Orders.StepVerdict.{step_refusal, transition_status-Verdict}
use w1t.Orders.Invariant.{Inv}
use w1t.Orders.Evolution.{Evolves}
use w1t.Orders.Create.{Creates, create-Creates}
use w1t.Orders.Transition.{Transitions, transition_status-Transitions}
use w1t.Orders.Aftercare.{Finds, IsClosed, approve_refund-Approves, fulfill-Tracks}
use w1t.Orders.History.{here, next, serve, creates, transitions, run}
use w1t.Orders.Promises.{never_oversold, order_persists, closed_for_good, Repeats, create_again}

-- Seller 1 offers collectible 7 for 500 cents.
abbrev card : Collectible
card = record {
  id = 7;
  seller_id = 1;
  title = "card";
  description = "";
  contract_address = "0xabc";
  chain_id = 1;
  token_id = "3";
  metadata_uri = "";
  image_url = "";
  price_cents = 500;
  currency = "USD";
  status = published;
  hidden_by = none;
  hidden_reason = "";
  view_count = 0;
  created_at = 0;
  updated_at = 0;
}

abbrev tables : List Order → Database
tables orders = record empty_tables { orders = orders; collectibles = card ∷ [] }

abbrev shop : List Order → World
shop orders = record {
  env = test_env;
  now = 50;
  faults = [];
  db = tables orders;
  cache = [];
  tasks = [];
}

-- What buyer 2 buys.
abbrev sale : OrderStatus → Order
sale s = record {
  id = 100;
  idempotency_key = "k";
  buyer_id = 2;
  collectible_id = 7;
  seller_id = 1;
  status = s;
  price_snapshot_cents = 500;
  cancellation_reason = "";
  cancelled_by = none;
  fulfillment_tracking = none;
  created_at = 50;
  updated_at = 50;
}

abbrev old_sale : OrderStatus → Order
old_sale s = record (sale s) { id = 90 }

-- The runs of the tests.
abbrev first_sale : Result Order
first_sale = create 7 2 "k" (shop [])

first_sale-answer : first_sale ≡ ok (sale pending) (world_of first_sale)
unfolding create create_new place_order get_by_idempotency_key get_collectible has_active_order
    acquire_advisory_lock begin_tx commit create_in_tx record_transition query proceed recover spawn
    transaction emit_event emit_for resolve_ab_variant resolve_for list_running_ab_tests join str_eq
first_sale-answer = refl

-- One order in the table, under the key "k".
abbrev busy : OrderStatus → World
busy s = shop (old_sale s ∷ [])

busy-Inv : (s : OrderStatus) → Inv (busy s).db
unfolding str_eq
busy-Inv s = record {
  below = (omega arith, tt);
  distinct = (tt, tt);
  one_active = λ c. ground arith;
  one_key = λ b k. ground arith;
}

empty-Inv : Inv (shop []).db
empty-Inv = record {
  below = tt;
  distinct = tt;
  one_active = λ c. omega arith;
  one_key = λ b k. omega arith;
}

create-Creates_example : Creates 7 2 "k" (shop []).db (create 7 2 "k" (shop []))
create-Creates_example = create-Creates 7 2 "k" (shop [])

transition_status-Transitions_example :
    Transitions 90 confirmed 1 ""
      (busy pending).db
      (transition_status 90 confirmed 1 "" (busy pending))
transition_status-Transitions_example =
    transition_status-Transitions 90 confirmed 1 "" (busy pending)

approve_refund-Approves_example :
    Ends
      (λ o v.
        Finds 90 o (busy completed).db
        × (o.seller_id ≡ 1)
        × IsClosed o
        × (v.db ≡ (busy completed).db))
      (λ e v. v.db ≡ (busy completed).db)
      (approve_refund 90 1 "broken" (busy completed))
approve_refund-Approves_example = approve_refund-Approves 90 1 "broken" (busy completed)

never_oversold_example :
    count (is_active_for 7) (run (creates 7 3 "j") (run (creates 7 2 "k") (shop []))).db.orders ≤ 1
never_oversold_example =
    never_oversold (shop []) _ refl
      (next (next here (serve (creates 7 2 "k"))) (serve (creates 7 3 "j"))) 7

order_persists_example :
    (p : Order) × (find (has_id 90) (run (transitions 90 confirmed 1 "") (busy pending)).db.orders
      ≡ some p)
    × Evolves (old_sale pending) p
order_persists_example =
    order_persists (busy pending) _ 90 (old_sale pending) (busy-Inv pending)
      (next here (serve (transitions 90 confirmed 1 ""))) refl

closed_for_good_example :
    (p : Order) × (find (has_id 90) (run (transitions 90 confirmed 1 "") (busy completed)).db.orders
      ≡ some p)
    × (completed ≡ completed → p.status ≡ completed)
    × (completed ≡ cancelled → p.status ≡ cancelled)
closed_for_good_example =
    closed_for_good (busy completed) _ 90 (old_sale completed) (busy-Inv completed)
      (next here (serve (transitions 90 confirmed 1 ""))) refl

create_again_example :
    Repeats 2 "k"
      (sale pending)
      (run (transitions 100 confirmed 1 "") (world_of first_sale))
      (create 8 2 "k" (run (transitions 100 confirmed 1 "") (world_of first_sale)))
create_again_example =
    create_again (shop []) (world_of first_sale) _ 7 8 2 "k" (sale pending) empty-Inv
      first_sale-answer (next here (serve (transitions 100 confirmed 1 "")))

create-Verdict_example : Verdict (refusal 7 3 (busy pending).db) (create 7 3 "j" (busy pending))
create-Verdict_example = create-Verdict 7 3 "j" (busy pending) refl refl

-- The collectible is taken.
busy-refusal : refusal 7 3 (busy pending).db ≡ some oversold
busy-refusal = refl

transition_status-Verdict_example :
    Verdict
      (step_refusal (some (old_sale pending)) completed 1)
      (transition_status 90 completed 1 "" (busy pending))
transition_status-Verdict_example = transition_status-Verdict 90 completed 1 "" (busy pending) refl

abbrev parcel : Fulfillment
parcel = record { carrier = "post"; tracking_number = "42" }

fulfill-Tracks_example :
    Ends
      (λ a v.
        (o : Order) × Finds 90 o (busy confirmed).db
        × (o.seller_id ≡ 1)
        × Rewrites 90 (set_fulfillment parcel) (busy confirmed).db v.db)
      (λ e v. v.db ≡ (busy confirmed).db)
      (fulfill 90 parcel 1 (busy confirmed))
fulfill-Tracks_example = fulfill-Tracks 90 1 parcel (busy confirmed)

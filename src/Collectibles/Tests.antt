-- ===== src/Collectibles/Tests.antt =====
-- Runs of the collectible service, and its theorems at concrete inputs.
use w1t.Collectibles.Service.{list_collectibles}
use w1t.Collectibles.Listing.{MaySee}
use w1t.Base.{All, ◌≡◌, refl, [], ◌∷◌, none, str_eq, starts_with}
use w1t.Errors.{sentinel, not_found}
use w1t.Model.Collectible.{Collectible, CollectibleStatus, published}
use w1t.World.{World}
use w1t.Samples.{empty_tables, at_rest, unary, unary_injective}
use w1t.Action.{query, proceed, recover, spawn}
use w1t.Action.Rules.{Ends}
use w1t.Cache.{get as cache_get, set as cache_set, delete, delete_prefix}
use w1t.Collectibles.Store.{get_by_id, hide}
use w1t.Collectibles.Service.{
  get_collectible, read_collectible, store_in_cache, hide_collectible, existing, invalidate_cache,
}
use w1t.Collectibles.Coherence.{IsCoherent}
use w1t.Collectibles.Upkeep.{Keeps}
use w1t.Collectibles.Visibility.{Visible, get_collectible-Shows}
use w1t.Collectibles.History.{start, serve, shows, hides, run, never_shown_hidden}

abbrev vase : CollectibleStatus → Collectible
vase s = record {
  id = 4;
  seller_id = 1;
  title = "vase";
  description = "";
  contract_address = "";
  chain_id = 1;
  token_id = "t";
  metadata_uri = "";
  image_url = "";
  price_cents = 500;
  currency = "USD";
  status = s;
  hidden_by = none;
  hidden_reason = "";
  view_count = 0;
  created_at = 0;
  updated_at = 0;
}

abbrev gallery : World
gallery = at_rest (record empty_tables { collectibles = vase published ∷ [] })

-- The vase is shown, which caches it, and hidden; then the public is told that there is none.
hidden_at_once :
    Ends
      (λ c v. ⊥)
      (λ e v. e ≡ sentinel not_found "")
      (get_collectible 4 [] (run (hides 4 "fake" 9) (run (shows 4 []) gallery)))
unfolding get_collectible read_collectible store_in_cache hide_collectible existing invalidate_cache
    run get_by_id hide query proceed recover spawn cache_get cache_set delete delete_prefix
    starts_with str_eq
hidden_at_once = refl

get_collectible-Shows_example :
    Ends (λ c v. Visible 4 [] gallery.db c × IsCoherent v) Keeps (get_collectible 4 [] gallery)
get_collectible-Shows_example = get_collectible-Shows 4 [] gallery unary_injective tt

abbrev shown_once : World
shown_once = run (shows 4 []) gallery

shown_once-env : shown_once.env.uuid_string ≡ unary
unfolding get_collectible read_collectible store_in_cache run get_by_id query proceed recover spawn
    cache_get cache_set delete str_eq
shown_once-env = refl

abbrev hidden_later : World
hidden_later = run (hides 4 "fake" 9) shown_once

hidden_later-env : hidden_later.env.uuid_string ≡ unary
unfolding get_collectible read_collectible store_in_cache hide_collectible existing invalidate_cache
    run get_by_id hide query proceed recover spawn cache_get cache_set delete delete_prefix
    starts_with str_eq
hidden_later-env = refl

-- Somebody asks for the vase, and for the hidden ones.
never_shown_hidden_example :
    Ends (λ c v. Visible 4 [] hidden_later.db c) (λ e v. Unit) (get_collectible 4 [] hidden_later)
    × Ends
        (λ r v. All (MaySee [] hidden_later.db.collectibles) r.0)
        (λ e v. Unit)
        (list_collectibles "hidden" 1 20 [] none hidden_later)
never_shown_hidden_example =
    never_shown_hidden unary hidden_later 4 [] "hidden" 1 20 none unary_injective hidden_later-env (
      serve shown_once (hides 4 "fake" 9) shown_once-env
        (serve gallery (shows 4 []) refl (start gallery refl refl)))

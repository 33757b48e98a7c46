-- ===== src/Runtime/Failing.antt =====
-- When a runtime is not made.
use strawberry_background.Prelude.{String, true, false, ◌≡◌, ◌⊎◌, Option, none, some, [], unwrap_or}
use strawberry_background.Endpoint.{network}
use strawberry_background.Client.{HttpConfig}
use strawberry_background.Client.Parameters.{has_good_proxy}
use strawberry_background.Rkv.{RkvService}
use strawberry_background.Rkv as Rkv
use strawberry_background.Rkv.Stores.{CanOpen}
use strawberry_background.Runtime.{
  store_opened, filled, new_factory, create_channels, empty_factory, Libraries, World,
  FileCacheConfig, InitError, panicked_at_start, http_client_init, store_opened, filled,
  new_factory,
}

module _ (G : Libraries) where
  -- There is a configuration for the client, without a bad proxy, and the client is refused.
  abbrev pub IsClientRefused : Option HttpConfig → InitError → Type 0
  IsClientRefused none e = ⊥
  IsClientRefused (some config) e =
      (has_good_proxy G.encoding G.urls G.cookies G.reqwest config.all_proxy ≡ true)
      × ((x : String) × (G.reqwest.client_fault ≡ some x) × (e ≡ http_client_init (network x)))

  -- There is a configuration for the client, with a proxy that reqwest does not take.
  abbrev pub IsClientPanicked : Option HttpConfig → Type 0
  IsClientPanicked none = ⊥
  IsClientPanicked (some config) =
      has_good_proxy G.encoding G.urls G.cookies G.reqwest config.all_proxy ≡ false

  -- The service in `RKV_SERVICE` is there, and opens the store for the factory.
  abbrev pub StoreOpens : World G → Option RkvService → Type 0
  StoreOpens w none = ⊥
  StoreOpens w (some service) = CanOpen service w.factory_opening

  -- There is a configuration for the file cache, and its factory cannot open the store, or the making
  -- of one of its managers panics.
  abbrev pub IsCachePanicked : World G → Option FileCacheConfig → Type 0
  IsCachePanicked w none = ⊥
  IsCachePanicked w (some config) =
      (¬ StoreOpens w w.rkv_service)
      ⊎ (StoreOpens w w.rkv_service
          × (create_channels G w config (unwrap_or config.channels []) (empty_factory G w)
              ≡ panicked_at_start))

  -- No error and no panic of the client stops the start.
  abbrev pub IsClientMade : Option HttpConfig → Type 0
  IsClientMade none = Unit
  IsClientMade (some config) =
      (has_good_proxy G.encoding G.urls G.cookies G.reqwest config.all_proxy ≡ true)
      × (G.reqwest.client_fault ≡ none)

-- ===== src/Rkv.antt =====
-- rkv/rkv_impl.rs: the store in which the channels of the file cache are kept as bytes. The crate
-- rkv is a map of values by key; what it and the file system refuse is given, and so are the bytes
-- of the crate rkyv. An environment is a handle, a store its name.
pub mod Stores
pub mod Keeping
pub mod Channels
use Prim.Native.String.{◌++◌ as ◌<>◌}
use strawberry_background.Prelude.{
  ℕ, String, String-eq, Bool, true, false, Option, none, some, List, Result, ok, err,
}
use strawberry_background.Prelude.Map.{HashMap}
use strawberry_background.Cache.{CacheChannel}

-- What a call comes to, a panic included.
pub data Answer (A : Type 0) : Type 0 where
  done : A → Answer A
  failed : String → Answer A
  panicked : Answer A

-- The values of rkv that the code tells apart.
pub data Value : Type 0 where
  blob : List ℕ → Value
  other : Value

pub record RkvService : Type 0 where
  pub main_path : String
  pub env : Option ℕ

pub new : String → RkvService
new main_path = record { main_path = main_path; env = none }

-- `RKV_SERVICE`, whose lock may be poisoned.
unfoldable pub initialize_rkv : Bool → String → Option RkvService → Option RkvService
unfolding new
initialize_rkv true main_path service = service
initialize_rkv false main_path (some service) = some service
initialize_rkv false main_path none = some (new main_path)

-- What opening a store finds: refusals, and the environment that the manager of rkv hands out.
pub record Opening : Type 0 where
  pub directory : Option String
  pub manager : Option String
  pub created : Option ℕ
  pub poisoned : Bool
  pub opened : Option String

made : Option String → Option String → Option ℕ → Answer ℕ
made (some e) manager created = failed e
made none (some e) created = failed e
made none none none = panicked
made none none (some env) = done env

env_of : Option ℕ → Opening → Answer ℕ
unfolding made
env_of (some env) w = done env
env_of none w = made w.directory w.manager w.created

open_single : Bool → Option String → String → Answer String
open_single true fault name = panicked
open_single false (some e) name = failed e
open_single false none name = done name

store_opened : Answer ℕ → String → Opening → RkvService → RkvService × Answer String
unfolding open_single
store_opened (failed e) name w self = (self, failed e)
store_opened panicked name w self = (self, panicked)
store_opened (done env) name w self =
    (record self { env = some env }, open_single w.poisoned w.opened name)

unfoldable pub init_db : String → Opening → RkvService → RkvService × Answer String
unfolding env_of store_opened
init_db name w self = store_opened (env_of self.env w) name w self

-- What a call on an open store finds: a poisoned lock, and what the steps of a transaction refuse.
pub record Faults : Type 0 where
  pub poisoned : Bool
  pub begun : Option String
  pub accessed : Option String
  pub committed : Option String

module _ (V : HashMap String Value String-eq) (to_bytes : CacheChannel → Result (List ℕ) String)
    (from_bytes : List ℕ → Result CacheChannel String) where
  pub transaction :
      Option String → Option String → Option String → V.Map → V.Map → V.Map × Answer (Unit {0})
  transaction (some e) put commit next store = (store, failed e)
  transaction none (some e) commit next store = (store, failed e)
  transaction none none (some e) next store = (store, failed e)
  transaction none none none next store = (next, done tt)

  pub write_in : Option ℕ → Bool → Faults → V.Map → V.Map → V.Map × Answer (Unit {0})
  unfolding transaction
  write_in none poisoned w next store = (store, panicked)
  write_in (some env) true w next store = (store, panicked)
  write_in (some env) false w next store = transaction w.begun w.accessed w.committed next store

  pub write_bytes :
      Result (List ℕ) String → String → Faults → RkvService → V.Map → V.Map × Answer (Unit {0})
  unfolding write_in
  write_bytes (err e) key w self store = (store, failed ("rkyv serialization failed: " <> e))
  write_bytes (ok bytes) key w self store =
      write_in self.env w.poisoned w (V.insert key (blob bytes) store) store

  unfoldable pub write_rkyv_cache_channel_data :
      String → CacheChannel → Faults → RkvService → V.Map → V.Map × Answer (Unit {0})
  unfolding write_bytes
  write_rkyv_cache_channel_data key data' w self store =
      write_bytes (to_bytes data') key w self store

  pub parsed : Result CacheChannel String → Answer (Option CacheChannel)
  parsed (err e) = failed e
  parsed (ok archived) = done (some archived)

  pub read_value : Option Value → Answer (Option CacheChannel)
  unfolding parsed
  read_value none = done none
  read_value (some (blob bytes)) = parsed (from_bytes bytes)
  read_value (some other) = failed "unknown type"

  pub read_at : Option String → Option String → Option Value → Answer (Option CacheChannel)
  unfolding read_value
  read_at (some e) accessed found = failed e
  read_at none (some e) found = failed e
  read_at none none found = read_value found

  pub read_in : Option ℕ → Bool → Faults → Option Value → Answer (Option CacheChannel)
  unfolding read_at
  read_in none poisoned w found = panicked
  read_in (some env) true w found = panicked
  read_in (some env) false w found = read_at w.begun w.accessed found

  unfoldable pub read_rkyv_cache_channel_data :
      String → Faults → RkvService → V.Map → Answer (Option CacheChannel)
  unfolding read_in
  read_rkyv_cache_channel_data key w self store = read_in self.env w.poisoned w (V.get key store)

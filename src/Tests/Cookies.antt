-- ===== src/Tests/Cookies.antt =====
-- Cookies, subscribers and keyed locks.
use mathlib.Core.List.{Permᴰ, Perm}
use strawberry_background.Prelude.{
  ℕ, ◌+◌, String-eq, true, false, ◌≡◌, ◌↔◌, ◌⊎◌, refl, none, some, [], ◌∷◌, ok, In, if◌then◌else◌,
  ◌==◌, leb,
}
use strawberry_background.Prelude.Text.{ascii}
use strawberry_background.Prelude.Map.Assoc.{assoc}
use strawberry_background.Prelude.Map.Collect.{keep, empty-IsKeyed}
use strawberry_background.Url.{extract_domain, normalize_domain}
use strawberry_background.Storage.{complete, finished}
use strawberry_background.Cookie.{
  Cookie, CookieKey, CookieKey-eq, CookieConfig, FileBackedCookieStore, get, set, get_for_domain,
  get_for_url, is_expired, passed,
}
use strawberry_background.Cookie
use strawberry_background.Cookie.Store.{IsKeyedStore, get-set, after_set, set-IsKeyed}
use strawberry_background.Cookie.Sent.{In-get_for_domain}
use strawberry_background.Cookie.File.{key_of, is_kept, persist, new, new_store}
use strawberry_background.Cookie.File.Reload.{get-new-persist, printed}
use strawberry_background.Cookie.File.Changes.{
  changes, setting, clearing, changes-new_store-IsKeyed,
}
use strawberry_background.Client.{extract_cookies, received_cookie}
use strawberry_background.Client.Session.{extract_cookies-get_for_url}
use strawberry_background.Monitor.{
  MpscMonitorBackend, MonitorEvent, storage, send, subscribe, cancel,
}
use strawberry_background.Monitor.Delivery.{send-subscribe}
use strawberry_background.KeyedLock.{KeyedRwLock, read, write}
use strawberry_background.KeyedLock.Cleanup.{IsUnshared, current, read-write}
use strawberry_background.Tests.Libraries.{
  encoding, urls, reqwest, response, session_cookie, tables, json, json-IsFaithful,
}

abbrev config : CookieConfig
config = record {
  cookie_path = some "cookies";
  debounce_delay = 0;
  auto_save_interval = none;
  initial_cookies = none;
}

abbrev Store : Type 0
Store = FileBackedCookieStore assoc

abbrev fresh : Store
fresh = record {
  cookies = (assoc {K = CookieKey} {V = Cookie}).empty;
  session_cookies = (assoc {K = CookieKey} {V = Cookie}).empty;
  config = config;
  storage_path = some "cookies";
  dirty = false;
}

fresh-IsKeyed : IsKeyedStore assoc fresh
fresh-IsKeyed = (empty-IsKeyed assoc key_of, empty-IsKeyed assoc key_of)

abbrev lasting : Cookie
lasting = record {
  key = record { domain = ascii "a.org"; path = []; name = [] };
  value = [];
  expires = some 50;
  creation_time = 3;
  last_access_time = 3;
  secure = false;
  http_only = false;
  same_site = none;
  persistent = true;
}

abbrev passing : Cookie
passing = record lasting { value = ascii "new"; expires = none; persistent = false }

-- A session cookie hides behind a persistent one of its key.
hidden : get assoc 10 passing.key (set assoc passing (set assoc lasting fresh)) ≡ some lasting
unfolding get set is_expired
hidden = refl

get-set_example : get assoc 60 lasting.key (set assoc passing (set assoc lasting fresh)) ≡ (
    if passing.key == lasting.key
    then after_set assoc 60 passing (set assoc lasting fresh)
    else get assoc 60 lasting.key (set assoc lasting fresh))
get-set_example = get-set assoc 60 passing (set assoc lasting fresh) lasting.key

In-get_for_domain_example :
    In lasting (get_for_domain assoc 60 (ascii "a.org") (set assoc lasting fresh)) ↔ (
      (lasting.key.domain ≡ ascii "a.org")
      × (((assoc.get lasting.key (set assoc lasting fresh).cookies ≡ some lasting)
            × (passed 60 lasting.expires ≡ false))
          ⊎ (assoc.get lasting.key (set assoc lasting fresh).session_cookies ≡ some lasting)))
In-get_for_domain_example =
    In-get_for_domain assoc 60 (ascii "a.org") (set assoc lasting fresh) lasting
      (set-IsKeyed assoc lasting fresh fresh-IsKeyed)

saved : (set assoc lasting fresh).storage_path ≡ some "cookies"
unfolding set
saved = refl

printed_once :
    printed assoc assoc json 20 (set assoc lasting fresh) ≡ ok (20 ∷ 50 ∷ 3 ∷ 3 ∷ ascii "a.org")
unfolding set
printed_once = refl

get-new-persist_example :
    (store : Store) × (new assoc assoc json 40 none
        (persist assoc assoc json 20 complete (set assoc lasting fresh) assoc.empty).0
        config
      ≡ ok store)
    × ((k : CookieKey)
        → get assoc 40 k store
          ≡ keep assoc key_of (is_kept 40) (assoc.get k (set assoc lasting fresh).cookies))
get-new-persist_example =
    get-new-persist assoc assoc json 20 40 (set assoc lasting fresh) "cookies"
      (20 ∷ 50 ∷ 3 ∷ 3 ∷ ascii "a.org") assoc.empty config json-IsFaithful saved refl printed_once
      (set-IsKeyed assoc lasting fresh fresh-IsKeyed).0

changes-new_store-IsKeyed_example : IsKeyedStore assoc (
    changes assoc tables.files json
      (setting lasting ∷ setting passing ∷ clearing ∷ setting lasting ∷ [])
      (new_store assoc tables.files json config))
changes-new_store-IsKeyed_example =
    changes-new_store-IsKeyed assoc tables.files json config
      (setting lasting ∷ setting passing ∷ clearing ∷ setting lasting ∷ [])

known_host : extract_domain urls (ascii "http://a.org/x") ≡ ok (ascii "a.org")
unfolding extract_domain normalize_domain
known_host = refl

extract_cookies-get_for_url_example :
    (after : Store) × (extract_cookies encoding urls assoc (reqwest none) 3 response (some fresh)
      ≡ some after)
    × In
        (received_cookie encoding urls assoc
          (reqwest none)
          3
          (ascii "a.org")
          (ascii "/")
          session_cookie)
        (get_for_url assoc urls 40 (ascii "http://a.org/x") after)
extract_cookies-get_for_url_example =
    extract_cookies-get_for_url encoding urls assoc (reqwest none) 3 40 response (ascii "a.org")
      (ascii "http://a.org/x") [] session_cookie fresh fresh-IsKeyed refl refl known_host refl

-- A host that begins with www. is stored as it is, and looked up without.
www_lost :
    get_for_url assoc urls 40 (ascii "http://www.a.org/x") (
      set assoc
        (received_cookie encoding urls assoc
          (reqwest none)
          3
          (ascii "www.a.org")
          (ascii "/")
          session_cookie)
        fresh)
    ≡ []
unfolding get_for_url extract_domain normalize_domain set get_for_domain received_cookie Cookie.new
www_lost = refl

abbrev audience : MpscMonitorBackend assoc
audience = record {
  alive = true;
  subscribers = assoc.insert "a" (record { id = "a"; callback = 1 }) assoc.empty;
}

abbrev saved_event : MonitorEvent
saved_event = storage finished (ascii "f") none

send-subscribe_example :
    ((subscribe assoc "b" 2 audience).1 ≡ ok (record { id = "b"; callback = 2 }))
    × Permᴰ
        (send assoc saved_event (subscribe assoc "b" 2 audience).0)
        ((2, saved_event) ∷ send assoc saved_event audience)
    × Perm
        (send assoc saved_event
          (cancel assoc (record { id = "b"; callback = 2 }) (subscribe assoc "b" 2 audience).0))
        (send assoc saved_event audience)
send-subscribe_example = send-subscribe assoc "b" 2 audience saved_event refl refl

abbrev nothing : ℕ
nothing = 0

abbrev locks : KeyedRwLock nothing assoc
locks = record { cumulative_cleanup = 30; locks = assoc.empty }

locks-IsUnshared : IsUnshared nothing assoc locks
locks-IsUnshared k lock e = cc e

read-write_example :
    (read nothing assoc "k" (λ n. n + 1) (write nothing assoc "k" (λ n. (n, n + 5)) locks).1).0
    ≡ (if leb 32 ((write nothing assoc "k" (λ n. (n, n + 5)) locks).1.cumulative_cleanup + 1)
        then nothing
        else current nothing assoc "k" locks + 5)
      + 1
read-write_example =
    read-write nothing assoc "k" (λ n. (n, n + 5)) (λ n. n + 1) locks locks-IsUnshared

-- The read is the 32nd call, and what was written is gone.
written_lost :
    (read nothing assoc "k" (λ n. n) (write nothing assoc "k" (λ n. (n, 5)) locks).1).0 ≡ 0
unfolding read write
written_lost = refl

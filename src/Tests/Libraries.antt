-- ===== src/Tests/Libraries.antt =====
-- Small libraries in place of the crates.
use strawberry_background.Prelude.{
  ℕ, zero, suc, String, String-eq, Bool, true, false, ◌≡◌, ◌||◌, refl, ap, sym, Option, none, some,
  List, [], ◌∷◌, ◌++◌, Result, ok, err, ltb, leb, nat_eq, if◌then◌else◌, ok-injective,
}
use strawberry_background.Prelude.Text.{Text, ascii}
use strawberry_background.Prelude.Map.Assoc.{assoc}
use strawberry_background.Url.{PercentEncoding, UrlCrate, escape}
use strawberry_background.Cookie.{Cookie, SameSite, SerializableStore, Json}
use strawberry_background.Cookie.File.Reload.{IsFaithful}
use strawberry_background.Cache.{Tables}
use strawberry_background.Client.{Reqwest, Response, ResponseCookie, responded}
use strawberry_background.Progress.{ready, pending, item, end}

abbrev pub encode_all : Text → (ℕ → Bool) → Text
encode_all [] s = []
encode_all (b ∷ t) s = (if leb 128 b || s b then escape b else b ∷ []) ++ encode_all t s

abbrev pub encoding : PercentEncoding
encoding = record {
  AsciiSet = ℕ → Bool;
  controls = λ b. ltb b 32 || nat_eq b 127;
  add = λ b s c. nat_eq b c || s c;
  has = λ b s. s b;
  utf8_percent_encode = encode_all;
  has-controls = λ b. refl;
  has-add = λ b c s. refl;
  encode-nil = λ s. refl;
  encode-byte = λ b t s. refl;
}

-- The host between `://` and `/`, of a URL whose scheme is `http`.
abbrev pub host_from : ℕ → Text → Text
host_from skip [] = []
host_from (suc skip) (b ∷ t) = host_from skip t
host_from zero (b ∷ t) = elim (nat_eq b b'/') [ true ↦ [] | false ↦ b ∷ host_from 0 t ]

abbrev pub urls : UrlCrate
urls = record {
  Url = Text;
  parse = λ t. some t;
  host_str = λ t. some (host_from 7 t);
  path = λ t. ascii "/";
  parse_ip = λ t. none;
}

abbrev pub session_cookie : ResponseCookie
session_cookie = record {
  name = ascii "id";
  value = ascii "7";
  expires = some 90;
  secure = false;
  http_only = true;
  same_site_lax = true;
  same_site_strict = false;
}

abbrev pub response : Response
response = record {
  host_str = some (ascii "a.org");
  path = ascii "/";
  status = 200;
  headers = [];
  cookies = session_cookie ∷ [];
  content_length = some 2;
  polls = pending ∷ ready (1 ∷ 2 ∷ []) ∷ ready [] ∷ [];
  received = ok (1 ∷ 2 ∷ []);
  stream = item (ok (1 ∷ 2 ∷ [])) ∷ end ∷ end ∷ [];
}

abbrev pub reqwest : Option String → Reqwest
reqwest fault = record {
  client_fault = fault;
  is_proxy = λ proxy. true;
  header_fault = λ text. none;
  build_fault = λ draft. none;
  execute = λ draft. responded response;
}

abbrev pub tables : Tables
tables = record { files = assoc; records = assoc; channels = assoc }

-- Stores of one cookie of a simple shape, as text; others are refused.
abbrev print_fields :
    Text
    → Text
    → Text
    → Text
    → Option ℕ
    → ℕ
    → ℕ
    → Bool
    → Bool
    → Option SameSite
    → Bool
    → ℕ
    → Result Text String
print_fields domain [] [] [] (some e) c l false false none true saved =
    ok (saved ∷ e ∷ c ∷ l ∷ domain)
print_fields domain (b ∷ t) n v o c l secure http site persistent saved = err "refused"
print_fields domain [] (b ∷ t) v o c l secure http site persistent saved = err "refused"
print_fields domain [] [] (b ∷ t) o c l secure http site persistent saved = err "refused"
print_fields domain [] [] [] none c l secure http site persistent saved = err "refused"
print_fields domain [] [] [] (some e) c l true http site persistent saved = err "refused"
print_fields domain [] [] [] (some e) c l false true site persistent saved = err "refused"
print_fields domain [] [] [] (some e) c l false false (some s) persistent saved = err "refused"
print_fields domain [] [] [] (some e) c l false false none false saved = err "refused"

abbrev print_cookies : List Cookie → ℕ → Result Text String
print_cookies [] saved = err "refused"
print_cookies (c ∷ d ∷ rest) saved = err "refused"
print_cookies (c ∷ []) saved =
    print_fields c.key.domain c.key.path c.key.name c.value c.expires c.creation_time
      c.last_access_time c.secure c.http_only c.same_site c.persistent saved

abbrev parse_store : Text → Result SerializableStore String
parse_store (saved ∷ e ∷ c ∷ l ∷ domain) = ok (record {
  cookies =
      record {
        key = record { domain = domain; path = []; name = [] };
        value = [];
        expires = some e;
        creation_time = c;
        last_access_time = l;
        secure = false;
        http_only = false;
        same_site = none;
        persistent = true;
      }
      ∷ [];
  saved_at = saved;
})
parse_store [] = err "refused"
parse_store (a ∷ []) = err "refused"
parse_store (a ∷ b ∷ []) = err "refused"
parse_store (a ∷ b ∷ c ∷ []) = err "refused"

abbrev pub json : Json
json = record { to_string_pretty = λ s. print_cookies s.cookies s.saved_at; from_str = parse_store }

fields-faithful :
    (domain p n v : Text) (o : Option ℕ) (c l : ℕ) (secure http : Bool) (site : Option SameSite)
    (persistent : Bool) (saved : ℕ) (text : Text)
    → print_fields domain p n v o c l secure http site persistent saved ≡ ok text
    → parse_store text
      ≡ ok (record {
        cookies =
            record {
              key = record { domain = domain; path = p; name = n };
              value = v;
              expires = o;
              creation_time = c;
              last_access_time = l;
              secure = secure;
              http_only = http;
              same_site = site;
              persistent = persistent;
            }
            ∷ [];
        saved_at = saved;
      })
fields-faithful domain [] [] [] (some e) c l false false none true saved text h =
    ap parse_store (sym (ok-injective h))
fields-faithful domain (b ∷ t) n v o c l secure http site persistent saved text h = absurd (cc h)
fields-faithful domain [] (b ∷ t) v o c l secure http site persistent saved text h = absurd (cc h)
fields-faithful domain [] [] (b ∷ t) o c l secure http site persistent saved text h = absurd (cc h)
fields-faithful domain [] [] [] none c l secure http site persistent saved text h = absurd (cc h)
fields-faithful domain [] [] [] (some e) c l true http site persistent saved text h = absurd (cc h)
fields-faithful domain [] [] [] (some e) c l false true site persistent saved text h = absurd (cc h)
fields-faithful domain [] [] [] (some e) c l false false (some s) persistent saved text h =
    absurd (cc h)
fields-faithful domain [] [] [] (some e) c l false false none false saved text h = absurd (cc h)

pub json-IsFaithful : IsFaithful json
json-IsFaithful s text h = cookies_faithful s.cookies s.saved_at text h
  where
    cookies_faithful :
        (cs : List Cookie) (saved : ℕ) (text : Text)
        → print_cookies cs saved ≡ ok text
        → parse_store text ≡ ok (record { cookies = cs; saved_at = saved })
    cookies_faithful [] saved text h = absurd (cc h)
    cookies_faithful (c ∷ d ∷ rest) saved text h = absurd (cc h)
    cookies_faithful (c ∷ []) saved text h =
        fields-faithful c.key.domain c.key.path c.key.name c.value c.expires c.creation_time
          c.last_access_time c.secure c.http_only c.same_site c.persistent saved text h

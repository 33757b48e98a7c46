-- ===== src/Tests/Web.antt =====
-- Endpoints, the requests that they become, and readers.
use strawberry_background.Prelude.{true, false, ◌≡◌, ◌↔◌, refl, none, some, [], ◌∷◌, ok, arith}
use strawberry_background.Prelude.Text.{ascii}
use strawberry_background.Prelude.Map.Assoc.{assoc}
use strawberry_background.Url.{
  encode_component, encode_query_component, extract_domain, normalize_domain,
}
use strawberry_background.Url.Keeping.{
  escaped_but, is_kept, is_kept_in_query, encode_component-escaped_but,
}
use strawberry_background.Endpoint.{
  HttpEndpoint, post, build_url, replace_params, combine_path_params_to_path,
  combine_query_params_to_path, query_pair,
}
use strawberry_background.Endpoint.Reading.{query_of}
use strawberry_background.Endpoint.Query.{query_of-build_url}
use strawberry_background.Cookie.{CookieKey-eq}
use strawberry_background.Progress.{ready, pending, poll_all}
use strawberry_background.Progress.Sums.{IsTracking, poll_all-IsTracking}
use strawberry_background.Client.{
  ReqwestBackend, done, panicked, Draft, convert_method, with_header,
}
use strawberry_background.Client.Executing.{execute, do_execute, request_of, refusal}
use strawberry_background.Client.Executing.Panics.{IsReceived, execute-panics}
use strawberry_background.Client.Executing.Secrecy.{IsRequestOf, request_of-IsRequestOf}
use strawberry_background.Tests.Libraries.{encoding, urls, reqwest}

-- A space is `%20` in both encoders, and so is what reads `%20`.
spaces : encode_component encoding (ascii "a b&") ≡ ascii "a%20b%26"
unfolding encode_component
spaces = refl

collision : encode_component encoding (ascii "a%20b") ≡ ascii "a%20b"
unfolding encode_component
collision = refl

-- The encoder for a query leaves a space as it is.
space_kept : encode_query_component encoding (ascii "hello world!") ≡ ascii "hello world!"
unfolding encode_query_component
space_kept = refl

www_stripped : extract_domain urls (ascii "http://WWW.a.org/x") ≡ ok (ascii "a.org")
unfolding extract_domain normalize_domain
www_stripped = refl

encode_component-escaped_but_example :
    (encode_component encoding (ascii "a b/") ≡ escaped_but is_kept (ascii "a b/"))
    × (encode_query_component encoding (ascii "a b/") ≡ escaped_but is_kept_in_query (ascii "a b/"))
encode_component-escaped_but_example =
    encode_component-escaped_but encoding (ascii "a b/")
      (omega arith, (omega arith, (omega arith, (omega arith, tt))))

abbrev endpoint : HttpEndpoint
endpoint = record {
  path = ascii "/:id";
  domain = ascii "http://a.org";
  body = none;
  timeout = 5;
  headers = none;
  path_params = some ((ascii "id", ascii "7?") ∷ []);
  query_params = some ((ascii "q", ascii "&") ∷ []);
  method = post;
  requires_encryption = false;
  requires_decryption = true;
  user_agent = some (ascii "me");
  content_type = none;
}

url_built : build_url encoding endpoint ≡ ascii "http://a.org/7%3F?q=%26"
unfolding build_url replace_params combine_path_params_to_path combine_query_params_to_path
    query_pair encode_component encode_query_component
url_built = refl

-- The key of one path parameter begins that of another.
prefix_replaced :
    replace_params encoding
      ((ascii "id", ascii "7") ∷ (ascii "idx", ascii "8") ∷ [])
      (ascii "/:id/:idx")
    ≡ ascii "/7/7x"
unfolding replace_params encode_component
prefix_replaced = refl

query_of-build_url_example : query_of (build_url encoding endpoint) ≡ (ascii "q", ascii "&") ∷ []
query_of-build_url_example =
    query_of-build_url encoding endpoint (ascii "q", ascii "&") [] refl
      ((((omega arith, ground arith), tt), ((omega arith, ground arith), tt)), tt)
      (((omega arith, (omega arith, tt)), tt)) (ground arith)

poll_all-IsTracking_example :
    ((poll_all
        (pending ∷ ready (4 ∷ 5 ∷ []) ∷ ready (6 ∷ []) ∷ [])
        (record { total = 9; read = 1 })).0.read
      ≡ 4)
    × IsTracking 9 1
        (poll_all
          (pending ∷ ready (4 ∷ 5 ∷ []) ∷ ready (6 ∷ []) ∷ [])
          (record { total = 9; read = 1 })).1
        4
poll_all-IsTracking_example =
    poll_all-IsTracking 9 (omega arith) (pending ∷ ready (4 ∷ 5 ∷ []) ∷ ready (6 ∷ []) ∷ []) 1
      (omega arith)

abbrev backend : ReqwestBackend encoding urls assoc (reqwest none)
backend = record {
  encryption_provider = some (λ bytes. ok (9 ∷ bytes));
  decryption_provider = none;
  cookie_store = none;
}

execute-panics_example :
    ((execute encoding urls assoc (reqwest none) 3 endpoint backend).2 ≡ panicked) ↔ (
      (endpoint.requires_decryption ≡ true)
      × (backend.decryption_provider ≡ none)
      × IsReceived encoding urls assoc
          (reqwest none)
          (do_execute encoding urls assoc (reqwest none) 3 endpoint backend).1)
execute-panics_example = execute-panics encoding urls assoc (reqwest none) 3 endpoint backend

-- The endpoint has no body, so the missing provider is not noticed before the response is there.
no_body_panics : (execute encoding urls assoc (reqwest none) 3 endpoint backend).2 ≡ panicked
unfolding execute do_execute request_of refusal
no_body_panics = refl

abbrev secret : HttpEndpoint
secret = record endpoint {
  body = some (1 ∷ 2 ∷ []);
  requires_encryption = true;
  requires_decryption = false;
}

abbrev sent : Draft
sent = record {
  method = ascii "POST";
  url = build_url encoding secret;
  headers = (ascii "user-agent", ascii "me") ∷ [];
  body = some (9 ∷ 1 ∷ 2 ∷ []);
  timeout = some 5;
}

sent_for_secret : request_of encoding urls assoc (reqwest none) 3 secret backend ≡ done sent
unfolding request_of refusal convert_method with_header
sent_for_secret = refl

request_of-IsRequestOf_example : IsRequestOf encoding urls assoc (reqwest none) secret backend sent
request_of-IsRequestOf_example =
    request_of-IsRequestOf encoding urls assoc (reqwest none) 3 secret backend sent sent_for_secret

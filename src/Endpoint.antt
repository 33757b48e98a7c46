-- ===== src/Endpoint.antt =====
-- domain/models/http_models.rs: endpoints and the URL that is built from one. Texts are bytes, a
-- `Duration` is a number; the stream of a response is modelled with the client.
pub mod Query
pub mod Reading
use strawberry_background.Prelude.{ℕ, String, Bool, Option, none, some, List, [], ◌∷◌, ◌++◌, map}
use strawberry_background.Prelude.Text.{Text, ascii, join, replace}
use strawberry_background.Url.{PercentEncoding, encode_component, encode_query_component}

pub data HttpMethod : Type 0 where
  get post put delete : HttpMethod

pub record HttpEndpoint : Type 0 where
  pub path : Text
  pub domain : Text
  pub body : Option (List ℕ)
  pub timeout : ℕ
  pub headers : Option (List (Text × Text))
  pub path_params : Option (List (Text × Text))
  pub query_params : Option (List (Text × Text))
  pub method : HttpMethod
  pub requires_encryption : Bool
  pub requires_decryption : Bool
  pub user_agent : Option Text
  pub content_type : Option Text

pub record HttpResponse : Type 0 where
  pub status : ℕ
  pub headers : List (Text × Text)
  pub body : List ℕ

pub data HttpClientError : Type 0 where
  network invalid_url invalid_header serialization configuration crypto : String → HttpClientError
  timeout : ℕ → HttpClientError

module _ (E : PercentEncoding) where
  -- The turns of `for_each`.
  unfoldable pub replace_params : List (Text × Text) → Text → Text
  replace_params [] path = path
  replace_params ((key, value) ∷ params) path =
      replace_params params (replace (ascii ":" ++ key) (encode_component E value) path)

  -- Without parameters, the path as it is.
  unfoldable pub combine_path_params_to_path : Option (List (Text × Text)) → Text → Text
  combine_path_params_to_path none path = path
  combine_path_params_to_path (some params) path = replace_params params path

  unfoldable pub query_pair : Text × Text → Text
  query_pair (key, value) =
      encode_query_component E key ++ (ascii "=" ++ encode_query_component E value)

  unfoldable pub combine_query_params_to_path : Option (List (Text × Text)) → Text → Text
  combine_query_params_to_path none path = path
  combine_query_params_to_path (some []) path = path
  combine_query_params_to_path (some (p ∷ ps)) path =
      path ++ (ascii "?" ++ join (ascii "&") (map query_pair (p ∷ ps)))

  unfoldable pub build_url : HttpEndpoint → Text
  build_url self =
      combine_query_params_to_path self.query_params
        (combine_path_params_to_path self.path_params (self.domain ++ self.path))

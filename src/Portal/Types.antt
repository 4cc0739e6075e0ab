-- ===== src/Portal/Types.antt =====
-- The data that the frontend exchanges with the portal's API: the JSON objects that app.js reads
-- and sends, with the fields that it uses.
use the_black_hole.Prelude.{ℕ, String, List, Option, Bool}

pub record Connection : Type 0 where
  pub id : String
  pub name : String
  pub description : String
  pub tool_prefix : String
  pub base_url : String
  pub auth_type : String
  pub auth_secret_ref : String
  pub enabled : Bool

pub record Endpoint : Type 0 where
  pub id : String
  pub connection_id : String
  pub tool_name : String
  pub tool_description : String
  pub path : String
  pub method : String
  pub parameters_schema : String
  pub template : String

pub record Log : Type 0 where
  pub timestamp : String
  pub client_identity : String
  pub tool_name : String
  pub status : String
  pub duration_ms : ℕ
  pub error_message : String

pub record ClientToken : Type 0 where
  pub client_name : String
  pub token : String
  pub client_role : String
  pub scopes : String
  pub enabled : Bool

pub record Health : Type 0 where
  pub name : String
  pub url : String
  pub status : String
  pub latency_ms : ℕ

pub record Operations : Type 0 where
  pub connected_users : ℕ
  pub active_queries : ℕ
  pub connections_health : List Health

-- A field that an older API does not send, or sends with another type than Boolean, is `none`; a
-- text field that is not sent reads as the empty text, which every test treats alike.
pub record Settings : Type 0 where
  pub port : String
  pub database_path : String
  pub vault_provider : String
  pub vault_local_path : String
  pub oidc_issuer : String
  pub oidc_client_id : String
  pub tls_mode : String
  pub tls_enabled : Option Bool
  pub tls_cert_path : String
  pub mtls_mode : String
  pub mtls_enabled : Option Bool
  pub client_ca_path : String

-- The answer to a login: `error` is empty where the server sends none.
pub record Login : Type 0 where
  pub token : String
  pub username : String
  pub error : String

-- What a response's body holds. `garbled` is a body that is no JSON, or none of the route's form.
pub data Body : Type 0 where
  connections : List Connection → Body
  endpoints : List Endpoint → Body
  logs : List Log → Body
  tokens : List ClientToken → Body
  keys : List String → Body
  operations : Operations → Body
  settings : Settings → Body
  login : Login → Body
  error : String → Body
  text : String → Body
  null : Body
  garbled : Body

-- How a `fetch` ends: with a response, or rejected with a message.
pub data Reply : Type 0 where
  response : (status : ℕ) → Body → Reply
  rejected : String → Reply

-- What a request carries. A form's fields, in the order of the `JSON.stringify` call.
pub data Payload : Type 0 where
  nothing : Payload
  credentials : (username password : String) → Payload
  connection : Connection → Payload
  endpoint : Endpoint → Payload
  secret : (key value : String) → Payload
  client_token : ClientToken → Payload

pub data Verb : Type 0 where
  get post delete : Verb

-- `bearer` is the text behind `Bearer ` where the request has the headers of `getHeaders`.
pub record Request : Type 0 where
  pub verb : Verb
  pub url : String
  pub bearer : Option String
  pub payload : Payload

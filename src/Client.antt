-- ===== src/Client.antt =====
-- monitor/client.go and model/api.go: the calls of the server's API. What net/http returns for a
-- request, and encoding/json on the bodies, are parameters.
use tenpm_uptime_monitor.Prelude.{
  ℕ, ◌≡◌, refl, ◌⊎◌, inl, inr, Option, none, some, List, [], ◌∷◌, ◌++◌, take, ◌==◌, if◌then◌else◌,
}
use tenpm_uptime_monitor.Prelude.Int.{ℤ, pos, eq_ℤ}
use tenpm_uptime_monitor.Prelude.Text.{Text, bytes, same, trim_space}
use tenpm_uptime_monitor.Model.Check.{Check, Result, Time}
use tenpm_uptime_monitor.Model.Timestamp.{Civil, format_timestamp}
use mathlib.Core.List.{reverse}

-- apiPrefix
abbrev pub api_prefix : Text
api_prefix = bytes "/monitor-api/v1"

-- EnrollRequest
pub record EnrollRequest : Type 0 where
  pub id : Text
  pub name : Text
  pub region : Text
  pub country : Text
  pub city : Text

-- EnrollResponse
pub record EnrollResponse : Type 0 where
  pub monitor_id : Text
  pub api_key : Text

-- ChecksResponse
pub record ChecksResponse : Type 0 where
  pub server_time : Time
  pub checks : List Check

-- ResultsRequest
pub record ResultsRequest : Type 0 where
  pub results : List Result
  pub report_interval_sec : ℤ

-- MonitorStatus; `none` is a null last_outage_ended_at.
pub record MonitorStatus : Type 0 where
  pub version : Text
  pub unsent_results : ℕ
  pub uptime_sec : ℤ
  pub last_outage_ended_at : Option Time
  pub last_outage_sec : ℤ

-- A request as the client sends it.
pub record ApiRequest : Type 0 where
  pub method : Text
  pub url : Text
  pub authorization : Text
  pub content_type : Option Text
  pub body : Option Text

-- What the other side and the libraries do: a request that cannot be built or gets no response has
-- the error; a response has a status and a body.
pub data Exchange : Type 0 where
  no_response : Text → Exchange
  response : ℤ → Text → Exchange

pub record Server : Type 0 where
  pub exchange : ApiRequest → Exchange
  pub encode_enroll : EnrollRequest → Option Text
  pub decode_enroll : Text → Option EnrollResponse
  pub decode_checks : Text → Option ChecksResponse
  pub encode_results : ResultsRequest → Option Text
  pub decode_results : Text → Option ℤ
  pub encode_status : MonitorStatus → Option Text
  pub utc : Time → Civil

-- An error of a call: APIError, or any other.
pub data ClientError : Type 0 where
  api_error : ℤ → Text → ClientError
  other_error : Text → ClientError

pub data Reply {ℓ} (A : Type ℓ) : Type ℓ where
  replied : A → Reply A
  failed_call : ClientError → Reply A

pub Reply-cases {ℓ} :
    {A : Type ℓ} (r : Reply A)
    → ((a : A) × (r ≡ replied a)) ⊎ ((e : ClientError) × (r ≡ failed_call e))
Reply-cases (replied a) = inl (a, refl)
Reply-cases (failed_call e) = inr (e, refl)

infixl 5 ◌>>=◌
abbrev pub ◌>>=◌ {ℓ κ} : {A : Type ℓ} {B : Type κ} → Reply A → (A → Reply B) → Reply B
replied a >>= f = f a
failed_call e >>= f = failed_call e

-- Client
pub record Client : Type 0 where
  pub base_url : Text
  pub api_key : Text
  pub proxy : Option Text

unfoldable pub trim_slashes : Text → Text
trim_slashes [] = []
trim_slashes (c ∷ s) = let rest = trim_slashes s in if c == b'/' then rest else c ∷ s

-- NewClientWithProxy
unfoldable pub new_client_with_proxy : Text → Option Text → Client
unfolding trim_slashes
new_client_with_proxy base_url proxy = record {
  base_url = reverse (trim_slashes (reverse base_url));
  api_key = [];
  proxy = proxy;
}

-- NewClient
unfoldable pub new_client : Text → Client
unfolding new_client_with_proxy
new_client base_url = new_client_with_proxy base_url none

-- SetAPIKey
unfoldable pub set_api_key : Text → Client → Client
set_api_key key c = record c { api_key = key }

-- authenticate
unfoldable pub bearer : Text → Text
bearer key = bytes "Bearer " ++ key

-- readErrBody
unfoldable pub read_err_body : Text → Text
read_err_body body = trim_space (take 1024 body)

abbrev pub encoded_or {ℓ} : {A : Type ℓ} → Text → Option A → Reply A
encoded_or e none = failed_call (other_error e)
encoded_or e (some a) = replied a

-- Do, and the test of the status: the body of a response with the status 200.
unfoldable pub exchanged : Server → ApiRequest → Reply Text
unfolding read_err_body
exchanged s req = elim (s.exchange req) [
  | no_response e ↦ failed_call (other_error e)
  | response status body ↦
      if eq_ℤ status (pos 200)
      then replied body
      else failed_call (api_error status (read_err_body body))
]

abbrev pub json_type : Option Text
json_type = some (bytes "application/json")

-- The request of Enroll, which carries the enrolment token, and those of the other calls, which carry
-- the monitor's key.
unfoldable pub enroll_request : Client → Text → Text → ApiRequest
unfolding bearer
enroll_request c token body = record {
  method = bytes "POST";
  url = c.base_url ++ (api_prefix ++ bytes "/enroll");
  authorization = bearer token;
  content_type = json_type;
  body = some body;
}

unfoldable pub get_request : Client → Text → ApiRequest
unfolding bearer
get_request c path = record {
  method = bytes "GET";
  url = c.base_url ++ (api_prefix ++ path);
  authorization = bearer c.api_key;
  content_type = none;
  body = none;
}

unfoldable pub post_request : Client → Text → Text → ApiRequest
unfolding bearer
post_request c path body = record {
  method = bytes "POST";
  url = c.base_url ++ (api_prefix ++ path);
  authorization = bearer c.api_key;
  content_type = json_type;
  body = some body;
}

-- Enroll: the monitor's id and its key.
unfoldable pub enroll : Server → Client → Text → EnrollRequest → Reply (Text × Text)
unfolding exchanged enroll_request
enroll s c token req = do
  body ← encoded_or (bytes "enroll") (s.encode_enroll req)
  answer ← exchanged s (enroll_request c token body)
  er ← encoded_or (bytes "enroll: decode response") (s.decode_enroll answer)
  if same er.monitor_id []
      then failed_call (other_error (bytes "enroll: server returned no monitor id"))
      else replied (er.monitor_id, er.api_key)

-- FetchChecks: the server's time and the checks that changed.
unfoldable pub fetch_checks : Server → Client → Time → Reply (Time × List Check)
unfolding exchanged get_request
fetch_checks s c since = do
  answer ← exchanged s (get_request c (bytes "/checks?since=" ++ format_timestamp s.utc since))
  cr ← encoded_or (bytes "fetch checks: decode response") (s.decode_checks answer)
  replied (cr.server_time, cr.checks)

-- PostResults: how many results the server accepted.
unfoldable pub post_results : Server → Client → List Result → ℤ → Reply ℤ
unfolding exchanged post_request
post_results s c results report_interval_sec = do
  body ←
      encoded_or (bytes "post results")
        (s.encode_results (record { results = results; report_interval_sec = report_interval_sec }))
  answer ← exchanged s (post_request c (bytes "/results") body)
  encoded_or (bytes "post results: decode response") (s.decode_results answer)

-- PostStatus
unfoldable pub post_status : Server → Client → MonitorStatus → Reply (Unit {0})
unfolding exchanged post_request
post_status s c st = do
  body ← encoded_or (bytes "post status") (s.encode_status st)
  answer ← exchanged s (post_request c (bytes "/status") body)
  replied tt

-- Ping
unfoldable pub ping : Server → Client → Reply (Unit {0})
unfolding exchanged get_request
ping s c = do answer ← exchanged s (get_request c (bytes "/ping")); replied tt

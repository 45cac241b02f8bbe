-- ===== src/Crawler/HttpSource.antt =====
-- `HttpSource.fetch` of src/sources/http_source.py with its fallback `_fetch_impersonated`. What the
-- two clients answer is given: a response, or the message of an exception; without curl_cffi the
-- fallback has no answer. A result's identifiers, headers and time are left out.
use ngfw_policy.Prelude.{
  ℕ, ◌<◌, ◌≡◌, ◌≢◌, ◌⊎◌, refl, Bool, true, false, not, ◌&&◌, ◌||◌, [], Option, none, some, Text,
  eqb, leb, is_nil, if◌then◌else◌, if_cases, arith,
}

-- `FetchStatus`
pub data FetchStatus : Type 0 where
  success : FetchStatus
  failed : FetchStatus
  skipped : FetchStatus
  rate_limited : FetchStatus

-- What the error text of a result says.
pub data FetchError : Type 0 where
  http : ℕ → FetchError
  http_impersonated : ℕ → FetchError
  raised : Text → FetchError
  raised_impersonated : Text → FetchError

pub record Response : Type 0 where
  pub status_code : ℕ
  pub url : Text
  pub text : Text

pub data Reply : Type 0 where
  answer : Response → Reply
  exception : Text → Reply

pub record FetchResult : Type 0 where
  pub url_final : Text
  pub status : FetchStatus
  pub status_code : ℕ
  pub html : Text
  pub impersonated : Bool
  pub error : Option FetchError

-- A result as it is made.
abbrev pub new_result : FetchResult
new_result = record {
  url_final = [];
  status = success;
  status_code = 0;
  html = [];
  impersonated = false;
  error = none;
}

is_success : FetchStatus → Bool
is_success success = true
is_success _ = false

-- `FetchResult.ok`
unfoldable pub ok : FetchResult → Bool
unfolding is_success
ok r = is_success r.status && not (is_nil r.html)

-- `BLOCK_CODES`
unfoldable pub is_blocked : ℕ → Bool
is_blocked code = eqb code 403 || eqb code 429 || eqb code 503

-- `_fetch_impersonated`
unfoldable pub fetch_impersonated : Option Reply → Option FetchResult
fetch_impersonated none = none
fetch_impersonated (some (exception message)) =
    some (record new_result { status = failed; error = some (raised_impersonated message) })
fetch_impersonated (some (answer r)) =
    let result : FetchResult = record new_result {
      status_code = r.status_code;
      url_final = r.url;
      impersonated = true;
    } in
    some (
      if leb 400 r.status_code
      then record result { status = failed; error = some (http_impersonated r.status_code) }
      else record result { html = r.text; status = success })

-- The result of the first client's response.
unfoldable pub plain_result : Response → FetchResult
plain_result r =
    let result : FetchResult = record new_result {
      status_code = r.status_code;
      url_final = r.url;
    } in
    if leb 400 r.status_code
    then record result {
      status = if eqb r.status_code 429 then rate_limited else failed;
      error = some (http r.status_code);
    }
    else record result { html = r.text; status = success }

-- `fetch`; `impersonate` says whether the source is configured with a profile
unfoldable pub fetch : Bool → Reply → Option Reply → FetchResult
unfolding plain_result is_blocked fetch_impersonated
fetch impersonate (exception message) second = record new_result {
  status = failed;
  error = some (raised message);
}
fetch impersonate (answer r) second =
    if is_blocked r.status_code && impersonate
    then elim (fetch_impersonated second) [ some result ↦ result | none ↦ plain_result r ]
    else plain_result r

-- A result is a success with a code below 400 and no error, or it has an error and no text; none is
-- SKIPPED.
pub record IsConsistent (r : FetchResult) : Type 0 where
  pub succeeded : r.status ≡ success → (r.status_code < 400) × (r.error ≡ none)
  pub not_skipped : r.status ≢ skipped
  pub refused : r.status ≢ success → (r.html ≡ []) × (r.error ≢ none)

plain_result-IsConsistent : (r : Response) → IsConsistent (plain_result r)
unfolding plain_result
plain_result-IsConsistent r = record {
  succeeded = λ e. ground (arith, e);
  not_skipped = λ e. ground (arith, e);
  refused = λ e. ground (arith, e);
}

fallback-IsConsistent :
    (r : Response) (second : Option Reply)
    → IsConsistent
        (elim (fetch_impersonated second) [ some result ↦ result | none ↦ plain_result r ])
unfolding fetch_impersonated
fallback-IsConsistent r none = plain_result-IsConsistent r
fallback-IsConsistent r (some (exception message)) = record {
  succeeded = λ e. cc;
  not_skipped = λ e. cc;
  refused = λ e. (refl, λ h. cc);
}
fallback-IsConsistent r (some (answer q)) = record {
  succeeded = λ e. ground (arith, e);
  not_skipped = λ e. ground (arith, e);
  refused = λ e. ground (arith, e);
}

-- Whatever the clients answer, a code of 304 included, a fetch gives a success with a code below
-- 400 and no error, or an error and no text, and never a skipped result.
pub fetch-IsConsistent :
    (impersonate : Bool) (reply : Reply) (second : Option Reply)
    → IsConsistent (fetch impersonate reply second)
unfolding fetch
fetch-IsConsistent impersonate (exception message) second = record {
  succeeded = λ e. cc;
  not_skipped = λ e. cc;
  refused = λ e. (refl, λ h. cc);
}
fetch-IsConsistent impersonate (answer r) second =
    if_cases IsConsistent (is_blocked r.status_code && impersonate) _ _
      (λ blocked. fallback-IsConsistent r second) (λ plain. plain_result-IsConsistent r)

-- Without curl_cffi, and wherever the first response is not blocked, the fallback changes nothing.
pub fetch-no_fallback :
    (impersonate : Bool) (r : Response) (second : Option Reply)
    → (is_blocked r.status_code ≡ false) ⊎ (second ≡ none)
    → fetch impersonate (answer r) second ≡ fetch false (answer r) none
unfolding fetch
fetch-no_fallback impersonate r second h = ground (arith, h)

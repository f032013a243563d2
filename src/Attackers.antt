-- ===== src/Attackers.antt =====
-- The attackers that the repository has: http_attacker_mock.go, fasthttp_attacker_mock.go,
-- control_attacker_mock.go, typed_attacker_mocks.go, and those of examples/attackers. What their clients
-- answer is given from outside. `Setup` and `Teardown` return nil in all of them.
pub mod Verdict
use loaderbot.Prelude.{ℕ, Bool, true, false, String, Option, none, some, leb, if◌then◌else◌}
use loaderbot.Prelude.Int.{ℤ, pos}
use loaderbot.Result.{DoResult}
use loaderbot.Shared.{SharedDataSlice, get}
use loaderbot.Outcome.{Outcome, returned, panicked, index_out_of_range}

-- A `DoResult` with these two fields, and no others.
abbrev pub labelled : String → String → DoResult
labelled label error = record {
  request_label = label;
  error = error;
  status_code = pos 0;
  bytes_in = pos 0;
  bytes_out = pos 0;
}

abbrev pub passed : String → DoResult
passed label = labelled label ""

-- A response of net/http: its status code, and the error of reading its body to the end.
pub record Response : Type 0 where
  pub status_code : ℕ
  pub copy_error : Option String

-- What `HTTPClient.Do` returns; both may be there, as after a redirect that fails.
pub record Answer : Type 0 where
  pub response : Option Response
  pub error : Option String

abbrev pub checked : String → Option String → DoResult
checked name none = passed name
checked name (some e) = labelled name e

-- `HTTPAttackerExample.Do`: `io.Copy` assigns to the variable that holds the error of the request.
unfoldable pub http_do : String → Answer → DoResult
http_do name a = elim a.response [
  | none ↦ checked name a.error
  | some r ↦ elim r.copy_error [ some e ↦ labelled name e | none ↦ checked name none ]
]

-- What `FastHTTPClient.Do` leaves: the status code of the response object, and its error.
pub record FastAnswer : Type 0 where
  pub status_code : ℕ
  pub error : Option String

-- `FastHTTPAttackerExample.Do`
unfoldable pub fast_http_do : String → FastAnswer → DoResult
fast_http_do name a =
    if leb 400 a.status_code
    then labelled "" "request failed"
    else elim a.error [ none ↦ passed name | some e ↦ labelled "" e ]

-- `ControlAttackerMock.Do`, when a value waits on `serviceError` or not; it sleeps, otherwise.
unfoldable pub control_do : String → Bool → DoResult
control_do name service_error = if service_error then labelled name "service error" else passed name

-- `TypedAttackerMock1.Do`
unfoldable pub typed_do : String → DoResult
typed_do name = passed name

-- `AttackerExample.Do`, by the error of `client.Get`.
unfoldable pub example_do : String → Option String → DoResult
example_do name e = checked name e

-- `DataAttackerExample.Do`: it takes a datum, which it logs, from the data that the attackers share.
unfoldable pub data_do :
    {A : Type 0}
    → String
    → Option String
    → SharedDataSlice A
    → Outcome (DoResult × SharedDataSlice A)
data_do name e shared = elim (get shared) [
  | none ↦ panicked index_out_of_range
  | some (d, rest) ↦ returned (example_do name e, rest)
]

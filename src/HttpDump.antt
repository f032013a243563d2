-- ===== src/HttpDump.antt =====
-- default_http_client.go and fasthttp_client.go: what prints requests and responses. The JSON codec of
-- github.com/json-iterator/go is a parameter; the requests and the inner transport are given from outside.
pub mod Clear
use text.Mathlib.Text.{find?, get?, starts_with}
use Prim.Native.String.{len}
use loaderbot.Prelude.{
  ℕ, ◌+◌, Bool, true, false, ◌&&◌, String, Option, none, some, List, [], ◌∷◌, ◌++◌, if◌then◌else◌,
}
use loaderbot.Outcome.{Outcome, returned, fatal, panicked, nil_dereference, ◌>>=◌}

-- `strings.Contains`
abbrev pub contains : String → String → Bool
contains s t = elim (find? s t) [ none ↦ false | some _ ↦ true ]

-- `bodyIsJson`, of the header's content type.
unfoldable pub body_is_json : String → Bool
body_is_json content_type = contains content_type "application/json"

abbrev pub http_body_delimiter : String
http_body_delimiter = "\r\n\r\n"

-- `strings.Split`, as far as it is looked at: the first part, and the second if there are just two.
pub record Parts : Type 0 where
  pub first : String
  pub second : Option String

abbrev pub or_empty : Option String → String
or_empty none = ""
or_empty (some s) = s

abbrev pub only_part : String → Option String
only_part rest = if contains rest http_body_delimiter then none else some rest

unfoldable pub split : String → Parts
split s = elim (find? s http_body_delimiter) [
  | none ↦ record { first = s; second = none }
  | some i ↦ record {
    first = or_empty (get? s 0 i);
    second = only_part (or_empty (get? s (i + len http_body_delimiter) (len s)));
  }
]

-- `Unmarshal` into a list or a map of raw messages and `MarshalIndent`; `none` is an error of either.
pub record Json : Type 0 where
  pub indent_list : String → Option String
  pub indent_map : String → Option String

-- A response of the inner transport: is there a body, its content type, and its dump.
pub record Response : Type 0 where
  pub has_body : Bool
  pub content_type : String
  pub dump : String

pub data Print : Type 0 where
  request response : String → Print
  request_body response_body : String → String → Print

abbrev pub or_fatal : Option String → Outcome String
or_fatal none = fatal "json"
or_fatal (some s) = returned s

module _ (json : Json) where
  abbrev pub indented : String → Option String
  indented body = if starts_with body "[" then json.indent_list body else json.indent_map body

  unfoldable pub pretty_print_json_body : String → Outcome (String × String)
  pretty_print_json_body dump = elim (split dump).second [
    | none ↦ returned ((split dump).first, "")
    | some body ↦ do text ← or_fatal (indented body); returned ((split dump).first, text)
  ]

  unfoldable pub print_request : String → String → Outcome (List Print)
  print_request content_type dump = elim (body_is_json content_type) [
    | false ↦ returned (request dump ∷ [])
    | true ↦ do (head, body) ← pretty_print_json_body dump; returned (request_body head body ∷ [])
  ]

  unfoldable pub print_response : Response → Outcome (List Print)
  print_response r = elim (r.has_body && body_is_json r.content_type) [
    | false ↦ returned (response r.dump ∷ [])
    | true ↦ do
      (head, body) ← pretty_print_json_body r.dump
      returned (response_body head body ∷ [])
  ]

  -- `RoundTrip` of a request with this content type and dump, by the answer of the inner transport: a
  -- response, an error, or neither. `DumpResponse` of nil panics.
  unfoldable pub round_trip :
      String
      → String
      → Option Response
      → Option String
      → Outcome (List Print × Option Response × Option String)
  round_trip content_type dump resp err = do
    ps ← print_request content_type dump
    elim err [
      | some e ↦ returned (ps, none, some e)
      | none ↦ elim resp [
        | none ↦ panicked nil_dereference
        | some r ↦ do qs ← print_response r; returned (ps ++ qs, some r, none)
      ]
    ]

-- `FastHTTPClient.Do` of fasthttp_client.go, by the texts of the request and of the response that is left,
-- and the error of `DoRedirects`.
unfoldable pub fast_do : Bool → String → String → Option String → List Print × Option String
fast_do dumps req resp none =
    ((if dumps then request req ∷ [] else []) ++ (if dumps then response resp ∷ [] else []), none)
fast_do dumps req resp (some e) = ((if dumps then request req ∷ [] else []), some e)

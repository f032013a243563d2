-- ===== src/HttpDump/Clear.antt =====
-- What the caller of the transport gets (default_http_client.go).
use loaderbot.Prelude.{
  ◌≡◌, ◌≢◌, ◌⊎◌, inl, inr, refl, true, false, ◌&&◌, String, Option, none, some, arith, Bool-cases,
}
use loaderbot.Outcome.Laws.{Returns-bind}
use loaderbot.Outcome.{Outcome, Returns}
use loaderbot.HttpDump.{
  Json, Response, split, indented, or_fatal, pretty_print_json_body, print_request, print_response,
  round_trip, body_is_json,
}

-- Only that the call returns.
abbrev Returning : {A : Type 0} → Outcome A → Type 0
Returning m = Returns (λ _. Unit {0}) m

or_fatal-Returns : (o : Option String) → o ≢ none → Returning (or_fatal o)
or_fatal-Returns none h = absurd (h refl)
or_fatal-Returns (some s) h = tt

module _ (json : Json) where
  -- The codec accepts the body, if there is one.
  abbrev pub Accepts : Option String → Type 0
  Accepts none = Unit
  Accepts (some body) = indented json body ≢ none

  -- The body of a dump is JSON, or the dump does not fall into a head and a body.
  abbrev pub IsJson : String → Type 0
  IsJson dump = Accepts (split dump).second

  -- A response that is not printed as JSON, or is JSON; or no response.
  abbrev pub IsPrintable : Option Response → Type 0
  IsPrintable none = Unit
  IsPrintable (some r) = ((r.has_body && body_is_json r.content_type) ≡ false) ⊎ IsJson r.dump

  pretty_print-Returns :
      (dump : String) → IsJson dump → Returning (pretty_print_json_body json dump)
  unfolding pretty_print_json_body
  pretty_print-Returns dump h = by_body (split dump).second refl h
    where
      by_body :
          (o : Option String)
          → (split dump).second ≡ o
          → Accepts o
          → Returning (pretty_print_json_body json dump)
      by_body none e a = rw (e, pretty_print_json_body) tt
      by_body (some body) e a =
          rw (e, pretty_print_json_body)
            (Returns-bind _ _ (or_fatal (indented json body)) _
              (or_fatal-Returns (indented json body) a) λ _ _. tt)

  print_request-Returns :
      (content_type dump : String)
      → (body_is_json content_type ≡ false) ⊎ IsJson dump
      → Returning (print_request json content_type dump)
  unfolding print_request
  print_request-Returns c dump h = by_type (Bool-cases (body_is_json c)) h
    where
      by_type :
          (body_is_json c ≡ true) ⊎ (body_is_json c ≡ false)
          → (body_is_json c ≡ false) ⊎ IsJson dump
          → Returning (print_request json c dump)
      by_type (inr e) h = rw (e, print_request) tt
      by_type (inl e) (inl f) = absurd (ground (arith, e, f))
      by_type (inl e) (inr j) =
          rw (e, print_request)
            (Returns-bind _ _ (pretty_print_json_body json dump) _ (pretty_print-Returns dump j)
              λ _ _. tt)

  print_response-Returns : (r : Response) → IsPrintable (some r) → Returning (print_response json r)
  unfolding print_response
  print_response-Returns r h = by_type (Bool-cases (r.has_body && body_is_json r.content_type)) h
    where
      by_type :
          ((r.has_body && body_is_json r.content_type) ≡ true)
            ⊎ ((r.has_body && body_is_json r.content_type) ≡ false)
          → IsPrintable (some r)
          → Returning (print_response json r)
      by_type (inr e) h = rw (e, print_response) tt
      by_type (inl e) (inl f) = absurd (ground (arith, e, f))
      by_type (inl e) (inr j) =
          rw (e, print_response)
            (Returns-bind _ _ (pretty_print_json_body json r.dump) _ (pretty_print-Returns r.dump j)
              λ _ _. tt)

  -- The answer that the caller is to get: an error alone, or the response.
  abbrev pub answer : Option Response → Option String → Option Response × Option String
  answer resp none = (resp, none)
  answer resp (some e) = (none, some e)

  -- If the request and the response have JSON where they are printed as JSON, and the inner transport
  -- answers with a response or an error, `RoundTrip` returns just that answer, an error without a
  -- response.
  pub round_trip_transparent :
      (content_type dump : String) (resp : Option Response) (err : Option String)
      → (body_is_json content_type ≡ false) ⊎ IsJson dump
      → IsPrintable resp
      → (resp ≢ none) ⊎ (err ≢ none)
      → Returns (λ x. (x.1, x.2) ≡ answer resp err) (round_trip json content_type dump resp err)
  unfolding round_trip
  round_trip_transparent c dump resp (some e) h p a =
      Returns-bind _ _ (print_request json c dump) _ (print_request-Returns c dump h) λ _ _. refl
  round_trip_transparent c dump (some r) none h p a =
      Returns-bind _ _ (print_request json c dump) _ (print_request-Returns c dump h)
        λ _ _. Returns-bind _ _ (print_response json r) _ (print_response-Returns r p) λ _ _. refl
  round_trip_transparent c dump none none h p (inl a) = absurd (a refl)
  round_trip_transparent c dump none none h p (inr a) = absurd (a refl)

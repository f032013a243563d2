-- ===== src/Attackers/Verdict.antt =====
-- What the metrics make of the results of the attackers.
use loaderbot.Prelude.{
  ◌≡◌, refl, Bool, true, false, ◌&&◌, String, Option, none, some, arith, str_eq, ltb, leb,
  Bool-cases, inl, inr, ◌⊎◌, ◌∙◌,
}
use loaderbot.Result.{DoResult, AttackResult}
use loaderbot.Metrics.{is_success}
use loaderbot.Attackers.{Response, Answer, http_do, FastAnswer, fast_http_do, labelled}

-- The result of a request, as the attacker sends it.
abbrev pub with_result : AttackResult → DoResult → AttackResult
with_result r d = record r { do_result = d }

-- Is there no error, or an empty text?
abbrev pub is_nil : Option String → Bool
is_nil none = true
is_nil (some e) = str_eq e ""

abbrev copied : Answer → Bool
copied a = elim a.response [ none ↦ is_nil a.error | some r ↦ is_nil r.copy_error ]

labelled_success :
    (r : AttackResult) (label error : String)
    → is_success (with_result r (labelled label error)) ≡ str_eq error ""
labelled_success r label error = ground arith

-- A result of `HTTPAttackerExample` counts as a success in the metrics exactly if there is a response
-- and its body was read, or there is none and no error either. Neither the status code nor an error
-- that comes with a response has a say.
pub http_do-success :
    (name : String) (a : Answer) (r : AttackResult)
    → is_success (with_result r (http_do name a)) ≡ copied a
unfolding http_do
http_do-success name a r = by_response a.response a.error
  where
    by_copy :
        (o : Response) (e c : Option String)
        → o.copy_error ≡ c
        → is_success (with_result r (http_do name (record { response = some o; error = e })))
          ≡ copied (record { response = some o; error = e })
    by_copy o e none q = rw q refl
    by_copy o e (some text) q = rw q (labelled_success r name text)

    by_response :
        (o : Option Response) (e : Option String)
        → is_success (with_result r (http_do name (record { response = o; error = e })))
          ≡ copied (record { response = o; error = e })
    by_response none none = refl
    by_response none (some e) = labelled_success r name e
    by_response (some o) e = by_copy o e o.copy_error refl

-- A result of `FastHTTPAttackerExample` counts as a success exactly if the status code is below 400
-- and there is no error.
pub fast_http_do-success :
    (name : String) (a : FastAnswer) (r : AttackResult)
    → is_success (with_result r (fast_http_do name a)) ≡ (ltb a.status_code 400 && is_nil a.error)
unfolding fast_http_do
fast_http_do-success name a r = by_status (Bool-cases (leb 400 a.status_code)) a.error refl
  where
    by_status :
        (leb 400 a.status_code ≡ true) ⊎ (leb 400 a.status_code ≡ false)
        → (e : Option String) → a.error ≡ e
        → is_success (with_result r (fast_http_do name a))
          ≡ (ltb a.status_code 400 && is_nil a.error)
    by_status (inl b) e q = rw b (ground (arith, b))
    by_status (inr b) none q = rw (b, q) (ground (arith, b))
    by_status (inr b) (some e) q = rw (b, q) (labelled_success r "" e ∙ ground (arith, b))

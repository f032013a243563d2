-- ===== src/Attack/Results.antt =====
-- What an attacker sends for the tokens that it takes (attack.go).
use loaderbot.Prelude.{◌≡◌, refl, List, [], ◌∷◌, String}
use loaderbot.Prelude.Int.{pos}
use loaderbot.Result.{DoResult, AttackResult, sub_time}
use loaderbot.Attack.{
  Race, test_over, request_over, done, Round, Effect, tear_down, send, err_attack_do_timed_out,
  timed_out_result, result_of, attack,
}

unfoldable pub sent : List Effect → List AttackResult
sent [] = []
sent (tear_down ∷ es) = sent es
sent (send r ∷ es) = r ∷ sent es

-- The rounds before the test is over.
unfoldable pub in_time : List Round → List Round
in_time [] = []
in_time (r ∷ rs) = elim r.race [ test_over ↦ [] | _ ↦ r ∷ in_time rs ]

-- What is sent for the end of the `select`: nothing once the test is over, the timeout error under the
-- runner's name, or what `Do` answered.
abbrev pub Answers : String → Race → DoResult → Type 0
Answers name test_over d = ⊥
Answers name request_over d =
    (d.error ≡ err_attack_do_timed_out) × (d.request_label ≡ name) × (d.status_code ≡ pos 0)
Answers name (done d') d = d ≡ d'

-- What the round has to report.
abbrev pub Reports : String → Round → AttackResult → Type 0
Reports name r a =
    (a.attack_token ≡ r.token)
    × (a.begin ≡ r.t_start)
    × (a.end ≡ r.t_end)
    × (a.elapsed ≡ sub_time r.t_end r.t_start)
    × Answers name r.race a.do_result

-- Elementwise.
abbrev pub Each : {A B : Type 0} → (A → B → Type 0) → List A → List B → Type 0
Each P [] [] = Unit
Each P (x ∷ xs) (y ∷ ys) = P x y × Each P xs ys
Each P _ _ = ⊥

-- One step of the loop, by the case of the `select`.
attack-Reports_step :
    (name : String) (r : Round) (rs : List Round) (race : Race)
    → r.race ≡ race
    → Each (Reports name) (in_time rs) (sent (attack name rs))
    → Each (Reports name) (in_time (r ∷ rs)) (sent (attack name (r ∷ rs)))
unfolding attack sent in_time result_of timed_out_result
attack-Reports_step name r rs test_over e ih = rw (e, attack, in_time) tt
attack-Reports_step name r rs request_over e ih =
    rw (e, attack, in_time) ((refl, refl, refl, refl, rw e (refl, refl, refl)), ih)
attack-Reports_step name r rs (done d) e ih =
    rw (e, attack, in_time) ((refl, refl, refl, refl, rw e refl), ih)

-- An attacker sends one result for each token that it takes before the test is over, in order, with
-- that token, the instants around the request and their difference as a Duration, and the result of
-- `Do`, or the timeout error under the runner's name.
pub attack-Reports :
    (name : String) (rs : List Round) → Each (Reports name) (in_time rs) (sent (attack name rs))
unfolding attack sent in_time
attack-Reports name [] = tt
attack-Reports name (r ∷ rs) = attack-Reports_step name r rs r.race refl (attack-Reports name rs)

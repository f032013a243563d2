-- ===== src/Attack.antt =====
-- attack.go: the loop of one attacker, and the two texts of errors.go that it and `NewRunner` use.
pub mod Results
use loaderbot.Prelude.{ℕ, List, [], ◌∷◌, String}
use loaderbot.Prelude.Int.{ℤ, pos}
use loaderbot.Result.{AttackToken, DoResult, AttackResult, sub_time}

abbrev pub err_attack_do_timed_out : String
err_attack_do_timed_out = "attack Do(ctx) timeout"

abbrev pub err_attacker_setup : String
err_attacker_setup = "error when setup attacker"

-- Which case of the `select` is taken: the test is over, the request has timed out, or `Do` answers.
pub data Race : Type 0 where
  test_over : Race
  request_over : Race
  done : DoResult → Race

-- One token from `next`, the instants read before and after the request, and what happened between.
pub record Round : Type 0 where
  pub token : AttackToken
  pub t_start : ℕ
  pub t_end : ℕ
  pub race : Race

pub data Effect : Type 0 where
  tear_down : Effect
  send : AttackResult → Effect

unfoldable pub timed_out_result : String → DoResult
timed_out_result name = record {
  request_label = name;
  error = err_attack_do_timed_out;
  status_code = pos 0;
  bytes_in = pos 0;
  bytes_out = pos 0;
}

unfoldable pub result_of : Round → DoResult → AttackResult
result_of r d = record {
  attack_token = r.token;
  begin = r.t_start;
  end = r.t_end;
  elapsed = sub_time r.t_end r.t_start;
  do_result = d;
}

-- `attack(a, r)` for the runner of this name. An error of `Teardown` is only logged. The list ends
-- where `next` is closed.
unfoldable pub attack : String → List Round → List Effect
attack name [] = []
attack name (r ∷ rs) = elim r.race [
  | test_over ↦ []
  | request_over ↦ tear_down ∷ send (result_of r (timed_out_result name)) ∷ attack name rs
  | done d ↦ tear_down ∷ send (result_of r d) ∷ attack name rs
]

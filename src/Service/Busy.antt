-- ===== src/Service/Busy.antt =====
-- What `busy` says of the calls of `Run` (service.go).
use mathlib.Core.List.{append-nil, append_assoc}
use mathlib.Core.Path.{subst}
use loaderbot.Prelude.{
  ℕ, zero, suc, ◌+◌, ◌<◌, ◌≡◌, refl, sym, ap, ◌∙◌, Bool, true, false, Option, none, some, List, [],
  ◌∷◌, ◌++◌, arith, length, length-append, replicate,
}
use loaderbot.Service.{
  Call, arrived, admitted, marked, streaming, Server, run_step, is_busy, set_busy, status, Step,
  move, arrive, Reach, here, next, fresh_server,
}

-- The call has set the policy to busy and not yet back.
abbrev pub is_active : Call → ℕ
is_active marked = 1
is_active streaming = 1
is_active _ = 0

abbrev pub active : List Call → ℕ
active [] = 0
active (c ∷ cs) = is_active c + active cs

active-append : (xs ys : List Call) → active (xs ++ ys) ≡ active xs + active ys
active-append [] ys = omega arith
active-append (x ∷ xs) ys = omega (arith, active-append xs ys)

abbrev BusyHasCall : Server → Type 0
BusyHasCall s = status s ≡ true → 0 < active s.calls

move-BusyHasCall :
    (s : Server) (xs ys : List Call) (c : Call)
    → s.calls ≡ xs ++ c ∷ ys
    → BusyHasCall s
    → BusyHasCall
        (record (run_step (length xs) c s).0 { calls = xs ++ (run_step (length xs) c s).1 ∷ ys })
unfolding run_step status
move-BusyHasCall s xs ys c e h b = ground (
  arith,
  ap active e,
  active-append xs (c ∷ ys),
  active-append xs ((run_step (length xs) c s).1 ∷ ys),
)

Step-BusyHasCall : {s u : Server} → Step s u → BusyHasCall s → BusyHasCall u
unfolding status
Step-BusyHasCall {s} {u} (move xs ys c e e') h =
    subst BusyHasCall (sym e') (move-BusyHasCall s xs ys c e h)
Step-BusyHasCall {s} {u} (arrive e) h =
    subst BusyHasCall (sym e) (λ b. omega (arith, h b, active-append s.calls (arrived ∷ [])))

-- On a server that was started and then served any calls of `Run`, interleaved in any way: if `Status`
-- answers busy, a call has set the policy to busy and not yet set it back.
pub busy_means_active : {s : Server} → Reach fresh_server s → status s ≡ true → 0 < active s.calls
unfolding status fresh_server
busy_means_active here b = cc
busy_means_active (next r st) b = Step-BusyHasCall st (busy_means_active r) b

Reach-trans : {s t u : Server} → Reach s t → Reach t u → Reach s u
Reach-trans r here = r
Reach-trans r (next r' st) = next (Reach-trans r r') st

-- `k` calls in a row make the same step, from state to state of one family `at`.
all_move :
    (c d : Call) (at : List Call → ℕ → Server)
    → ((xs : List Call) (k : ℕ) → Step (at xs (suc k)) (at (xs ++ d ∷ []) k))
    → (xs : List Call) (k : ℕ) → Reach (at xs k) (at (xs ++ replicate k d) 0)
all_move c d at st xs zero = subst (λ ys. Reach (at xs 0) (at ys 0)) (sym (append-nil xs)) here
all_move c d at st xs (suc k) =
    subst (λ ys. Reach (at xs (suc k)) (at ys 0)) (append_assoc xs (d ∷ []) (replicate k d))
      (Reach-trans (next here (st xs k)) (all_move c d at st (xs ++ d ∷ []) k))

-- The policy and `runnerCancelFunc` once the calls of the list have gone on.
abbrev some_marked : List Call → Bool
some_marked [] = false
some_marked (c ∷ cs) = true

abbrev last_cancel : List Call → Option ℕ
last_cancel [] = none
last_cancel (c ∷ cs) = some (length cs)

some_marked-append : (xs : List Call) (c : Call) → some_marked (xs ++ c ∷ []) ≡ true
some_marked-append [] c = refl
some_marked-append (x ∷ xs) c = refl

last_cancel-append : (xs : List Call) (c : Call) → last_cancel (xs ++ c ∷ []) ≡ some (length xs)
last_cancel-append [] c = refl
last_cancel-append (x ∷ xs) c = ap some (length-append xs (c ∷ []) ∙ omega arith)

-- The first calls stand in `xs`, and `k` more in `c`.
abbrev waiting : (List Call → Bool) → (List Call → Option ℕ) → Call → List Call → ℕ → Server
waiting b f c xs k = record { busy = b xs; runner_cancel_func = f xs; calls = xs ++ replicate k c }

-- One call goes on from `c` to `d`.
one_moves :
    (b : List Call → Bool) (f : List Call → Option ℕ) (c d : Call)
    → ((xs : List Call) (cs : List Call)
        → run_step (length xs) c (record { busy = b xs; runner_cancel_func = f xs; calls = cs }) ≡ (
          record { busy = b (xs ++ d ∷ []); runner_cancel_func = f (xs ++ d ∷ []); calls = cs },
          d,
        ))
    → (xs : List Call) (k : ℕ) → Step (waiting b f c xs (suc k)) (waiting b f c (xs ++ d ∷ []) k)
one_moves b f c d st xs k =
    let e = st xs (xs ++ replicate (suc k) c) in
    move xs (replicate k c) c refl (
      ap
        (λ cs. record {
          busy = b (xs ++ d ∷ []);
          runner_cancel_func = f (xs ++ d ∷ []);
          calls = cs;
        })
        (append_assoc xs (d ∷ []) (replicate k c))
      ∙ ap (λ p. record p.0 { calls = xs ++ p.1 ∷ replicate k c }) (sym e))

-- All calls go on, from the first to the last.
all_go_on :
    (b : List Call → Bool) (f : List Call → Option ℕ) (c d : Call) (n : ℕ)
    → ((xs : List Call) (k : ℕ) → Step (waiting b f c xs (suc k)) (waiting b f c (xs ++ d ∷ []) k))
    → Reach (waiting b f c [] n) (record {
      busy = b (replicate n d);
      runner_cancel_func = f (replicate n d);
      calls = replicate n d;
    })
all_go_on b f c d n st =
    subst
      (λ cs.
        Reach (waiting b f c [] n)
          (record { busy = b (replicate n d); runner_cancel_func = f (replicate n d); calls = cs }))
      (append-nil (replicate n d)) (all_move c d (waiting b f c) st [] n)

length-replicate : (n : ℕ) (c : Call) → length (replicate n c) ≡ n
length-replicate zero c = refl
length-replicate (suc n) c = ap suc (length-replicate n c)

-- For any number n + 1 of calls on a server that is not busy: if all of them ask `isBusy` before any of
-- them says `setBusy(true)`, all of them pass, and go on until all n + 1 stream the results of their
-- runners at the same time, with the last one's runner as the only one that `runnerCancelFunc` cancels.
pub all_pass_together :
    (n : ℕ)
    → Reach
        (record { busy = false; runner_cancel_func = none; calls = replicate (suc n) arrived })
        (record { busy = true; runner_cancel_func = some n; calls = replicate (suc n) streaming })
unfolding run_step is_busy set_busy
all_pass_together n =
    let pass =
      all_go_on (λ xs. false) (λ xs. none) arrived admitted (suc n)
        (one_moves (λ xs. false) (λ xs. none) arrived admitted (λ xs cs. refl)) in
    let mark =
      all_go_on some_marked (λ xs. none) admitted marked (suc n)
        (one_moves some_marked (λ xs. none) admitted marked
          (λ xs cs. rw (some_marked-append xs marked) refl)) in
    let run =
      all_go_on (λ xs. true) last_cancel marked streaming (suc n)
        (one_moves (λ xs. true) last_cancel marked streaming
          (λ xs cs. rw (last_cancel-append xs streaming) refl)) in
    subst
      (λ k.
        Reach
          (record { busy = false; runner_cancel_func = none; calls = replicate (suc n) arrived })
          (record {
            busy = true;
            runner_cancel_func = some k;
            calls = replicate (suc n) streaming;
          }))
      (length-replicate n streaming) (Reach-trans pass (Reach-trans mark run))

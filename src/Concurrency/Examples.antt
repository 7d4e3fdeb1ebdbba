-- ===== src/Concurrency/Examples.antt =====
-- Runs of the concurrency controller and the rate limiter at concrete inputs.
use ops_service.Prelude.{ℕ, ◌+◌, ◌≡◌, refl, none, some, List, [], ◌∷◌, All, arith}
use ops_service.Prelude.Int.{pos}
use ops_service.Prelude.Bytes.{codes}
use ops_service.Concurrency.{ConcurrencyConfig, reject, wait, group, new_controller}
use ops_service.Concurrency.System.{
  ended, acquire, proceed, leave, System, Reach, start, later, arrives, leaves,
}
use ops_service.Concurrency.Balance.{free, capacity}
use ops_service.Concurrency.Conservation.{held_by, Reach-total}
use ops_service.Concurrency.Progress.{never_deadlocks}

-- At most two requests at once, one of them for a group.
abbrev waiting : ConcurrencyConfig
waiting = record {
  global_limit = pos 2;
  group_limit = some (pos 1);
  environment_limit = some (pos 2);
  production_limit = some (pos 1);
  strategy = wait;
}

abbrev at_once : ConcurrencyConfig
at_once = record waiting { strategy = reject }

abbrev web : List ℕ
web = codes "web"

abbrev one_request : System
one_request = record {
  controller = (acquire at_once (some web) none (new_controller at_once)).0;
  requests = (acquire at_once (some web) none (new_controller at_once)).1 ∷ [];
}

one_request-Reach : Reach at_once one_request
one_request-Reach = later start (arrives (some web) none)

Reach-total_example :
    free at_once (group web) one_request.controller + held_by (group web) one_request.requests
    ≡ capacity at_once (group web)
Reach-total_example = Reach-total at_once (group web) one_request-Reach

abbrev one_left : System
one_left = record {
  controller =
      leave waiting (acquire waiting none none (new_controller waiting)).0
        (acquire waiting none none (new_controller waiting)).1;
  requests = ended ∷ [];
}

one_left-Reach : Reach waiting one_left
one_left-Reach =
    later (later start (arrives none none))
      (leaves [] [] (acquire waiting none none (new_controller waiting)).1 refl)

never_deadlocks_example : All (λ x. x ≡ ended) one_left.requests
unfolding proceed
never_deadlocks_example = never_deadlocks waiting one_left-Reach ((omega arith, refl), tt)

abbrev unlimited : ConcurrencyConfig
unlimited = record waiting { global_limit = pos 0; group_limit = none }

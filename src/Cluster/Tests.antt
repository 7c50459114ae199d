-- ===== src/Cluster/Tests.antt =====
-- Runs of the elector model, and its theorems at them.
use csp_lib.Base.{◌≡◌, refl, true, false, not, some, none, List, [], ◌∷◌, if◌then◌else◌, arith}
use csp_lib.Cluster.Election.{
  leader, follower, leading, renewing, no_loop, Config, Elector, granted, transacted, returned,
  key_read, delay_passed, replied, renewed, resigned, Effect, elected, demoted, new, on_start,
  is_leader, step, on_renewal, campaign_step, on_transaction, on_grant, on_elected_return,
  on_key_read, Run, here, more, resign_call,
}
use csp_lib.Cluster.Election.Session.{callbacks, IsSession, IsFineRun, run-IsSession}
use csp_lib.Cluster.Election.Fencing.{renew_all, has_streak, renew_all-fences, demoted_for_good}
use csp_lib.Cluster.Election.Campaigns.{CanLead, seeks, seeking_can_lead}

abbrev node : Config
node = record { instance_id = 4; max_keepalive_failures = 2 }

abbrev elected_node : Elector
elected_node = record {
  state = leader;
  current_leader_id = some 4;
  lease = some 7;
  campaign = leading;
  keepalive = renewing 7 1;
}

abbrev renewed_node : Elector
renewed_node = record elected_node { keepalive = renewing 7 0 }

abbrev fenced_node : Elector
fenced_node = record elected_node {
  state = follower;
  current_leader_id = none;
  keepalive = no_loop;
}

-- Granted, won, and told; one renewal fails.
abbrev lead : Run node (on_start new) elected_node (elected ∷ [])
unfolding step on_start campaign_step on_grant on_transaction on_elected_return on_renewal new
lead =
    more
      (more (more (more here (replied (granted (some 7)))) (replied (transacted (some true))))
        (replied (returned true)))
      (renewed false)

lead-IsFine : IsFineRun lead
unfolding step on_start campaign_step on_grant on_transaction on_elected_return on_renewal new
lead-IsFine = ((((tt, tt), tt), refl), tt)

started : new.keepalive ≡ no_loop
unfolding new
started = refl

run-IsSession_example : IsSession node leading leader (some 4) (renewing 7 1) (elected ∷ [])
run-IsSession_example =
    run-IsSession node new elected_node (elected ∷ []) (ground arith) started lead lead-IsFine

renew_all-fences_example :
    let over = has_streak 2 (false ∷ true ∷ false ∷ false ∷ []) in
    (is_leader (renew_all node (false ∷ true ∷ false ∷ false ∷ []) renewed_node).0 ≡ not over)
    × ((renew_all node (false ∷ true ∷ false ∷ false ∷ []) renewed_node).1
        ≡ (if over then demoted ∷ [] else []))
renew_all-fences_example =
    renew_all-fences node (false ∷ true ∷ false ∷ false ∷ []) renewed_node 7 (ground arith) refl
      refl

-- After the demotion a call of `resign` and late renewals.
abbrev late : Run node fenced_node fenced_node []
unfolding step on_renewal resign_call is_leader
late = more (more here (renewed true)) resigned

abbrev no_effects : List Effect
no_effects = []

demoted_for_good_example : (fenced_node ≡ fenced_node) × (no_effects ≡ [])
demoted_for_good_example =
    demoted_for_good node fenced_node fenced_node no_effects refl refl refl late

seeks-on_start : seeks (on_start new).campaign ≡ true
unfolding on_start
seeks-on_start = refl

seeking_can_lead_example : CanLead node (on_start new)
seeking_can_lead_example = seeking_can_lead node (on_start new) seeks-on_start

-- A leader whose `_on_elected` raised loses a later campaign to its own key: it is a follower, and
-- `_on_demoted` was not called.
untold :
    (s : Elector) × (s.state ≡ follower)
    × (es : List Effect) × Run node (on_start new) s es
    × (callbacks es ≡ elected ∷ [])
unfolding step on_start campaign_step on_grant on_transaction on_elected_return on_key_read new
untold = (
  _,
  refl,
  _,
  more
      (more
        (more
          (more
            (more (more (more here (replied (granted (some 7)))) (replied (transacted (some true))))
              (replied (returned false)))
            (replied delay_passed))
          (replied (granted (some 8))))
        (replied (transacted (some false))))
      (replied (key_read (some (some 4)))),
  refl,
)

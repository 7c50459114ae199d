-- ===== src/Cluster/Election.antt =====
-- `LeaderElector` (csp_lib/cluster/election.py), whose tasks wait for replies of etcd and of the
-- callbacks: a step is one reply with the code that runs after it up to the next wait. An id and
-- a lease are numbers for the values. A stop runs to its end before the next reply.
pub mod Session
pub mod Fencing
pub mod Campaigns
use csp_lib.Base.{
  ℕ, suc, Bool, true, false, Option, none, some, List, [], ◌∷◌, ◌++◌, leb, if◌then◌else◌,
}

-- `ElectionState`.
pub data ElectionState : Type 0 where
  candidate leader follower stopped : ElectionState

-- Where the campaign task waits: for `lease_grant`, for `txn_put_if_not_exists`, for
-- `_on_elected`, as a leader for `_stop_event`, for `get` after a lost transaction, for the
-- revocation of the unused lease, for the next poll of the key, or for the retry delay.
pub data Campaign : Type 0 where
  no_task : Campaign
  granting : Campaign
  contesting : ℕ → Campaign
  electing : ℕ → Campaign
  leading : Campaign
  reading : ℕ → Campaign
  revoking : Campaign
  polling : Campaign
  retrying : Campaign

-- A keepalive loop with its lease and `consecutive_failures`.
pub data Keepalive : Type 0 where
  no_loop : Keepalive
  renewing : ℕ → ℕ → Keepalive

pub record Config : Type 0 where
  pub instance_id : ℕ
  pub max_keepalive_failures : ℕ

pub record Elector : Type 0 where
  pub state : ElectionState
  pub current_leader_id : Option ℕ
  pub lease : Option ℕ
  pub campaign : Campaign
  pub keepalive : Keepalive

-- What each wait of the campaign task can bring; `none` and `false` stand for an exception, and the
-- value that `get` finds is the leader's id in it.
pub data Reply : Campaign → Type 0 where
  granted : Option ℕ → Reply granting
  transacted : {l : ℕ} → Option Bool → Reply (contesting l)
  returned : {l : ℕ} → Bool → Reply (electing l)
  key_read : {l : ℕ} → Option (Option ℕ) → Reply (reading l)
  unused_revoked : Reply revoking
  polled : Option (Option ℕ) → Reply polling
  delay_passed : Reply retrying

-- A reply, the outcome of a renewal, or a call of `resign`.
pub data Event (s : Elector) : Type 0 where
  replied : Reply s.campaign → Event s
  renewed : Bool → Event s
  resigned : Event s

-- Calls of `_on_elected`, `_on_demoted` and `lease_revoke`.
pub data Effect : Type 0 where
  elected demoted : Effect
  revoke : ℕ → Effect

abbrev pub Stepped : Type 0
Stepped = Elector × List Effect

abbrev pub quiet : Elector → Stepped
quiet s = (s, [])

-- `__init__`.
unfoldable pub new : Elector
new = record {
  state = stopped;
  current_leader_id = none;
  lease = none;
  campaign = no_task;
  keepalive = no_loop;
}

-- `_on_start`; the campaign loop begins with a grant.
unfoldable pub on_start : Elector → Elector
on_start s = record s { state = candidate; campaign = granting }

abbrev pub revoke_lease : Option ℕ → List Effect
revoke_lease none = []
revoke_lease (some l) = revoke l ∷ []

-- `_resign_internal`, whether or not the revocation raises.
unfoldable pub resign_internal : Elector → Stepped
resign_internal s = (record s { lease = none }, revoke_lease s.lease)

-- `is_leader`.
abbrev pub leads : ElectionState → Bool
leads candidate = false
leads leader = true
leads follower = false
leads stopped = false

unfoldable pub is_leader : Elector → Bool
is_leader s = leads s.state

-- `resign`.
unfoldable pub resign_call : Elector → Stepped
unfolding resign_internal is_leader
resign_call s = if is_leader s then resign_internal s else quiet s

-- `_on_stop`: `resign` if it leads, then no task is left.
unfoldable pub on_stop : Elector → Stepped
unfolding resign_call
on_stop s =
    let (s₁, es) = resign_call s in
    (record s₁ { state = stopped; campaign = no_task; keepalive = no_loop }, es)

-- `_handle_demotion`.
unfoldable pub handle_demotion : Elector → Stepped
unfolding is_leader
handle_demotion s =
    if is_leader s
    then (record s { state = follower; current_leader_id = none }, demoted ∷ [])
    else quiet s

-- The branches of `_campaign_loop` and `_try_campaign` after each wait.
unfoldable pub on_grant : Option ℕ → Elector → Elector
on_grant none s = record s { campaign = retrying }
on_grant (some l) s = record s { lease = some l; campaign = contesting l }

unfoldable pub on_transaction : Config → ℕ → Option Bool → Elector → Stepped
on_transaction c l none s = quiet (record s { campaign = retrying })
on_transaction c l (some true) s = (
  record s { state = leader; current_leader_id = some c.instance_id; campaign = electing l },
  elected ∷ [],
)
on_transaction c l (some false) s = quiet (record s { campaign = reading l })

-- A callback that raises leaves the campaign, without a keepalive loop.
unfoldable pub on_elected_return : ℕ → Bool → Elector → Elector
on_elected_return l true s = record s { campaign = leading; keepalive = renewing l 0 }
on_elected_return l false s = record s { campaign = retrying }

abbrev pub seen_leader : Option ℕ → Option ℕ → Option ℕ
seen_leader none before = before
seen_leader (some id) before = some id

unfoldable pub on_key_read : ℕ → Option (Option ℕ) → Elector → Stepped
on_key_read l none s = quiet (record s { campaign = retrying })
on_key_read l (some value) s = (
  record s {
    current_leader_id = seen_leader value s.current_leader_id;
    state = follower;
    campaign = revoking;
  },
  revoke l ∷ [],
)

unfoldable pub on_revoked : Elector → Elector
on_revoked s = record s { lease = none; campaign = polling }

-- `_wait_for_leader_loss`: after a key that is gone the loop campaigns again.
unfoldable pub on_poll : Option (Option ℕ) → Elector → Elector
on_poll none s = record s { campaign = polling }
on_poll (some (some value)) s = record s { campaign = polling }
on_poll (some none) s = record s { state = candidate; campaign = granting }

unfoldable pub campaign_step : Config → (p : Campaign) → Reply p → Elector → Stepped
unfolding on_grant on_transaction on_elected_return on_key_read on_revoked on_poll
campaign_step c no_task r s = elim r [ ]
campaign_step c leading r s = elim r [ ]
campaign_step c granting (granted l) s = quiet (on_grant l s)
campaign_step c (contesting l) (transacted won) s = on_transaction c l won s
campaign_step c (electing l) (returned fine) s = quiet (on_elected_return l fine s)
campaign_step c (reading l) (key_read value) s = on_key_read l value s
campaign_step c revoking unused_revoked s = quiet (on_revoked s)
campaign_step c polling (polled value) s = quiet (on_poll value s)
campaign_step c retrying delay_passed s = quiet (record s { campaign = granting })

-- `_keepalive_loop` after `lease_keepalive`.
unfoldable pub on_renewal : Config → Bool → Keepalive → Elector → Stepped
unfolding handle_demotion
on_renewal c fine no_loop s = quiet s
on_renewal c true (renewing l failures) s = quiet (record s { keepalive = renewing l 0 })
on_renewal c false (renewing l failures) s =
    if leb c.max_keepalive_failures (suc failures)
    then handle_demotion (record s { keepalive = no_loop })
    else quiet (record s { keepalive = renewing l (suc failures) })

unfoldable pub step : Config → (s : Elector) → Event s → Stepped
unfolding campaign_step on_renewal resign_call
step c s (replied r) = campaign_step c s.campaign r s
step c s (renewed fine) = on_renewal c fine s.keepalive s
step c s resigned = resign_call s

-- The executions from a state, with the effects so far.
pub data Run (c : Config) (s₀ : Elector) : Elector → List Effect → Type 0 where
  here : Run c s₀ s₀ []
  more :
      {s : Elector} {es : List Effect}
      → Run c s₀ s es
      → (e : Event s) → Run c s₀ (step c s e).0 (es ++ (step c s e).1)

-- ===== src/Cluster/Election/Campaigns.antt =====
-- The way to the lead (csp_lib/cluster/election.py).
use csp_lib.Base.{ℕ, Bool, true, false, ◌≡◌, refl, none, some, List, subst}
use csp_lib.Cluster.Election.{
  Campaign, no_task, granting, contesting, electing, leading, reading, revoking, polling, retrying,
  renewing, Config, Elector, Reply, granted, transacted, returned, key_read, unused_revoked, polled,
  delay_passed, replied, Effect, is_leader, on_grant, on_transaction, on_elected_return,
  on_key_read, on_revoked, on_poll, campaign_step, step, Run, here, more,
}

-- A run that makes the elector the leader, with its keepalive loop, by what etcd answers next.
abbrev pub CanLead : Config → Elector → Type 0
CanLead c s =
    (s' : Elector) × (es : List Effect) × Run c s s' es
    × (is_leader s' ≡ true)
    × (s'.current_leader_id ≡ some c.instance_id)
    × (s'.campaign ≡ leading)
    × (l : ℕ) × (s'.keepalive ≡ renewing l 0)

prepend :
    {c : Config} {s s₁ s' : Elector} {es fs : List Effect}
    → Run c s s₁ es
    → Run c s₁ s' fs
    → (gs : List Effect) × Run c s s' gs
prepend r here = (_, r)
prepend r (more q e) = let (gs, t) = prepend r q in (_, more t e)

advance :
    (c : Config) (s : Elector) (p : Campaign) (r : Reply p)
    → s.campaign ≡ p
    → CanLead c (campaign_step c p r s).0
    → CanLead c s
unfolding step
advance c s p r e =
    subst (λ q. (t : Reply q) → CanLead c (campaign_step c q t s).0 → CanLead c s) e first r
  where
    first : (t : Reply s.campaign) → CanLead c (campaign_step c s.campaign t s).0 → CanLead c s
    first t (s', es, q, a, i, w, l, k) =
        let (gs, q') = prepend (more here (replied t)) q in (s', gs, q', a, i, w, l, k)

-- Where the elector seeks the lead: it does not have it, and does not wait for a stop.
abbrev pub seeks : Campaign → Bool
seeks no_task = false
seeks (electing l) = false
seeks leading = false
seeks granting = true
seeks (contesting l) = true
seeks (reading l) = true
seeks revoking = true
seeks polling = true
seeks retrying = true

won : (c : Config) (s : Elector) (l : ℕ) → s.campaign ≡ contesting l → CanLead c s
unfolding campaign_step on_transaction on_elected_return is_leader
won c s l e =
    advance c s (contesting l) (transacted (some true)) e
      (advance c _ (electing l) (returned true) refl (_, _, here, refl, refl, refl, l, refl))

from_grant : (c : Config) (s : Elector) → s.campaign ≡ granting → CanLead c s
unfolding campaign_step on_grant
from_grant c s e = advance c s granting (granted (some 0)) e (won c _ 0 refl)

from_poll : (c : Config) (s : Elector) → s.campaign ≡ polling → CanLead c s
unfolding campaign_step on_poll
from_poll c s e = advance c s polling (polled (some none)) e (from_grant c _ refl)

from_revoke : (c : Config) (s : Elector) → s.campaign ≡ revoking → CanLead c s
unfolding campaign_step on_revoked
from_revoke c s e = advance c s revoking unused_revoked e (from_poll c _ refl)

-- From wherever the elector seeks the lead, by errors and lost campaigns too, replies of etcd
-- make it the leader, with its own id as the leader's and a keepalive loop.
pub seeking_can_lead : (c : Config) (s : Elector) → seeks s.campaign ≡ true → CanLead c s
unfolding campaign_step on_key_read
seeking_can_lead c s h = at s.campaign refl h
  where
    at : (p : Campaign) → s.campaign ≡ p → seeks p ≡ true → CanLead c s
    at no_task e h = cc
    at (electing l) e h = cc
    at leading e h = cc
    at granting e h = from_grant c s e
    at (contesting l) e h = won c s l e
    at (reading l) e h = advance c s (reading l) (key_read (some none)) e (from_revoke c _ refl)
    at revoking e h = from_revoke c s e
    at polling e h = from_poll c s e
    at retrying e h = advance c s retrying delay_passed e (from_grant c _ refl)

-- ===== src/Cluster/Election/Session.antt =====
-- The callbacks of one session of the elector, from a start on (csp_lib/cluster/election.py).
use csp_lib.Base.{
  ℕ, suc, Bool, true, false, ◌≡◌, refl, ap, ◌∙◌, sym, ◌<◌, ◌⊎◌, inl, inr, Option, none, some, List,
  [], ◌∷◌, ◌++◌, leb, ◌↔◌, subst, arith, Bool-cases,
}
use csp_lib.Cluster.Election.{
  ElectionState, leader, follower, Campaign, no_task, granting, contesting, electing, leading,
  reading, revoking, polling, retrying, Keepalive, no_loop, renewing, Config, Elector, Reply,
  granted, transacted, returned, key_read, unused_revoked, polled, delay_passed, Event, replied,
  renewed, resigned, Effect, elected, demoted, revoke, on_start, is_leader, leads, resign_internal,
  resign_call, handle_demotion, on_grant, on_transaction, on_elected_return, on_key_read,
  on_revoked, on_poll, campaign_step, on_renewal, step, Run, here, more, revoke_lease,
}

-- The calls of `_on_elected` and `_on_demoted`, in order.
abbrev pub callbacks : List Effect → List Effect
callbacks [] = []
callbacks (elected ∷ es) = elected ∷ callbacks es
callbacks (demoted ∷ es) = demoted ∷ callbacks es
callbacks (revoke l ∷ es) = callbacks es

pub callbacks-append : (es fs : List Effect) → callbacks (es ++ fs) ≡ callbacks es ++ callbacks fs
callbacks-append [] fs = refl
callbacks-append (elected ∷ es) fs = ap (λ x. elected ∷ x) (callbacks-append es fs)
callbacks-append (demoted ∷ es) fs = ap (λ x. demoted ∷ x) (callbacks-append es fs)
callbacks-append (revoke l ∷ es) fs = callbacks-append es fs

-- No `_on_elected` of the execution raised.
abbrev pub IsFine : (p : Campaign) → Reply p → Type 0
IsFine p (returned fine) = fine ≡ true
IsFine p (granted l) = Unit
IsFine p (transacted won) = Unit
IsFine p (key_read value) = Unit
IsFine p unused_revoked = Unit
IsFine p (polled value) = Unit
IsFine p delay_passed = Unit

abbrev pub IsFineEvent : (s : Elector) → Event s → Type 0
IsFineEvent s (replied r) = IsFine s.campaign r
IsFineEvent s (renewed fine) = Unit
IsFineEvent s resigned = Unit

abbrev pub IsFineRun : {c : Config} {s₀ s : Elector} {es : List Effect} → Run c s₀ s es → Type 0
IsFineRun here = Unit
IsFineRun (more {s} r e) = IsFineRun r × IsFineEvent s e

-- Without a lead: a candidate or a follower, nothing renewed, no callback called.
abbrev IsSeeking : ElectionState → Keepalive → List Effect → Type 0
IsSeeking st k told = (leads st ≡ false) × (k ≡ no_loop) × (told ≡ [])

-- The loop renews a lease and has not yet failed too often.
abbrev IsServing : Config → Keepalive → Type 0
IsServing c no_loop = ⊥
IsServing c (renewing l n) = n < c.max_keepalive_failures

-- Where the campaign task waits decides the state and the callbacks called so far.
abbrev pub IsSession :
    Config → Campaign → ElectionState → Option ℕ → Keepalive → List Effect → Type 0
IsSession c no_task st id k told = ⊥
IsSession c (electing l) st id k told =
    (st ≡ leader) × (id ≡ some c.instance_id) × (k ≡ no_loop) × (told ≡ elected ∷ [])
IsSession c leading st id k told =
    ((st ≡ leader) × (id ≡ some c.instance_id) × IsServing c k × (told ≡ elected ∷ []))
    ⊎ ((st ≡ follower) × (id ≡ none) × (k ≡ no_loop) × (told ≡ elected ∷ demoted ∷ []))
IsSession c granting st id k told = IsSeeking st k told
IsSession c (contesting l) st id k told = IsSeeking st k told
IsSession c (reading l) st id k told = IsSeeking st k told
IsSession c revoking st id k told = IsSeeking st k told
IsSession c polling st id k told = IsSeeking st k told
IsSession c retrying st id k told = IsSeeking st k told

abbrev InSession : Config → Elector → List Effect → Type 0
InSession c s told = IsSession c s.campaign s.state s.current_leader_id s.keepalive told

quiet_told : (told : List Effect) → told ++ [] ≡ told
quiet_told [] = refl
quiet_told (e ∷ es) = ap (λ x. e ∷ x) (quiet_told es)

replied-keeps :
    (c : Config) (p : Campaign) (r : Reply p) (s : Elector) (told : List Effect)
    → 0 < c.max_keepalive_failures
    → IsFine p r
    → IsSession c p s.state s.current_leader_id s.keepalive told
    → InSession c (campaign_step c p r s).0 (told ++ callbacks (campaign_step c p r s).1)
unfolding campaign_step on_grant on_transaction on_elected_return on_key_read on_revoked on_poll
replied-keeps c no_task r s told m f h = elim r [ ]
replied-keeps c leading r s told m f h = elim r [ ]
replied-keeps c granting (granted none) s told m f (a, b, e) = (a, b, quiet_told told ∙ e)
replied-keeps c granting (granted (some l)) s told m f (a, b, e) = (a, b, quiet_told told ∙ e)
replied-keeps c (contesting l) (transacted none) s told m f (a, b, e) = (a, b, quiet_told told ∙ e)
replied-keeps c (contesting l) (transacted (some true)) s told m f (a, b, e) =
    (refl, refl, b, ap (λ x. x ++ elected ∷ []) e)
replied-keeps c (contesting l) (transacted (some false)) s told m f (a, b, e) =
    (a, b, quiet_told told ∙ e)
replied-keeps c (electing l) (returned true) s told m f (a, i, b, e) =
    inl (a, i, m, quiet_told told ∙ e)
replied-keeps c (electing l) (returned false) s told m f h = cc
replied-keeps c (reading l) (key_read none) s told m f (a, b, e) = (a, b, quiet_told told ∙ e)
replied-keeps c (reading l) (key_read (some v)) s told m f (a, b, e) =
    (refl, b, quiet_told told ∙ e)
replied-keeps c revoking unused_revoked s told m f (a, b, e) = (a, b, quiet_told told ∙ e)
replied-keeps c polling (polled none) s told m f (a, b, e) = (a, b, quiet_told told ∙ e)
replied-keeps c polling (polled (some none)) s told m f (a, b, e) = (refl, b, quiet_told told ∙ e)
replied-keeps c polling (polled (some (some v))) s told m f (a, b, e) = (a, b, quiet_told told ∙ e)
replied-keeps c retrying delay_passed s told m f (a, b, e) = (a, b, quiet_told told ∙ e)

abbrev IsLed : Config → Campaign → ElectionState → Option ℕ → Keepalive → List Effect → Type 0
IsLed c p st id k told =
    (p ≡ leading)
    × (st ≡ leader)
    × (id ≡ some c.instance_id)
    × IsServing c k
    × (told ≡ elected ∷ [])

loop_or_none :
    (c : Config) (p : Campaign) (st : ElectionState) (id : Option ℕ) (k : Keepalive)
    (told : List Effect)
    → IsSession c p st id k told
    → (k ≡ no_loop) ⊎ IsLed c p st id k told
loop_or_none c no_task st id k told h = elim h [ ]
loop_or_none c (electing l) st id k told (a, i, b, e) = inl b
loop_or_none c leading st id k told (inl (a, i, b, e)) = inr (refl, a, i, b, e)
loop_or_none c leading st id k told (inr (a, i, b, e)) = inl b
loop_or_none c granting st id k told (a, b, e) = inl b
loop_or_none c (contesting l) st id k told (a, b, e) = inl b
loop_or_none c (reading l) st id k told (a, b, e) = inl b
loop_or_none c revoking st id k told (a, b, e) = inl b
loop_or_none c polling st id k told (a, b, e) = inl b
loop_or_none c retrying st id k told (a, b, e) = inl b

served-keeps :
    (c : Config) (fine : Bool) (k : Keepalive) (s : Elector) (told : List Effect)
    → 0 < c.max_keepalive_failures
    → IsLed c s.campaign s.state s.current_leader_id k told
    → InSession c (on_renewal c fine k s).0 (told ++ callbacks (on_renewal c fine k s).1)
unfolding on_renewal handle_demotion is_leader
served-keeps c fine no_loop s told m (p, a, i, b, e) = elim b [ ]
served-keeps c true (renewing l n) s told m (p, a, i, b, e) =
    rw p (inl (a, i, m, quiet_told told ∙ e))
served-keeps c false (renewing l n) s told m (p, a, i, b, e) =
    elim (Bool-cases (leb c.max_keepalive_failures (suc n))) [
      | inl t ↦ rw (t, a, p) (inr (refl, refl, refl, ap (λ x. x ++ demoted ∷ []) e))
      | inr f ↦ rw (f, p) (inl (a, i, ground (arith, f), quiet_told told ∙ e))
    ]

renewed-keeps :
    (c : Config) (fine : Bool) (s : Elector) (told : List Effect)
    → 0 < c.max_keepalive_failures
    → InSession c s told
    → (let st = on_renewal c fine s.keepalive s in InSession c st.0 (told ++ callbacks st.1))
unfolding on_renewal
renewed-keeps c fine s told m h =
    elim (loop_or_none c s.campaign s.state s.current_leader_id s.keepalive told h) [
      | inl b ↦
          rw (b, quiet_told told)
            (subst (λ k. IsSession c s.campaign s.state s.current_leader_id k told) b h)
      | inr l ↦ served-keeps c fine s.keepalive s told m l
    ]

resigned-keeps :
    (c : Config) (s : Elector) (told : List Effect)
    → InSession c s told
    → InSession c (resign_call s).0 (told ++ callbacks (resign_call s).1)
unfolding resign_call resign_internal
resigned-keeps c s told h = elim (Bool-cases (is_leader s)) [
  | inr f ↦ rw (f, quiet_told told) h
  | inl t ↦ rw (t, no_callbacks s.lease, quiet_told told) h
]
  where
    no_callbacks : (l : Option ℕ) → callbacks (revoke_lease l) ≡ []
    no_callbacks none = refl
    no_callbacks (some l) = refl

step-keeps :
    (c : Config) (s : Elector) (e : Event s) (told : List Effect)
    → 0 < c.max_keepalive_failures
    → IsFineEvent s e
    → InSession c s told
    → InSession c (step c s e).0 (told ++ callbacks (step c s e).1)
unfolding step
step-keeps c s (replied r) told m f h = replied-keeps c s.campaign r s told m f h
step-keeps c s (renewed fine) told m f h = renewed-keeps c fine s told m h
step-keeps c s resigned told m f h = resigned-keeps c s told h

-- In a session that began without a keepalive loop and in which no `_on_elected` raised, the
-- callbacks so far are none, `_on_elected`, or that and then `_on_demoted`, as the place where the
-- campaign task waits says: nothing while it seeks the lead, `_on_elected` when the elector is
-- the leader, with its own id as the leader's and fewer failed renewals than the limit, and both
-- when it is a follower again.
pub run-IsSession :
    (c : Config) (s₀ s : Elector) (es : List Effect)
    → 0 < c.max_keepalive_failures
    → s₀.keepalive ≡ no_loop
    → (r : Run c (on_start s₀) s es) → IsFineRun r
    → IsSession c s.campaign s.state s.current_leader_id s.keepalive (callbacks es)
unfolding on_start
run-IsSession c s₀ _ _ m n here f = (refl, n, refl)
run-IsSession c s₀ _ _ m n (more {s} {es} r e) (f, g) =
    subst (InSession c (step c s e).0) (sym (callbacks-append es (step c s e).1))
      (step-keeps c s e (callbacks es) m g (run-IsSession c s₀ s es m n r f))

-- So the elector is the leader exactly when the last callback was `_on_elected`.
pub leader_told :
    (c : Config) (s₀ s : Elector) (es : List Effect)
    → 0 < c.max_keepalive_failures
    → s₀.keepalive ≡ no_loop
    → (r : Run c (on_start s₀) s es) → IsFineRun r
    → (is_leader s ≡ true) ↔ (callbacks es ≡ elected ∷ [])
unfolding is_leader
leader_told c s₀ s es m n r f =
    of_session s.campaign s.state s.current_leader_id s.keepalive (callbacks es)
      (run-IsSession c s₀ s es m n r f)
  where
    of_seeking :
        (st : ElectionState) (k : Keepalive) (told : List Effect)
        → IsSeeking st k told
        → (leads st ≡ true) ↔ (told ≡ elected ∷ [])
    of_seeking st k told (a, b, e) = (λ t. cc, λ h. cc)

    of_session :
        (p : Campaign) (st : ElectionState) (id : Option ℕ) (k : Keepalive) (told : List Effect)
        → IsSession c p st id k told
        → (leads st ≡ true) ↔ (told ≡ elected ∷ [])
    of_session no_task st id k told h = elim h [ ]
    of_session (electing l) st id k told (a, i, b, e) = (λ t. e, λ h. ap leads a)
    of_session leading st id k told (inl (a, i, b, e)) = (λ t. e, λ h. ap leads a)
    of_session leading st id k told (inr (a, i, b, e)) = (λ t. cc, λ h. cc)
    of_session granting st id k told h = of_seeking st k told h
    of_session (contesting l) st id k told h = of_seeking st k told h
    of_session (reading l) st id k told h = of_seeking st k told h
    of_session revoking st id k told h = of_seeking st k told h
    of_session polling st id k told h = of_seeking st k told h
    of_session retrying st id k told h = of_seeking st k told h

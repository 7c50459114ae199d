-- ===== src/Cluster/Election/Fencing.antt =====
-- The keepalive loop of a leader (csp_lib/cluster/election.py).
use csp_lib.Base.{
  ℕ, zero, suc, Bool, true, false, not, ◌&&◌, ◌||◌, ◌≡◌, refl, ap, ◌∙◌, sym, ◌<◌, ◌≤◌, ◌+◌, none,
  List, [], ◌∷◌, ◌++◌, leb, subst, arith, if◌then◌else◌,
}
use csp_lib.Cluster.Election.{
  leader, follower, Campaign, no_task, granting, contesting, electing, leading, reading, revoking,
  polling, retrying, no_loop, renewing, Config, Elector, Reply, granted, transacted, returned,
  key_read, unused_revoked, polled, delay_passed, Event, replied, renewed, resigned, Effect,
  demoted, is_leader, leads, resign_call, handle_demotion, on_renewal, step, Stepped, Run, here,
  more,
}

-- The outcomes of renewals, one after the other.
unfoldable pub renew_all : Config → List Bool → Elector → Stepped
unfolding on_renewal
renew_all c [] s = (s, [])
renew_all c (b ∷ bs) s =
    let (s₁, es) = on_renewal c b s.keepalive s in
    let (s₂, fs) = renew_all c bs s₁ in (s₂, es ++ fs)

-- The first `k` outcomes are failures, and some `k` consecutive outcomes are.
abbrev pub fails_first : ℕ → List Bool → Bool
fails_first zero bs = true
fails_first (suc k) [] = false
fails_first (suc k) (b ∷ bs) = not b && fails_first k bs

abbrev pub has_streak : ℕ → List Bool → Bool
has_streak k [] = fails_first k []
has_streak k (b ∷ bs) = fails_first k (b ∷ bs) || has_streak k bs

fails_first-less :
    (j k : ℕ) (bs : List Bool) → j ≤ k → fails_first k bs ≡ true → fails_first j bs ≡ true
fails_first-less zero k bs le h = refl
fails_first-less (suc j) zero bs le h = absurd (ground (arith, le))
fails_first-less (suc j) (suc k) [] le h = cc
fails_first-less (suc j) (suc k) (true ∷ bs) le h = cc
fails_first-less (suc j) (suc k) (false ∷ bs) le h = fails_first-less j k bs (ground (arith, le)) h

fails_first-has_streak : (k : ℕ) (bs : List Bool) → fails_first k bs ≡ true → has_streak k bs ≡ true
fails_first-has_streak k [] h = h
fails_first-has_streak k (b ∷ bs) h = rw h refl

-- After the loop ended nothing is renewed.
renew_ended :
    (c : Config) (bs : List Bool) (s : Elector) → s.keepalive ≡ no_loop → renew_all c bs s ≡ (s, [])
unfolding renew_all on_renewal
renew_ended c [] s e = refl
renew_ended c (b ∷ bs) s e =
    ap (λ st. ((renew_all c bs st.0).0, st.1 ++ (renew_all c bs st.0).1))
      (ap (λ k. on_renewal c b k s) e)
    ∙ renew_ended c bs s e

-- A disjunction whose left side implies its right side.
implied : (x y : Bool) → (x ≡ true → y ≡ true) → (x || y) ≡ y
implied true y h = sym (h refl)
implied false y h = refl

implied_first : (x w y : Bool) → (w ≡ true → x ≡ true) → (x || y) ≡ (x || (w || y))
implied_first true w y h = refl
implied_first false true y h = absurd (ground (arith, h refl))
implied_first false false y h = refl

abbrev fenced : Elector → Elector
fenced s = record s { state = follower; current_leader_id = none; keepalive = no_loop }

abbrev IsFenced : Config → List Bool → Elector → Bool → Type 0
IsFenced c bs s over =
    (is_leader (renew_all c bs s).0 ≡ not over)
    × ((renew_all c bs s).1 ≡ (if over then demoted ∷ [] else []))

fence_from :
    (c : Config) (m' : ℕ) (bs : List Bool) (s : Elector) (l n k : ℕ)
    → c.max_keepalive_failures ≡ suc m'
    → n + suc k ≡ suc m'
    → s.state ≡ leader
    → s.keepalive ≡ renewing l n
    → IsFenced c bs s (fails_first (suc k) bs || has_streak (suc m') bs)
unfolding renew_all on_renewal handle_demotion is_leader
fence_from c m' [] s l n k m q a e = (ap leads a, refl)
fence_from c m' (true ∷ bs) s l n k m q a e =
    let (kept, told) =
      fence_from c m' bs (record s { keepalive = renewing l 0 }) l 0 m' m (ground arith) a refl in
    let same =
      implied (fails_first (suc m') bs) (has_streak (suc m') bs)
        (fails_first-has_streak (suc m') bs) in
    rw e (kept ∙ ap not same, told ∙ ap (λ o. if o then demoted ∷ [] else []) same)
fence_from c m' (false ∷ bs) s l n zero m q a e =
    let over : leb c.max_keepalive_failures (suc n) ≡ true = ground (arith, m, q) in
    rw (e, over, a, renew_ended c bs (fenced s) refl) (refl, refl)
fence_from c m' (false ∷ bs) s l n (suc k) m q a e =
    let under : leb c.max_keepalive_failures (suc n) ≡ false = ground (arith, m, q) in
    let (kept, told) =
      fence_from c m' bs (record s { keepalive = renewing l (suc n) }) l (suc n) k m
        (ground (arith, q)) a refl in
    let same =
      implied_first (fails_first (suc k) bs) (fails_first m' bs) (has_streak (suc m') bs)
        (fails_first-less (suc k) m' bs (ground (arith, q))) in
    rw (e, under) (kept ∙ ap not same, told ∙ ap (λ o. if o then demoted ∷ [] else []) same)

-- A leader whose loop begins gives its lead up within the outcomes of any renewals exactly when
-- as many consecutive ones fail as the limit says, and then calls `_on_demoted` once; a limit is
-- at least 1.
pub renew_all-fences :
    (c : Config) (bs : List Bool) (s : Elector) (l : ℕ)
    → 0 < c.max_keepalive_failures
    → s.state ≡ leader
    → s.keepalive ≡ renewing l 0
    → let over = has_streak c.max_keepalive_failures bs in
      (is_leader (renew_all c bs s).0 ≡ not over)
      × ((renew_all c bs s).1 ≡ (if over then demoted ∷ [] else []))
renew_all-fences c bs s l m a e = at_limit c.max_keepalive_failures refl m
  where
    at_limit : (k : ℕ) → c.max_keepalive_failures ≡ k → 0 < k → IsFenced c bs s (has_streak k bs)
    at_limit zero q m = absurd (ground (arith, m))
    at_limit (suc m') q m =
        subst (IsFenced c bs s)
          (implied (fails_first (suc m') bs) (has_streak (suc m') bs)
            (fails_first-has_streak (suc m') bs))
          (fence_from c m' bs s l 0 m' q (ground arith) a e)

-- The campaign task of a leader waits for the stop event alone, a lead given up or not: once
-- `_on_demoted` was called, the elector stays a follower and calls nothing more of its callbacks,
-- whatever etcd answers, until it is stopped.
pub demoted_for_good :
    (c : Config) (s₀ s : Elector) (es : List Effect)
    → s₀.campaign ≡ leading
    → s₀.state ≡ follower
    → s₀.keepalive ≡ no_loop
    → Run c s₀ s es
    → (s ≡ s₀) × (es ≡ [])
unfolding step on_renewal resign_call is_leader
demoted_for_good c s₀ _ _ p a k here = (refl, refl)
demoted_for_good c s₀ _ _ p a k (more {s} {es} r e) =
    let (same, none_told) = demoted_for_good c s₀ s es p a k r in
    let (same', told') =
      stays s e (ap (λ x. x.campaign) same ∙ p) (ap (λ x. x.state) same ∙ a)
        (ap (λ x. x.keepalive) same ∙ k) in
    (same' ∙ same, rw (none_told, told') refl)
  where
    no_reply : (q : Campaign) → Reply q → q ≡ leading → ⊥
    no_reply granting (granted l) e = cc
    no_reply (contesting l) (transacted won) e = cc
    no_reply (electing l) (returned fine) e = cc
    no_reply (reading l) (key_read value) e = cc
    no_reply revoking unused_revoked e = cc
    no_reply polling (polled value) e = cc
    no_reply retrying delay_passed e = cc
    no_reply no_task r e = elim r [ ]
    no_reply leading r e = elim r [ ]

    stays :
        (s : Elector) (e : Event s)
        → s.campaign ≡ leading
        → s.state ≡ follower
        → s.keepalive ≡ no_loop
        → ((step c s e).0 ≡ s) × ((step c s e).1 ≡ [])
    stays s (replied r) p a k = absurd (no_reply s.campaign r p)
    stays s (renewed fine) p a k = rw k (refl, refl)
    stays s resigned p a k = rw a (refl, refl)

-- ===== src/Device/Link/Counting.antt =====
-- The count of failed reads and the reports of the link (csp_lib/equipment/device/base.py).
use csp_lib.Base.{
  ℕ, suc, ◌<◌, Bool, true, false, ◌&&◌, ◌≡◌, refl, sym, ap, subst, some, List, [], ◌∷◌, ◌++◌, ltb,
  leb, if◌then◌else◌, arith, Bool-cases, inl, inr, is_some,
}
use csp_lib.Device.Link.{
  Config, Link, LinkEvent, handle_read_failure, check_disconnect_threshold, read_succeeded,
  read_failed, read_connected, Attempt, read_once, run_reads, connected, disconnected, read_error,
}

-- The events about the link alternate: a device that is responsive is reported disconnected next,
-- one that is not is reported connected next.
abbrev pub Alternate : Bool → List LinkEvent → Bool → Type 0
Alternate b [] e = e ≡ b
Alternate b (connected ∷ es) e = (b ≡ false) × Alternate true es e
Alternate b (disconnected n ∷ es) e = (b ≡ true) × Alternate false es e
Alternate b (read_error n ∷ es) e = Alternate b es e

append-Alternate :
    (b e f : Bool) (es fs : List LinkEvent)
    → Alternate b es e
    → Alternate e fs f
    → Alternate b (es ++ fs) f
append-Alternate b e f [] fs h k = subst (λ x. Alternate x fs f) h k
append-Alternate b e f (connected ∷ es) fs (h, k) l = (h, append-Alternate true e f es fs k l)
append-Alternate b e f (disconnected n ∷ es) fs (h, k) l = (h, append-Alternate false e f es fs k l)
append-Alternate b e f (read_error n ∷ es) fs h k = append-Alternate b e f es fs h k

-- The reads that failed since the last that went through.
abbrev pub failures_since : ℕ → List Attempt → ℕ
failures_since n [] = n
failures_since n (a ∷ ts) = failures_since (if a.read_goes then 0 else suc n) ts

-- A connected link counts its failures, and is responsive while they are fewer than the threshold.
pub record IsCounting (c : Config) (n : ℕ) (s : Link) : Type 0 where
  pub client : s.client_connected ≡ true
  pub counted : s.consecutive_failures ≡ n
  pub responsive : s.device_responsive ≡ ltb n c.disconnect_threshold
  pub timed : 0 < n → is_some s.last_failure_time ≡ true

read_connected-IsCounting :
    (c : Config) (now : ℕ) (goes : Bool) (n : ℕ) (s : Link)
    → 0 < c.disconnect_threshold
    → IsCounting c n s
    → (let r = read_connected c now goes s in
        IsCounting c (if goes then 0 else suc n) r.link
        × Alternate s.device_responsive r.events r.link.device_responsive)
unfolding read_succeeded read_failed handle_read_failure check_disconnect_threshold
read_connected-IsCounting c now true n s t i = elim (Bool-cases s.device_responsive) [
  | inl y ↦ (
    record {
      client = i.client;
      counted = refl;
      responsive = ground (arith, t);
      timed = λ h. absurd (ground (arith, h));
    },
    rw y refl,
  )
  | inr f ↦ (
    record {
      client = i.client;
      counted = refl;
      responsive = ground (arith, t);
      timed = λ h. absurd (ground (arith, h));
    },
    rw f (refl, refl),
  )
]
read_connected-IsCounting c now false n s t i =
    elim (Bool-cases
      (leb c.disconnect_threshold (suc s.consecutive_failures) && s.device_responsive)) [
        | inl y ↦ rw y (
          record {
            client = i.client;
            counted = ap suc i.counted;
            responsive = ground (arith, y, i.counted);
            timed = λ h. refl;
          },
          (ground (arith, y), refl),
        )
        | inr f ↦ rw f (
          record {
            client = i.client;
            counted = ap suc i.counted;
            responsive = ground (arith, f, i.counted, i.responsive);
            timed = λ h. refl;
          },
          refl,
        )
      ]

read_once-connected :
    (c : Config) (a : Attempt) (s : Link)
    → s.client_connected ≡ true
    → read_once c a s ≡ read_connected c a.now a.read_goes s
unfolding read_once
read_once-connected c a s e =
    ap
      (λ b.
        if b
        then read_connected c a.now a.read_goes s
        else if a.client_connects
        then read_connected c a.now a.read_goes
            (record s { client_connected = true; consecutive_failures = 0 })
        else record {
          link = record s { last_failure_time = some a.now };
          events = [];
          raised = true;
        })
      e

-- Over any reads of a connected link that counts its failures, as one does after `connect`, the
-- link stays connected, it counts the failures since the last read that went through, it is
-- responsive exactly while these are fewer than the threshold, and its reports of `connected` and
-- `disconnected` alternate; a threshold is at least 1.
pub run_reads-IsCounting :
    (c : Config) (ts : List Attempt) (n : ℕ) (s : Link)
    → 0 < c.disconnect_threshold
    → IsCounting c n s
    → (let r = run_reads c ts s in
        IsCounting c (failures_since n ts) r.0
        × Alternate s.device_responsive r.1 r.0.device_responsive)
unfolding run_reads
run_reads-IsCounting c [] n s t i = (i, refl)
run_reads-IsCounting c (a ∷ ts) n s t i =
    let r = read_connected c a.now a.read_goes s in
    let (j, h) = read_connected-IsCounting c a.now a.read_goes n s t i in
    let (k, l) = run_reads-IsCounting c ts (if a.read_goes then 0 else suc n) r.link t j in
    subst
      (λ q.
        IsCounting c (failures_since n (a ∷ ts)) (run_reads c ts q.link).0
        × Alternate s.device_responsive (q.events ++ (run_reads c ts q.link).1)
            (run_reads c ts q.link).0.device_responsive)
      (sym (read_once-connected c a s i.client))
      (
        k,
        append-Alternate s.device_responsive r.link.device_responsive
            (run_reads c ts r.link).0.device_responsive r.events (run_reads c ts r.link).1 h l,
      )

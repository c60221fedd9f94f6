-- ===== src/Poll/Timeout.antt =====
-- The timeout that the poll hands to `select` (src/beep-sock-poll.h, `obtain_timeout`).
use flora.Base.{
  ℕ, zero, suc, ◌+◌, ◌-◌, ◌*◌, ◌/◌, ◌%◌, ◌≤◌, ◌<◌, ◌≡◌, refl, sym, ap, ◌∙◌, subst, List, ◌∷◌,
  Option, none, some, pos, negsuc, arith, leb, true, false,
}
use flora.Poll.Keepalive.{ActiveAdapter, Timeval, obtain_timeout, timeval_of, sub_int, negated}

-- What `select` accepts as a timeout of some microseconds.
abbrev pub IsTimeval : Timeval → ℕ → Type 0
IsTimeval tv usecs =
    (s : ℕ) × (us : ℕ) × (tv.tv_sec ≡ pos s)
    × (tv.tv_usec ≡ pos us)
    × (us < 1000000)
    × (s * 1000000 + us ≡ usecs)

-- Until the deadline of the adapter at the front, the timeout for select is one that it accepts and
-- ends at that deadline.
pub obtain_timeout-IsTimeval :
    (beep_timeout now : ℕ) (x : ActiveAdapter) (active : List ActiveAdapter)
    → now ≤ x.lastest_action_tp + beep_timeout
    → (tv : Timeval) × (obtain_timeout beep_timeout now (x ∷ active) ≡ some tv)
      × IsTimeval tv ((x.lastest_action_tp + beep_timeout - now) * 1000)
unfolding obtain_timeout
obtain_timeout-IsTimeval beep_timeout now x active h =
    let dur = x.lastest_action_tp + beep_timeout - now in
    let early : leb now (x.lastest_action_tp + beep_timeout) ≡ true = ground arith in
    (
      record { tv_sec = pos (dur / 1000); tv_usec = pos (dur % 1000 * 1000) },
      rw early,
      (dur / 1000, dur % 1000 * 1000, refl, refl, omega arith, omega arith),
    )

negated-pos : (k s : ℕ) → negated k ≡ pos s → k ≡ 0
negated-pos zero s e = refl
negated-pos (suc k) s e = ground arith

late-IsTimeval : (n usecs : ℕ) → ¬ (IsTimeval (timeval_of (negsuc n)) usecs)
late-IsTimeval n usecs (s, us, sec, usec, _, _) =
    let seconds = negated-pos (suc n / 1000) s sec in
    let rest = negated-pos (suc n % 1000 * 1000) us usec in absurd (omega (arith, seconds, rest))

late-sub_int :
    (deadline now : ℕ) → deadline < now → sub_int deadline now ≡ negsuc (now - deadline - 1)
late-sub_int deadline now h =
    let late : leb now deadline ≡ false = ground arith in
    let n : now - deadline ≡ suc (now - deadline - 1) = omega arith in rw late (ap negated n)

-- Once the deadline of the adapter at the front has passed, the timeout for select is not one that
-- it accepts.
pub obtain_timeout-late :
    (beep_timeout now usecs : ℕ) (x : ActiveAdapter) (active : List ActiveAdapter) (tv : Timeval)
    → x.lastest_action_tp + beep_timeout < now
    → obtain_timeout beep_timeout now (x ∷ active) ≡ some tv
    → ¬ (IsTimeval tv usecs)
unfolding obtain_timeout
obtain_timeout-late beep_timeout now usecs x active tv h e valid =
    let tv' : Timeval = timeval_of (negsuc (now - (x.lastest_action_tp + beep_timeout) - 1)) in
    let same : some tv' ≡ some tv =
      ap (λ z. some (timeval_of z)) (sym (late-sub_int (x.lastest_action_tp + beep_timeout) now h))
      ∙ e in
    let path : tv' ≡ tv = ap (λ (o : Option Timeval). elim o [ none ↦ tv' | some t ↦ t ]) same in
    late-IsTimeval (now - (x.lastest_action_tp + beep_timeout) - 1) usecs
      (subst (λ t. IsTimeval t usecs) (sym path) valid)

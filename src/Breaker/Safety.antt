-- ===== src/Breaker/Safety.antt =====
-- resilience.ts: what a breaker guarantees over histories of calls, in which calls overlap.
use quorvel.Common.{ℕ, ◌+◌, ◌≤◌, ◌<◌, ◌≡◌, List, [], ◌∷◌, arith, leb, length, All, if◌then◌else◌}
use quorvel.Breaker.{
  CircuitState, closed, opened, half_open, CircuitBreaker, admit, Admission, admitted, unavailable,
  on_success, on_failure, CallEvent, begins, succeeds, fails, event_time, perform, perform_all,
}

-- The counters of the state that the breaker is in are below their thresholds.
abbrev CountsIn : CircuitState → CircuitBreaker → Type 0
CountsIn closed b = b.failures < b.failure_threshold
CountsIn half_open b = b.successes < b.success_threshold
CountsIn opened b = Unit

pub record IsWellFormed (b : CircuitBreaker) : Type 0 where
  pub can_fail : 0 < b.failure_threshold
  pub can_succeed : 0 < b.success_threshold
  pub counts : CountsIn b.state b

perform-IsWellFormed :
    (e : CallEvent) (b : CircuitBreaker) → IsWellFormed b → IsWellFormed (perform e b)
unfolding perform admit on_success on_failure
perform-IsWellFormed (begins at) b h = ground (arith, h.can_fail, h.can_succeed, h.counts)
perform-IsWellFormed (succeeds at) b h = ground (arith, h.can_fail, h.can_succeed, h.counts)
perform-IsWellFormed (fails at) b h = ground (arith, h.can_fail, h.can_succeed, h.counts)

-- With thresholds above 0, through any history of calls that begin and settle in any order, a
-- closed breaker has counted fewer failures than open it, and a half-open one fewer successes than
-- close it.
pub perform_all-IsWellFormed :
    (es : List CallEvent) (b : CircuitBreaker) → IsWellFormed b → IsWellFormed (perform_all es b)
unfolding perform_all
perform_all-IsWellFormed [] b h = h
perform_all-IsWellFormed (e ∷ es) b h =
    perform_all-IsWellFormed es (perform e b) (perform-IsWellFormed e b h)

-- The breaker is open, opened at that time with that cooldown.
pub record IsOpen (since cooldown : ℕ) (b : CircuitBreaker) : Type 0 where
  pub is_open : b.state ≡ opened
  pub is_since : b.opened_at ≡ since
  pub has_cooldown : b.cooldown_ms ≡ cooldown

-- the answers to the calls that begin in a history
unfoldable pub answers : List CallEvent → CircuitBreaker → List Admission
answers [] b = []
answers (begins at ∷ es) b = (admit at b).0 ∷ answers es (perform (begins at) b)
answers (e ∷ es) b = answers es (perform e b)

abbrev pub IsRefused : Admission → Type 0
IsRefused admitted = ⊥
IsRefused (unavailable s) = 1 ≤ s

perform-IsOpen :
    (since cooldown : ℕ) (e : CallEvent) (b : CircuitBreaker)
    → IsOpen since cooldown b
    → event_time e < since + cooldown
    → IsOpen since cooldown (perform e b)
unfolding perform admit on_success on_failure
perform-IsOpen since cooldown (begins at) b h lt =
    ground (arith, h.is_open, h.is_since, h.has_cooldown)
perform-IsOpen since cooldown (succeeds at) b h lt =
    ground (arith, h.is_open, h.is_since, h.has_cooldown)
perform-IsOpen since cooldown (fails at) b h lt =
    ground (arith, h.is_open, h.is_since, h.has_cooldown)

admit-IsRefused :
    (since cooldown at : ℕ) (b : CircuitBreaker)
    → IsOpen since cooldown b
    → at < since + cooldown
    → IsRefused (admit at b).0
unfolding admit
admit-IsRefused since cooldown at b h lt = ground (arith, h.is_open, h.is_since, h.has_cooldown)

-- From a breaker that is open, as long as its cooldown lasts, every call that begins is refused with
-- a delay of at least a second, and the breaker stays open, whatever calls in flight settle meanwhile.
pub answers-IsRefused :
    (since cooldown : ℕ) (es : List CallEvent) (b : CircuitBreaker)
    → IsOpen since cooldown b
    → All (λ e. event_time e < since + cooldown) es
    → All IsRefused (answers es b) × IsOpen since cooldown (perform_all es b)
unfolding answers perform_all
answers-IsRefused since cooldown [] b h all = (tt, h)
answers-IsRefused since cooldown (begins at ∷ es) b h (lt, all) =
    let (refused, open_still) =
      answers-IsRefused since cooldown es (perform (begins at) b)
        (perform-IsOpen since cooldown (begins at) b h lt) all in
    ((admit-IsRefused since cooldown at b h lt, refused), open_still)
answers-IsRefused since cooldown (succeeds at ∷ es) b h (lt, all) =
    answers-IsRefused since cooldown es (perform (succeeds at) b)
      (perform-IsOpen since cooldown (succeeds at) b h lt) all
answers-IsRefused since cooldown (fails at ∷ es) b h (lt, all) =
    answers-IsRefused since cooldown es (perform (fails at) b)
      (perform-IsOpen since cooldown (fails at) b h lt) all

abbrev failing : List ℕ → List CallEvent
failing [] = []
failing (at ∷ ats) = fails at ∷ failing ats

opened-stays_opened :
    (ats : List ℕ) (b : CircuitBreaker)
    → b.state ≡ opened
    → (perform_all (failing ats) b).state ≡ opened
unfolding perform_all perform on_failure
opened-stays_opened [] b h = h
opened-stays_opened (at ∷ ats) b h =
    opened-stays_opened ats (perform (fails at) b) (ground (arith, h))

-- A closed breaker that is well formed opens under failures in a row exactly when their number,
-- with the failures it has counted, reaches the threshold; until then it stays closed.
perform_all-failing :
    (ats : List ℕ) (b : CircuitBreaker)
    → IsWellFormed b
    → b.state ≡ closed
    → (perform_all (failing ats) b).state
      ≡ (if leb b.failure_threshold (b.failures + length ats) then opened else closed)
unfolding perform_all perform on_failure
perform_all-failing [] b h e = ground (arith, h.counts)
perform_all-failing (at ∷ ats) b h e = ground (
  arith,
  perform_all-failing ats (perform (fails at) b) (perform-IsWellFormed (fails at) b h),
  opened-stays_opened ats (perform (fails at) b),
)

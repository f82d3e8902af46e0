-- ===== src/Queues/Ring/Threads/Forever.antt =====
-- A stalled ring buffer stays stalled, whatever the threads do.
use tiny_base.Base.{ℕ, ◌≢◌, ne→==, ==_refl, Option}
use tiny_base.Queues.Ring.{MpmcRingbuf}
use tiny_base.Queues.Ring.Threads.{
  Pc, push_begin, pop_begin, pop_advance, advance, State, place, call, run, Step, calls_push,
  calls_pop, runs, Steps, none_left, then_step,
}
use tiny_base.Queues.Ring.Threads.Stall.{IsStalled, AtMost, advance-Kept}
use native.Mathlib.Decide.{ℕ_discrete}

-- The threads after the thread `t` has gone on to `pc`.
placed :
    (k : ℕ) (q q' : MpmcRingbuf) (owner owner' : Option ℕ) (threads : ℕ → Pc) (t : ℕ) (pc : Pc)
    → ((t' : ℕ) → AtMost k q owner t' (threads t'))
    → AtMost k q' owner' t pc
    → ((t' : ℕ) (pc' : Pc) → t' ≢ t → AtMost k q owner t' pc' → AtMost k q' owner' t' pc')
    → (t' : ℕ) → AtMost k q' owner' t' (place threads t pc t')
placed k q q' owner owner' threads t pc all self others t' = elim (ℕ_discrete t' t) [
  | yes e ↦ rw (e, ==_refl t) self
  | no ne ↦ rw (ne→== t' t ne) (others t' (threads t') ne (all t'))
]

run-IsStalled : (k : ℕ) (s s' : State) → Step s s' → IsStalled k s → IsStalled k s'
unfolding call run
run-IsStalled k s _ (calls_push t item at_rest ne) st = record {
  owner = st.owner;
  stuck = st.stuck;
  threads =
      placed k s.shared.0 s.shared.0 st.owner st.owner s.threads t (push_begin item) st.threads ne
        (λ t' pc' other a. a);
}
run-IsStalled k s _ (calls_pop t at_rest) st = record {
  owner = st.owner;
  stuck = st.stuck;
  threads =
      placed k s.shared.0 s.shared.0 st.owner st.owner s.threads t pop_begin st.threads _
        (λ t' pc' other a. a);
}
run-IsStalled k s _ (runs t) st =
    let kept =
      advance-Kept k st.owner s.shared.0 s.shared.1 st.stuck t (s.threads t) (st.threads t) in
    record {
      owner = kept.owner';
      stuck = kept.stuck;
      threads =
          placed k s.shared.0 (advance (s.threads t) s.shared).1.0 st.owner kept.owner' s.threads t
            (advance (s.threads t) s.shared).0 st.threads kept.self kept.others;
    }

pub IsStalled-stays : (k : ℕ) (s s' : State) → Steps s s' → IsStalled k s → IsStalled k s'
IsStalled-stays k s _ none_left st = st
IsStalled-stays k s _ (then_step {s'} {s''} before one) st =
    run-IsStalled k s' s'' one (IsStalled-stays k s s' before st)

-- No thread of a stalled ring has an item to return.
pub stalled_gives_none :
    (k : ℕ) (s : State) → IsStalled k s → (t item : ℕ) → s.threads t ≢ pop_advance item
stalled_gives_none k s st t item e = rw e at (st.threads t)

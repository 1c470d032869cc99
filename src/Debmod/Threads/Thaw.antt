-- ===== src/Debmod/Threads/Thaw.antt =====
-- linux_debmod.cpp: `dbg_thaw_threads`, which takes back one suspension of threads and resumes those that have
-- none left.
pub mod Balance
pub mod Resume
pub mod Requests
pub mod Unsuspended
pub mod Alone
use reverse_engineearing.Base.{
  ℕ, zero, suc, ◌+◌, ◌-◌, ◌*◌, ◌/◌, ◌%◌, ◌^◌, ◌≤◌, ◌<◌, bit_and, bit_or, ◌≡◌, refl, sym, ap, ◌∙◌,
  ◌≢◌, ◌↔◌, ◌⊎◌, inl, inr, Bool, true, false, not, ◌&&◌, ◌||◌, Option, none, some, List, [], ◌∷◌,
  ◌++◌, append_assoc, append-nil, arith, ltb, leb, ◌==◌, if◌then◌else◌, of_bool, ==_iff, Bool-cases,
  Option-cases, length, get_elem?, set, take, drop, replicate, All, length-append, length-take,
  length-drop, take-append-drop, take-length-append, drop-length-append, take_all, All-append,
  codes, take_pieces, drop_pieces,
}
use reverse_engineearing.Debmod.EventQueue.{Queue, enqueue_event, in_back}
use reverse_engineearing.Debmod.Signals.{ThreadInfo, ThreadState, running, stopped, dying, dead}
use reverse_engineearing.Debmod.Threads.{
  Kernel, Call, continues, steps, Run, done, waits, fails, ◌>>=◌, Session, is_running, with_threads,
  exit_event,
}
use reverse_engineearing.Debmod.Threads.Freeze.{in_scope}

-- A thread, or several, with the queue of events, whether nothing failed and the requests made.
pub record Thawed (A : Type 0) : Type 0 where
  pub threads : A
  pub queue : Queue
  pub ok : Bool
  pub calls : List Call

abbrev pub is_dying : ThreadState → Bool
is_dying dying = true
is_dying running = false
is_dying stopped = false
is_dying dead = false

abbrev pub is_stopped_state : ThreadState → Bool
is_stopped_state stopped = true
is_stopped_state running = false
is_stopped_state dying = false
is_stopped_state dead = false

abbrev pub thawed_one : ThreadInfo → ThreadInfo
thawed_one t = record t { suspend_count = t.suspend_count - 1 }

-- Is there a reason to leave the thread as it is, once its suspension is taken back?
abbrev pub stays : Bool → Bool → ThreadInfo → Bool
stays exited may_run t =
    ltb 0 t.suspend_count
    || (ltb 0 t.user_suspend
        || (t.got_pending_status
            || (((not may_run && not (is_dying t.state)) || exited)
                || not (is_stopped_state t.state || is_dying t.state))))

module _ (k : Kernel) (pid : ℕ) (exited : Bool) where
  abbrev as_it_is : ThreadInfo → Queue → Thawed ThreadInfo
  as_it_is t q = record { threads = t; queue = q; ok = true; calls = [] }

  abbrev resume_call : ThreadInfo → Call
  resume_call t =
      if t.single_step then steps t.tid t.child_signum else continues t.tid t.child_signum

  -- A request that failed: a thread that is not a zombie stays stopped, a zombie's death is reported. It is
  -- `dying` only until the next statement makes it `dead`.
  not_resumed : ThreadInfo → Queue → Thawed ThreadInfo
  not_resumed t q =
      if k.is_zombie t.tid
      then record {
        threads = record t { state = dead };
        queue = enqueue_event (exit_event k pid t.tid) in_back q;
        ok = true;
        calls = resume_call t ∷ [];
      }
      else record { threads = t; queue = q; ok = false; calls = resume_call t ∷ [] }

  resume_one : ThreadInfo → Queue → Thawed ThreadInfo
  unfolding not_resumed
  resume_one t q =
      if not (k.cont t.tid) && not (is_dying t.state) then not_resumed t q else record {
        threads = record t { state = if is_dying t.state then dead else running };
        queue = q;
        ok = true;
        calls = resume_call t ∷ [];
      }

  -- A thread that does not run.
  thawed : ThreadInfo → Queue → Thawed ThreadInfo
  unfolding resume_one
  thawed t q =
      if stays exited q.may_run (thawed_one t)
      then as_it_is (thawed_one t) q
      else resume_one (thawed_one t) q

  pub thaw_one : ThreadInfo → Queue → Run (Thawed ThreadInfo)
  unfolding thawed
  thaw_one t q =
      if is_running t
      then (if t.suspend_count == 0 then done (as_it_is t q) else fails)
      else done (thawed t q)

  abbrev ahead : Thawed ThreadInfo → Thawed (List ThreadInfo) → Thawed (List ThreadInfo)
  ahead t rest = record {
    threads = t.threads ∷ rest.threads;
    queue = rest.queue;
    ok = t.ok && rest.ok;
    calls = t.calls ++ rest.calls;
  }

  -- The threads out of scope are passed over.
  thaw_if : Bool → ThreadInfo → Queue → Run (Thawed ThreadInfo)
  unfolding thaw_one
  thaw_if true t q = thaw_one t q
  thaw_if false t q = done (as_it_is t q)

  pub thaw_all : ℕ → Bool → List ThreadInfo → Queue → Run (Thawed (List ThreadInfo))
  unfolding thaw_if
  thaw_all tid exclude [] q = done (record { threads = []; queue = q; ok = true; calls = [] })
  thaw_all tid exclude (t ∷ ts) q = thaw_if (in_scope tid exclude t) t q >>= λ one.
      thaw_all tid exclude ts one.queue >>= λ rest. done (ahead one rest)

-- The result and the session.
unfoldable pub dbg_thaw_threads : Kernel → ℕ → Bool → Session → Run (Bool × Session)
unfolding thaw_all
dbg_thaw_threads k tid exclude s =
    thaw_all k s.process_handle s.process.exited tid exclude s.process.threads s.queue >>= λ r.
    done (r.ok, record (with_threads r.threads s) { queue = r.queue; calls = s.calls ++ r.calls })

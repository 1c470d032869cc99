-- ===== src/Debmod/Signals/Priority.antt =====
-- Which thread's signal is handled first.
use reverse_engineearing.Base.{◌≡◌, true, false, ◌&&◌, some, List, [], ◌∷◌, ◌++◌, arith, All}
use reverse_engineearing.Debmod.Signals.{WaitStatus, ThreadInfo, is_free, find_pending}

-- The search takes the first free thread in the order of the map that has a pending signal, whether or not
-- it or another one is single-stepping or stopped at a breakpoint.
pub find_pending_first :
    (m : WaitStatus) (front back : List ThreadInfo) (t : ThreadInfo)
    → All (λ x. (is_free x && x.got_pending_status) ≡ false) front
    → (is_free t && t.got_pending_status) ≡ true
    → find_pending m (front ++ (t ∷ back)) ≡ some t
unfolding find_pending
find_pending_first m [] back t h e = ground arith
find_pending_first m (x ∷ front) back t h e =
    let miss : (is_free x && (x.got_pending_status && true)) ≡ false = ground arith in
    rw miss (find_pending_first m front back t h.1 e)

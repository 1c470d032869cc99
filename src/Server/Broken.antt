-- ===== src/Server/Broken.antt =====
-- rpc_server.cpp: `check_broken_connection`, with which a new client takes up the debugging session that another
-- one lost.
use reverse_engineearing.Base.{
  ℕ, ◌≡◌, refl, ap, ◌≢◌, inl, inr, Bool, true, false, not, ◌&&◌, Option, none, some, List, [], ◌∷◌,
  ◌++◌, arith, ◌==◌, if◌then◌else◌, Bool-cases,
}

-- `clients_list`: the sessions of the server by number, each with its debugger module and with what that knows
-- of its connection and its process.
pub record Client : Type 0 where
  pub server : ℕ
  pub dbg_mod : ℕ
  pub broken : Bool
  pub pid : ℕ

abbrev pub Clients : Type 0
Clients = List Client

-- Whether a session is a broken one of another server with the process asked for.
fits : ℕ → ℕ → Client → Bool
fits this pid c = not (c.server == this) && (c.broken && (c.pid == pid))

-- The session to go on with, and the ones left.
pub record Found : Type 0 where
  pub taken : Client
  pub left : Clients

-- The entry of this server with the module that it took over, whose connection is no longer broken.
pub adopt : ℕ → Client → Clients → Clients
adopt this d [] = []
adopt this d (c ∷ cs) =
    let rest = adopt this d cs in
    (if c.server == this
      then record { server = this; dbg_mod = d.dbg_mod; broken = false; pid = d.pid }
      else c)
    ∷ rest

-- `dbg_continue_broken_connection` is asked of a session's module only when the rest fits.
module _ {W : Type 0} (continue_broken : ℕ → ℕ → W → Bool × W) where
  found_later : Client → Option Found × W → Option Found × W
  found_later c (none, w) = (none, w)
  found_later c (some f, w) = (some (record f { left = c ∷ f.left }), w)

  tried : Client → Clients → (W → Option Found × W) → Bool × W → Option Found × W
  tried c cs later (true, w) = (some (record { taken = c; left = cs }), w)
  tried c cs later (false, w) = found_later c (later w)

  find_session : ℕ → ℕ → Clients → W → Option Found × W
  unfolding fits tried found_later
  find_session this pid [] w = (none, w)
  find_session this pid (c ∷ cs) w =
      let later = find_session this pid cs in
      if fits this pid c
      then tried c cs later (continue_broken c.dbg_mod pid w)
      else found_later c (later w)

  -- `dbg_term` ends the module of this server, which then has the module of the session that it found;
  -- `term_irs` closes the connection of the other server.
  module _ (dbg_term : ℕ → W → W) (term_irs : ℕ → W → W) where
    reuse : ℕ → ℕ → Clients → Option Found × W → Bool × Clients × W
    unfolding adopt
    reuse this own cs (none, w) = (false, cs, w)
    reuse this own cs (some f, w) =
        (true, adopt this f.taken f.left, term_irs f.taken.server (dbg_term own w))

    -- `own` is the module of this server.
    pub check_broken_connection : ℕ → ℕ → ℕ → Clients → W → Bool × Clients × W
    unfolding reuse find_session
    check_broken_connection this own pid cs w = reuse this own cs (find_session this pid cs w)

-- What a search found: a broken session of another server with the process asked for, taken out of its place.
pub record IsFound (this pid : ℕ) (cs : Clients) (f : Found) : Type 0 where
  pub before : Clients
  pub after : Clients
  pub was : cs ≡ before ++ (f.taken ∷ after)
  pub is : f.left ≡ before ++ after
  pub other : f.taken.server ≢ this
  pub broken : f.taken.broken ≡ true
  pub same_pid : f.taken.pid ≡ pid

fits_lem :
    (this pid : ℕ) (c : Client)
    → fits this pid c ≡ true
    → (c.server ≢ this) × (c.broken ≡ true) × (c.pid ≡ pid)
unfolding fits
fits_lem this pid c e = by_tests c.server c.broken c.pid e
  where
    by_tests :
        (s : ℕ) (b : Bool) (p : ℕ)
        → (not (s == this) && (b && (p == pid))) ≡ true
        → (s ≢ this) × (b ≡ true) × (p ≡ pid)
    by_tests s true p e = ground arith
    by_tests s false p e = ground arith

-- What is left of the list of clients.
pub data Reused {W : Type 0} (this pid : ℕ) (cs : Clients) : Bool × Clients × W → Type 0 where
  kept : {cs' : Clients} {w : W} → cs' ≡ cs → Reused this pid cs (false, cs', w)
  taken_over :
      {cs' : Clients} {w : W} (f : Found)
      → IsFound this pid cs f
      → cs' ≡ adopt this f.taken f.left
      → Reused this pid cs (true, cs', w)

pub data IsSearch (this pid : ℕ) (cs : Clients) : Option Found → Type 0 where
  nothing : IsSearch this pid cs none
  found : {f : Found} → IsFound this pid cs f → IsSearch this pid cs (some f)

module _ {W : Type 0} (continue_broken : ℕ → ℕ → W → Bool × W) where
  found_later_lem :
      (this pid : ℕ) (c : Client) (cs : Clients) (x : Option Found × W)
      → IsSearch this pid cs x.0
      → IsSearch this pid (c ∷ cs) (found_later continue_broken c x).0
  unfolding found_later
  found_later_lem this pid c cs (none, w) s = nothing
  found_later_lem this pid c cs (some f, w) (found h) = found (record {
    before = c ∷ h.before;
    after = h.after;
    was = ap (◌∷◌ c) h.was;
    is = ap (◌∷◌ c) h.is;
    other = h.other;
    broken = h.broken;
    same_pid = h.same_pid;
  })

  tried_lem :
      (this pid : ℕ) (c : Client) (cs : Clients) (later : W → Option Found × W) (x : Bool × W)
      → c.server ≢ this
      → c.broken ≡ true
      → c.pid ≡ pid
      → ((w : W) → IsSearch this pid cs (later w).0)
      → IsSearch this pid (c ∷ cs) (tried continue_broken c cs later x).0
  unfolding tried
  tried_lem this pid c cs later (true, w) other broken same ih = found (record {
    before = [];
    after = cs;
    was = refl;
    is = refl;
    other = other;
    broken = broken;
    same_pid = same;
  })
  tried_lem this pid c cs later (false, w) other broken same ih =
      found_later_lem this pid c cs (later w) (ih w)

  find_session_lem :
      (this pid : ℕ) (cs : Clients) (w : W)
      → IsSearch this pid cs (find_session continue_broken this pid cs w).0
  unfolding find_session
  find_session_lem this pid [] w = nothing
  find_session_lem this pid (c ∷ cs) w =
      let ih = find_session_lem this pid cs in
      let later = find_session continue_broken this pid cs in
      elim (Bool-cases (fits this pid c)) [
        | inl good ↦
            let (other, broken, same) = fits_lem this pid c good in
            rw good
              (tried_lem this pid c cs later (continue_broken c.dbg_mod pid w) other broken same ih)
        | inr bad ↦ rw bad (found_later_lem this pid c cs (later w) (ih w))
      ]

  reuse_lem :
      (dbg_term term_irs : ℕ → W → W) (this own pid : ℕ) (cs : Clients) (x : Option Found × W)
      → IsSearch this pid cs x.0
      → Reused this pid cs (reuse continue_broken dbg_term term_irs this own cs x)
  unfolding reuse
  reuse_lem dbg_term term_irs this own pid cs (none, w) s = kept refl
  reuse_lem dbg_term term_irs this own pid cs (some f, w) (found h) = taken_over f h refl

-- If no session was found, the list of clients is as before. Otherwise the server took over a session of
-- another server, whose connection was broken and whose process was asked for: that session leaves the list,
-- and this server's entry has its module, with the connection whole.
pub check_broken_connection_lem :
    {W : Type 0} (continue_broken : ℕ → ℕ → W → Bool × W) (dbg_term term_irs : ℕ → W → W)
    (this own pid : ℕ) (cs : Clients) (w : W)
    → Reused this pid cs
        (check_broken_connection continue_broken dbg_term term_irs this own pid cs w)
unfolding check_broken_connection
check_broken_connection_lem continue_broken dbg_term term_irs this own pid cs w =
    reuse_lem continue_broken dbg_term term_irs this own pid cs
      (find_session continue_broken this pid cs w) (find_session_lem continue_broken this pid cs w)

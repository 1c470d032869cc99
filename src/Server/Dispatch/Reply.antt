-- ===== src/Server/Dispatch/Reply.antt =====
-- rpc_server.cpp: what every case of `perform_request` leaves of the reply.
pub mod Process
pub mod Threads
pub mod Memory
pub mod FileIo
use reverse_engineearing.Base.{
  ℕ, zero, suc, ◌+◌, ◌-◌, ◌*◌, ◌/◌, ◌%◌, ◌^◌, ◌≤◌, ◌<◌, bit_and, bit_or, ◌≡◌, refl, sym, ap, ◌∙◌,
  ◌≢◌, ◌↔◌, ◌⊎◌, inl, inr, Bool, true, false, not, ◌&&◌, ◌||◌, Option, none, some, List, [], ◌∷◌,
  ◌++◌, append_assoc, append-nil, arith, ltb, leb, ◌==◌, if◌then◌else◌, of_bool, ==_iff, Bool-cases,
  Option-cases, length, get_elem?, set, take, drop, replicate, All, length-append, length-take,
  length-drop, take-append-drop, take-length-append, drop-length-append, take_all, All-append,
  codes, take_pieces, drop_pieces,
}
use reverse_engineearing.Codec.{Reader, prepare_rpc_packet}
use reverse_engineearing.Codec.Extends.{Extends, Extends-dd, Extends-refl}
use reverse_engineearing.Engine.{rpc_unk, rpc_mem}
use reverse_engineearing.Server.Interface.{Session, Outcome, run}
use reverse_engineearing.Server.Cases.Process.{answer}

-- A reply `t` for a packet that was begun as `s`: the packet with something behind it, a packet of the code
-- RPC_UNK or RPC_MEM alone, or no packet.
pub data ReplyOf (s t : List ℕ) : Type 0 where
  continued : Extends s t → ReplyOf s t
  refused : t ≡ prepare_rpc_packet rpc_unk → ReplyOf s t
  out_of_memory : t ≡ prepare_rpc_packet rpc_mem → ReplyOf s t
  silent : t ≡ [] → ReplyOf s t

-- A case keeps what the reply began with.
pub record Kept {W : Type 0} (o o' : Outcome W) : Type 0 where
  pub reply : ReplyOf o.req o'.req

-- A case that comes to an end keeps it.
pub data Keeps {W : Type 0} (o : Outcome W) : Option (Outcome W) → Type 0 where
  stopped : Keeps o none
  ended : {o' : Outcome W} → Kept o o' → Keeps o (some o')

module _ {W : Type 0} (o : Outcome W) where
  pub kept : (t : List ℕ) (w : W) → ReplyOf o.req t → Kept o (record o { req = t; world = w })
  kept t w r = record { reply = r }

  pub Kept-session :
      (t : List ℕ) (session : Session) (w : W)
      → ReplyOf o.req t
      → Kept o (record o { req = t; session = session; world = w })
  Kept-session t session w r = record { reply = r }

  pub answer-Kept : (r : ℕ × W) → Kept o (answer o r)
  answer-Kept (r, w) = kept _ w (continued (Extends-dd r (Extends-refl o.req)))

  pub run-Keeps :
      {A : Type 0} (m : Reader A) (s : List ℕ) {f : A → Option (Outcome W)}
      → ((a : A) → Keeps o (f a))
      → Keeps o (run m s f)
  unfolding run
  run-Keeps {A} m s {f} each = found (m s)
    where
      found : (x : Option (A × List ℕ)) → Keeps o (elim x [ none ↦ none | some (a, rest) ↦ f a ])
      found none = stopped
      found (some (a, rest)) = each a

  pub if-Keeps :
      {x y : Option (Outcome W)} (c : Bool) → Keeps o x → Keeps o y → Keeps o (if c then x else y)
  if-Keeps true e f = e
  if-Keeps false e f = f

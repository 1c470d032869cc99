-- ===== src/Server/Extends.antt =====
-- rpc_server.cpp: the handlers of breakpoints and of files only ever add to the reply.
use reverse_engineearing.Base.{
  ℕ, ◌%◌, ◌^◌, Bool, not, Option, none, some, List, [], ◌∷◌, ◌==◌, length, take, drop,
}
use reverse_engineearing.Engine.{minus_one}
use reverse_engineearing.Wire.{append_dd}
use reverse_engineearing.Codec.Extends.{
  Extends, Extends-refl, Extends-dd, Extends-db, Extends-memory, Extends-if,
}
use reverse_engineearing.Debmod.UpdateBpts.{BptInfo, Module, dbg_update_bpts}
use reverse_engineearing.Server.{
  append_added, append_all_added, append_all_deleted, append_update_reply, Channels, Files, opened,
  open_channel, rpc_open_file, read_open, rpc_update_bpts, updated, read_updates, find_free_channel,
}

-- A handler that comes to an end only adds to the reply, which is `out` of its result.
pub data Grown {R : Type 0} (out : R → List ℕ) (req : List ℕ) : Option R → Type 0 where
  failed : Grown out req none
  grown : (r : R) → Extends req (out r) → Grown out req (some r)

append_all_added-Extends :
    {s : List ℕ} (bs : List BptInfo) {t : List ℕ} → Extends s t → Extends s (append_all_added t bs)
unfolding append_all_added append_added
append_all_added-Extends [] e = e
append_all_added-Extends (b ∷ bs) e = append_all_added-Extends bs (
    Extends-if _ (Extends-memory b.orgbytes (Extends-db (length b.orgbytes) (Extends-db b.code e)))
      (Extends-db b.code e))

append_all_deleted-Extends :
    {s : List ℕ} (bs : List BptInfo) {t : List ℕ}
    → Extends s t
    → Extends s (append_all_deleted t bs)
unfolding append_all_deleted
append_all_deleted-Extends [] e = e
append_all_deleted-Extends (b ∷ bs) e = append_all_deleted-Extends bs (Extends-db b.code e)

pub append_update_reply-Extends :
    (req : List ℕ) (nadd ret : ℕ) (bs : List BptInfo)
    → Extends req (append_update_reply req nadd ret bs)
unfolding append_update_reply
append_update_reply-Extends req nadd ret bs =
    append_all_deleted-Extends (drop nadd bs)
      (append_all_added-Extends (take nadd bs) (Extends-dd (ret % 2 ^ 32) (Extends-refl req)))

updated-Grown :
    {W : Type 0} (shl32 : ℕ → ℕ) (m : Module W) (req : List ℕ) (nadd : ℕ)
    (x : Option ((ℕ × List BptInfo) × W))
    → Grown (λ r. r.0) req (updated shl32 m req nadd x)
unfolding updated
updated-Grown shl32 m req nadd none = failed
updated-Grown shl32 m req nadd (some ((ret, bs), w)) =
    grown _ (append_update_reply-Extends req nadd ret bs)

pub rpc_update_bpts-Grown :
    {W : Type 0} (shl32 : ℕ → ℕ) (m : Module W) (req s : List ℕ) (w : W)
    → Grown (λ r. r.0) req (rpc_update_bpts shl32 m req s w)
unfolding rpc_update_bpts
rpc_update_bpts-Grown {W} shl32 m req s w = from (read_updates shl32 s)
  where
    from :
        (x : Option ((ℕ × List BptInfo) × List ℕ))
        → Grown {R = List ℕ × W}
            (λ r. r.0)
            req
            (elim x [
              | none ↦ none
              | some ((nadd, bs), rest) ↦ updated shl32 m req nadd (dbg_update_bpts m w bs nadd)
            ])
    from none = failed
    from (some ((nadd, bs), rest)) = updated-Grown shl32 m req nadd (dbg_update_bpts m w bs nadd)

-- The reply to an attempt to open a file.
module _ {F : Type 0} (fs : Files F) where
  opened-Extends :
      (req : List ℕ) (cs : Channels) (fn : ℕ) (readonly : Bool) (r : Option ℕ × F)
      → Extends req (opened fs req cs fn readonly r).0
  unfolding opened
  opened-Extends req cs fn readonly (none, f) = Extends-dd _ (Extends-dd _ (Extends-refl req))
  opened-Extends req cs fn readonly (some file, f) = Extends-dd _ (Extends-dd _ (Extends-refl req))

  pub open_channel-Extends :
      (req : List ℕ) (cs : Channels) (readonly : Bool) (name : List ℕ) (f : F)
      → Extends req (open_channel fs req cs readonly name f).0
  unfolding open_channel
  open_channel-Extends req cs readonly name f =
      elim (find_free_channel cs) as (λ c. Extends req (placed c).0) [
        | none ↦ Extends-dd _ (Extends-dd _ (Extends-refl req))
        | some fn ↦ opened-Extends req cs fn readonly (fs.fopen f readonly name)
      ]
    where
      placed : Option ℕ → List ℕ × Channels × F
      placed none = (append_dd (append_dd req minus_one) (fs.qerrcode f), cs, f)
      placed (some fn) = opened fs req cs fn readonly (fs.fopen f readonly name)

  pub rpc_open_file-Grown :
      (req : List ℕ) (cs : Channels) (s : List ℕ) (f : F)
      → Grown (λ r. r.0) req (rpc_open_file fs req cs s f)
  unfolding rpc_open_file
  rpc_open_file-Grown req cs s f = from (read_open s)
    where
      from :
          (x : Option ((List ℕ × ℕ) × List ℕ))
          → Grown {R = List ℕ × Channels × F}
              (λ r. r.0)
              req
              (elim x [
                | none ↦ none
                | some ((name, mode), rest) ↦ some (open_channel fs req cs (not (mode == 0)) name f)
              ])
      from none = failed
      from (some ((name, mode), rest)) =
          grown _ (open_channel-Extends req cs (not (mode == 0)) name f)

-- ===== src/Debmod/UpdateBpts/Linux/Restore.antt =====
-- A software breakpoint that is written and deleted leaves the memory as it was.
use reverse_engineearing.Base.{
  ℕ, zero, suc, ◌+◌, ◌≤◌, ◌<◌, ◌≡◌, refl, ap, ◌∙◌, ◌⊎◌, inl, inr, true, ◌&&◌, some, List, [], ◌∷◌,
  arith, ltb, leb, Bool-cases, length, replicate, take-length-append, take_all,
}
use mathlib.Core.Path.{fun_ext}
use reverse_engineearing.Debmod.Memory.Bytes.{
  bytes_at, overlay, length-bytes_at, overlay-outside, overlay-inside,
}
use reverse_engineearing.Debmod.HwBpts.{bpt_soft, bpt_ok}
use reverse_engineearing.Debmod.UpdateBpts.{
  BptInfo, filled, keep_org, dbg_update_bpts, add_all, del_all, add_one, del_one, place, place_soft,
  read_bpt_orgbytes, deleted,
}
use reverse_engineearing.Debmod.UpdateBpts.Linux.{
  Platform, Linux, add_soft, after_write, linux_add_bpt, linux_del_bpt, after_restore, linux_module,
  put_bpt, insert_ea, erase_ea, read_some,
}

overlay_back :
    (f : ℕ → ℕ) (ea : ℕ) (bs : List ℕ) (a : ℕ)
    → overlay (overlay f ea bs) ea (bytes_at f ea (length bs)) a ≡ f a
overlay_back f ea bs a = elim (Bool-cases (leb ea a && ltb a (ea + length bs))) [
  | inl y ↦
      overlay-inside (overlay f ea bs) f ea (length bs) a (ground (arith, y)) (ground (arith, y))
  | inr n ↦
      let out : (a < ea) ⊎ (ea + length bs ≤ a) = ground (arith, n) in
      overlay-outside (overlay f ea bs) ea (bytes_at f ea (length bs)) a
        (rw (length-bytes_at f ea (length bs)) out)
      ∙ overlay-outside f ea bs a out
]

-- A memory of which `byte` is the content: at the addresses that are mapped a read gives the bytes, and a
-- write of `bs` puts all of them there.
pub record IsMemory {M : Type 0} (pf : Platform M) (byte : M → ℕ → ℕ) (IsMapped : ℕ → ℕ → Type 0)
    : Type 0 where
  pub reads :
      (m : M) (ea len : ℕ) → IsMapped ea len → pf.read m ea len ≡ some (bytes_at (byte m) ea len)
  pub written : M → ℕ → List ℕ → M
  pub writes :
      (m : M) (ea : ℕ) (bs : List ℕ)
      → IsMapped ea (length bs)
      → pf.write m ea bs ≡ (length bs, written m ea bs)
  pub content :
      (m : M) (ea : ℕ) (bs : List ℕ) (a : ℕ)
      → IsMapped ea (length bs)
      → byte (written m ea bs) a ≡ overlay (byte m) ea bs a

read_some-bytes_at : (f : ℕ → ℕ) (ea n : ℕ) → 0 < n → read_some (some (bytes_at f ea n)) ≡ true
unfolding bytes_at
read_some-bytes_at f ea zero pos = absurd (omega arith)
read_some-bytes_at f ea (suc n) pos = refl

filled_all :
    (n b : ℕ) (bs : List ℕ) → length (b ∷ bs) ≡ n → filled n (some (b ∷ bs)) ≡ some (b ∷ bs)
filled_all n b bs e =
    rw (← e) (ap some (ap (◌∷◌ b) (take-length-append bs (0 ∷ replicate (length bs) 0))))

filled-bytes_at :
    (f : ℕ → ℕ) (ea n : ℕ) → 0 < n → filled n (some (bytes_at f ea n)) ≡ some (bytes_at f ea n)
unfolding bytes_at
filled-bytes_at f ea zero pos = absurd (omega arith)
filled-bytes_at f ea (suc n) pos =
    filled_all (suc n) (f ea) (bytes_at f (ea + 1) n) (omega (arith, length-bytes_at f (ea + 1) n))

keep_org-bytes_at :
    (old : List ℕ) (f : ℕ → ℕ) (ea n : ℕ) → 0 < n → keep_org old (bytes_at f ea n) ≡ bytes_at f ea n
unfolding bytes_at
keep_org-bytes_at old f ea zero pos = absurd (omega arith)
keep_org-bytes_at old f ea (suc n) pos = refl

module _ {M : Type 0} (pf : Platform M) (byte : M → ℕ → ℕ) (IsMapped : ℕ → ℕ → Type 0)
    (law : IsMemory pf byte IsMapped) where
  open law use {reads, written, writes, content}

  -- The state after a software breakpoint was written at `ea`, and after `org` was written back.
  unfoldable pub with_bpt : Linux M → ℕ → Linux M
  with_bpt s ea = record s {
    machine = written s.machine ea pf.bpt_code;
    bpts =
        put_bpt
          (record {
            ea = ea;
            saved = bytes_at (byte s.machine) ea (length pf.bpt_code);
            nsaved = length pf.bpt_code;
          })
          s.bpts;
    removed_bpts = erase_ea ea s.removed_bpts;
  }

  unfoldable pub without_bpt : Linux M → ℕ → List ℕ → Linux M
  without_bpt s ea org = record s {
    machine = written s.machine ea org;
    removed_bpts = insert_ea ea s.removed_bpts;
  }

  linux_add_bpt-soft :
      (s : Linux M) (ea : ℕ)
      → 0 < length pf.bpt_code
      → length pf.bpt_code ≤ 32
      → IsMapped ea (length pf.bpt_code)
      → linux_add_bpt pf s bpt_soft ea (length pf.bpt_code) ≡ some (1, with_bpt s ea)
  unfolding linux_add_bpt add_soft after_write with_bpt
  linux_add_bpt-soft s ea pos small mapped =
      let n = length pf.bpt_code in
      let soft : add_soft pf s bpt_soft ea n ≡ (1, with_bpt s ea) =
        rw
          (
            add_soft,
            reads s.machine ea n mapped,
            read_some-bytes_at (byte s.machine) ea n pos,
            take_all n pf.bpt_code (omega arith),
            writes s.machine ea pf.bpt_code mapped,
            after_write,
          )
          (ground arith) in
      ground (arith, soft)

  linux_del_bpt-soft :
      (s : Linux M) (ea : ℕ) (org : List ℕ)
      → 0 < length org
      → IsMapped ea (length org)
      → linux_del_bpt pf s bpt_soft ea org (length org) ≡ some (1, without_bpt s ea org)
  unfolding linux_del_bpt after_restore without_bpt
  linux_del_bpt-soft s ea [] pos mapped = absurd (omega arith)
  linux_del_bpt-soft s ea (b ∷ bs) pos mapped =
      rw
        (
          take-length-append bs (0 ∷ replicate (length bs) 0),
          writes s.machine ea (b ∷ bs) mapped,
          after_restore,
        )
        (ground arith)

  -- The entry with the original bytes in it.
  unfoldable pub with_org : Linux M → BptInfo → BptInfo
  with_org s b = record b {
    code = bpt_ok;
    orgbytes = bytes_at (byte s.machine) b.ea (length pf.bpt_code);
  }

  add_one-soft :
      (s : Linux M) (b : BptInfo)
      → b.code ≡ bpt_ok
      → b.bpttype ≡ bpt_soft
      → 0 < length pf.bpt_code
      → length pf.bpt_code ≤ 32
      → IsMapped b.ea (length pf.bpt_code)
      → add_one (linux_module pf) s b ≡ some (with_org s b, with_bpt s b.ea)
  unfolding add_one place_soft read_bpt_orgbytes place with_org
  add_one-soft s b ok soft pos small mapped =
      let n = length pf.bpt_code in
      let org : read_bpt_orgbytes (linux_module pf) s b.ea n
          ≡ some (some (bytes_at (byte s.machine) b.ea n)) =
        rw
          (
            read_bpt_orgbytes,
            reads s.machine b.ea n mapped,
            filled-bytes_at (byte s.machine) b.ea n pos,
          )
          (ground arith) in
      let placed : place (linux_module pf) s b n (bytes_at (byte s.machine) b.ea n)
          ≡ some (with_org s b, with_bpt s b.ea) =
        rw
          (
            place,
            soft,
            linux_add_bpt-soft s b.ea pos small mapped,
            keep_org-bytes_at b.orgbytes (byte s.machine) b.ea n pos,
          )
          (ground arith) in
      let chosen : place_soft (linux_module pf) s b (read_bpt_orgbytes (linux_module pf) s b.ea n)
          ≡ some (with_org s b, with_bpt s b.ea) =
        rw org placed in
      ground (arith, chosen)

  -- Writing back what was read: the entry of a software breakpoint is deleted.
  del_one-soft :
      (s : Linux M) (b : BptInfo)
      → b.bpttype ≡ bpt_soft
      → 0 < length b.orgbytes
      → IsMapped b.ea (length b.orgbytes)
      → del_one (linux_module pf) s b
        ≡ some (record b { code = bpt_ok }, without_bpt s b.ea b.orgbytes)
  unfolding del_one deleted
  del_one-soft s b soft pos mapped =
      rw (del_one, soft, linux_del_bpt-soft s b.ea b.orgbytes pos mapped, deleted) (ground arith)

  pub restores :
      (s : Linux M) (b : BptInfo) (a : ℕ)
      → b.code ≡ bpt_ok
      → b.bpttype ≡ bpt_soft
      → 0 < length pf.bpt_code
      → length pf.bpt_code ≤ 32
      → IsMapped b.ea (length pf.bpt_code)
      → (s1 : Linux M) × (s2 : Linux M) × (b1 : BptInfo) × (dbg_update_bpts
            (linux_module pf)
            s
            (b ∷ [])
            1
          ≡ some ((1, b1 ∷ []), s1))
        × (dbg_update_bpts (linux_module pf) s1 (b1 ∷ []) 0 ≡ some ((1, b1 ∷ []), s2))
        × (b1.orgbytes ≡ bytes_at (byte s.machine) b.ea (length pf.bpt_code))
        × (byte s1.machine a ≡ overlay (byte s.machine) b.ea pf.bpt_code a)
        × (byte s2.machine a ≡ byte s.machine a)
        × (s2.regs ≡ s.regs)
  unfolding dbg_update_bpts add_all del_all with_org with_bpt without_bpt
  restores s b a ok soft pos small mapped =
      let n = length pf.bpt_code in
      let org = bytes_at (byte s.machine) b.ea n in
      let len : length org ≡ n = length-bytes_at (byte s.machine) b.ea n in
      let add = add_one-soft s b ok soft pos small mapped in
      let del = del_one-soft (with_bpt s b.ea) (with_org s b) soft (rw len pos) (rw len mapped) in
      (
        with_bpt s b.ea,
        without_bpt (with_bpt s b.ea) b.ea org,
        with_org s b,
        rw (dbg_update_bpts, add_all, add) (ground arith),
        rw (dbg_update_bpts, del_all, del) (ground arith),
        refl,
        content s.machine b.ea pf.bpt_code a mapped,
        content (written s.machine b.ea pf.bpt_code) b.ea org a (rw len mapped)
            ∙ (rw (fun_ext (λ x. content s.machine b.ea pf.bpt_code x mapped))
                (overlay_back (byte s.machine) b.ea pf.bpt_code a)),
        refl,
      )

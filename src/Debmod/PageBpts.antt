-- ===== src/Debmod/PageBpts.antt =====
-- debmod.cpp: page breakpoints. `page_bpts`, a std::map, is its list of entries with the keys rising.
pub mod Search
use reverse_engineearing.Base.{
  ℕ, zero, suc, ◌+◌, ◌-◌, ◌*◌, ◌/◌, ◌%◌, ◌^◌, ◌≤◌, ◌<◌, bit_and, bit_or, ◌≡◌, refl, sym, ap, ◌∙◌,
  ◌≢◌, ◌↔◌, ◌⊎◌, inl, inr, Bool, true, false, not, ◌&&◌, ◌||◌, Option, none, some, List, [], ◌∷◌,
  ◌++◌, append_assoc, append-nil, arith, ltb, leb, ◌==◌, if◌then◌else◌, of_bool, ==_iff, Bool-cases,
  Option-cases, length, get_elem?, set, take, drop, replicate, All, length-append, length-take,
  length-drop, take-append-drop, take-length-append, drop-length-append, take_all, All-append,
  codes, take_pieces, drop_pieces,
}

pub record PageBpt : Type 0 where
  pub key : ℕ
  pub ea : ℕ
  pub real_len : ℕ
  pub bpttype : ℕ

-- `interval::overlap`, on 32-bit words.
pub overlap : ℕ → ℕ → ℕ → ℕ → Bool
overlap off1 s1 off2 s2 = ltb off2 ((off1 + s1) % 2 ^ 32) && ltb off1 ((off2 + s2) % 2 ^ 32)

-- `align_down(ea, page_size)`; `calc_page_base`.
pub calc_page_base : ℕ → ℕ → ℕ
calc_page_base page_size ea = ea / page_size * page_size

-- `lower_bound`: the entry before it, if any, and the first entry whose key is not below `k`.
lower_bound : ℕ → Option PageBpt → List PageBpt → Option PageBpt × Option PageBpt
lower_bound k before [] = (before, none)
lower_bound k before (p ∷ ps) = if ltb p.key k then lower_bound k (some p) ps else (before, some p)

-- The entry that the iterator comes to: the one found if it begins below the end of the range, else the
-- one before.
candidate : ℕ → Option PageBpt × Option PageBpt → Option PageBpt
candidate range_end (before, none) = before
candidate range_end (before, some p) = if leb range_end p.key then before else some p

checked : ℕ → ℕ → Option PageBpt → Option PageBpt
unfolding overlap
checked ea size none = none
checked ea size (some p) = if overlap ea size p.key p.real_len then some p else none

pub find_page_bpt : ℕ → ℕ → ℕ → List PageBpt → Option PageBpt
unfolding lower_bound candidate checked calc_page_base
find_page_bpt page_size ea size bpts =
    checked ea size
      (candidate ((ea + size) % 2 ^ 32) (lower_bound (calc_page_base page_size ea) none bpts))

erase : ℕ → List PageBpt → List PageBpt
erase k [] = []
erase k (p ∷ ps) = if p.key == k then ps else p ∷ erase k ps

-- The entry erased, which `dbg_enable_page_bpt` disables, with the entries left; `none`: no exact match.
pub del_page_bpt : ℕ → ℕ → ℕ → List PageBpt → Option (PageBpt × List PageBpt)
unfolding find_page_bpt erase
del_page_bpt page_size ea type bpts = elim (find_page_bpt page_size ea 1 bpts) [
  | none ↦ none
  | some p ↦ if p.ea == ea && p.bpttype == type then some (p, erase p.key bpts) else none
]

-- ===== src/Server/Channels.antt =====
-- How the channels of open files are given out and taken back.
use reverse_engineearing.Base.{
  ℕ, zero, suc, ◌+◌, ◌≤◌, ◌≡◌, refl, sym, ap, ◌≢◌, Bool, none, some, List, [], ◌∷◌, arith,
  get_elem?, set,
}
use reverse_engineearing.Server.{
  Channels, find_free_from, find_free_channel, Files, opened, open_channel, close_channel,
}

-- A channel that is given out exists, is free, and every one before it is in use.
abbrev pub IsFirstFree : ℕ → Channels → Type 0
IsFirstFree n [] = ⊥
IsFirstFree zero (c ∷ cs) = c ≡ none
IsFirstFree (suc n) (c ∷ cs) = (c ≢ none) × IsFirstFree n cs

find_free_from-rising : (i : ℕ) (cs : Channels) {k : ℕ} → find_free_from i cs ≡ some k → i ≤ k
unfolding find_free_from
find_free_from-rising i [] e = cc
find_free_from-rising i (none ∷ cs) e = ground arith
find_free_from-rising i (some f ∷ cs) {k} e =
    let ih = find_free_from-rising (i + 1) cs {k = k} in ground arith

find_free_from-IsFirstFree :
    (i n : ℕ) (cs : Channels) → find_free_from i cs ≡ some (i + n) → IsFirstFree n cs
unfolding find_free_from
find_free_from-IsFirstFree i n [] e = cc
find_free_from-IsFirstFree i zero (none ∷ cs) e = refl
find_free_from-IsFirstFree i (suc n) (none ∷ cs) e = ground arith
find_free_from-IsFirstFree i zero (some f ∷ cs) e =
    let ih = find_free_from-rising (i + 1) cs {k = i} in ground arith
find_free_from-IsFirstFree i (suc n) (some f ∷ cs) e =
    (λ q. cc, find_free_from-IsFirstFree (i + 1) n cs (ground arith))

-- Filling the first free channel and emptying it again.
IsFirstFree-set :
    (n file : ℕ) (cs : Channels)
    → IsFirstFree n cs
    → (get_elem? (set cs n (some file)) n ≡ some (some file))
      × (set (set cs n (some file)) n none ≡ cs)
IsFirstFree-set n file [] g = absurd g
IsFirstFree-set zero file (c ∷ cs) g = (refl, ap (λ x. x ∷ cs) (sym g))
IsFirstFree-set (suc n) file (c ∷ cs) g =
    let ih = IsFirstFree-set n file cs g.1 in (ih.0, ap (◌∷◌ c) ih.1)

-- Closing the channel that was just filled.
close_channel_filled :
    {F : Type 0} (fs : Files F) (cs cs' : Channels) (f f' : F) (fn file : ℕ)
    → IsFirstFree fn cs
    → cs' ≡ set cs fn (some file)
    → f' ≡ f
    → close_channel fs cs' fn f' ≡ some (cs, fs.qfclose f file)
unfolding close_channel
close_channel_filled fs cs cs' f f' fn file first p q =
    let (got, back) = IsFirstFree-set fn file cs first in
    rw (p, q) (rw (close_channel, got) (ap (λ c. some (c, fs.qfclose f file)) back))

-- When a file is opened while a channel is free, it goes to the first free channel, and closing that channel
-- closes that file and leaves all channels as they were before.
pub close_channel-open_channel :
    {F : Type 0} (fs : Files F) (req name : List ℕ) (cs : Channels) (readonly : Bool) (f f' : F)
    (fn file : ℕ)
    → find_free_channel cs ≡ some fn
    → fs.fopen f readonly name ≡ (some file, f')
    → IsFirstFree fn cs
      × (close_channel fs
            (open_channel fs req cs readonly name f).1
            fn
            (open_channel fs req cs readonly name f).2
          ≡ some (cs, fs.qfclose f' file))
unfolding find_free_channel open_channel opened
close_channel-open_channel fs req name cs readonly f f' fn file free e =
    let first : IsFirstFree fn cs = find_free_from-IsFirstFree 0 fn cs (ground arith) in
    (
      first,
      close_channel_filled fs cs (open_channel fs req cs readonly name f).1 f'
          (open_channel fs req cs readonly name f).2 fn file first
          (rw (open_channel, free, e, opened)) (rw (open_channel, free, e, opened)),
    )

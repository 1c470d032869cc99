-- ===== src/Debmod/Memory/Bytes.antt =====
-- Bytes and words of a memory.
use reverse_engineearing.Base.{
  ℕ, zero, suc, ◌+◌, ◌-◌, ◌%◌, ◌^◌, ◌≤◌, ◌<◌, ◌≡◌, refl, sym, ap, ◌∙◌, ◌⊎◌, inl, inr, ◌&&◌, List,
  [], ◌∷◌, ◌++◌, arith, ltb, leb, ◌==◌, if◌then◌else◌, Bool-cases, length, take, drop,
  length-append,
}

-- The bytes of a memory from an address on, and a memory in which some are replaced.
unfoldable pub bytes_at : (ℕ → ℕ) → ℕ → ℕ → List ℕ
bytes_at f ea zero = []
bytes_at f ea (suc n) = f ea ∷ bytes_at f (ea + 1) n

unfoldable pub overlay : (ℕ → ℕ) → ℕ → List ℕ → ℕ → ℕ
overlay f ea [] a = f a
overlay f ea (b ∷ bs) a = if a == ea then b else overlay f (ea + 1) bs a

pub length-bytes_at : (f : ℕ → ℕ) (ea n : ℕ) → length (bytes_at f ea n) ≡ n
unfolding bytes_at
length-bytes_at f ea zero = refl
length-bytes_at f ea (suc n) = omega (arith, length-bytes_at f (ea + 1) n)

pub overlay-outside :
    (f : ℕ → ℕ) (ea : ℕ) (bs : List ℕ) (a : ℕ)
    → (a < ea) ⊎ (ea + length bs ≤ a)
    → overlay f ea bs a ≡ f a
unfolding overlay
overlay-outside f ea [] a out = refl
overlay-outside f ea (b ∷ bs) a out = let ih = overlay-outside f (ea + 1) bs a in ground arith

pub overlay-inside :
    (f g : ℕ → ℕ) (ea n a : ℕ) → ea ≤ a → a < ea + n → overlay f ea (bytes_at g ea n) a ≡ g a
unfolding overlay bytes_at
overlay-inside f g ea zero a lo hi = absurd (omega arith)
overlay-inside f g ea (suc n) a lo hi = let ih = overlay-inside f g (ea + 1) n a in grind arith

-- The memory at an address matters only there.
pub overlay_cong :
    (f g : ℕ → ℕ) (ea : ℕ) (bs : List ℕ) (a : ℕ) → f a ≡ g a → overlay f ea bs a ≡ overlay g ea bs a
unfolding overlay
overlay_cong f g ea [] a e = e
overlay_cong f g ea (b ∷ bs) a e = rw (overlay_cong f g (ea + 1) bs a e) refl

overlay-append :
    (f : ℕ → ℕ) (ea : ℕ) (bs cs : List ℕ) (a : ℕ)
    → overlay f ea (bs ++ cs) a ≡ overlay (overlay f (ea + length bs) cs) ea bs a
unfolding overlay
overlay-append f ea [] cs a = ap (λ n. overlay f n cs a) (omega arith)
overlay-append f ea (b ∷ bs) cs a =
    let e : ea + 1 + length bs ≡ ea + suc (length bs) = omega arith in
    let ih =
      overlay-append f (ea + 1) bs cs a ∙ ap (λ n. overlay (overlay f n cs) (ea + 1) bs a) e in
    rw ih refl

-- Two pieces that do not meet may be written in either order.
overlay_swap :
    (f : ℕ → ℕ) (a : ℕ) (xs : List ℕ) (b : ℕ) (ys : List ℕ) (x : ℕ)
    → a + length xs ≤ b
    → overlay (overlay f a xs) b ys x ≡ overlay (overlay f b ys) a xs x
overlay_swap f a xs b ys x apart = elim (Bool-cases (ltb x b)) [
  | inl y ↦
      let low : x < b = ground (arith, y) in
      overlay-outside (overlay f a xs) b ys x (inl low)
      ∙ overlay_cong f (overlay f b ys) a xs x (sym (overlay-outside f b ys x (inl low)))
  | inr n ↦
      let high : a + length xs ≤ x = ground (arith, n) in
      overlay_cong (overlay f a xs) f b ys x (overlay-outside f a xs x (inr high))
      ∙ sym (overlay-outside (overlay f b ys) a xs x (inr high))
]

-- Behind the front of a list comes the rest.
pub overlay_rest :
    (f : ℕ → ℕ) (ea : ℕ) (bs cs : List ℕ) (a : ℕ)
    → overlay (overlay f ea bs) (ea + length bs) cs a ≡ overlay f ea (bs ++ cs) a
overlay_rest f ea bs cs a =
    overlay_swap f ea bs (ea + length bs) cs a (omega arith) ∙ sym (overlay-append f ea bs cs a)

pub same_bytes : (f : ℕ → ℕ) {a b m n : ℕ} → a ≡ b → m ≡ n → bytes_at f a m ≡ bytes_at f b n
same_bytes f p q = cc

pub drop-bytes_at :
    (f : ℕ → ℕ) (ea n k : ℕ) → k ≤ n → drop k (bytes_at f ea n) ≡ bytes_at f (ea + k) (n - k)
unfolding bytes_at
drop-bytes_at f ea n zero h = same_bytes f (omega arith) (omega arith)
drop-bytes_at f ea zero (suc k) h = absurd (omega arith)
drop-bytes_at f ea (suc n) (suc k) h =
    drop-bytes_at f (ea + 1) n k (omega arith) ∙ same_bytes f (omega arith) (omega arith)

pub take-bytes_at : (f : ℕ → ℕ) (ea n k : ℕ) → k ≤ n → take k (bytes_at f ea n) ≡ bytes_at f ea k
unfolding bytes_at
take-bytes_at f ea n zero h = refl
take-bytes_at f ea zero (suc k) h = absurd (omega arith)
take-bytes_at f ea (suc n) (suc k) h = ap (◌∷◌ (f ea)) (take-bytes_at f (ea + 1) n k (omega arith))

pub bytes_at-append :
    (f : ℕ → ℕ) (ea n k : ℕ) → bytes_at f ea n ++ bytes_at f (ea + n) k ≡ bytes_at f ea (n + k)
unfolding bytes_at
bytes_at-append f ea zero k = same_bytes f (omega arith) (omega arith)
bytes_at-append f ea (suc n) k =
    let next : ea + suc n ≡ ea + 1 + n = omega arith in
    let all : suc n + k ≡ suc (n + k) = omega arith in
    ap (λ e. f ea ∷ (bytes_at f (ea + 1) n ++ bytes_at f e k)) next
    ∙ ap (◌∷◌ (f ea)) (bytes_at-append f (ea + 1) n k)
    ∙ same_bytes f {a = ea} refl (sym all)

overlay_same : (f : ℕ → ℕ) (ea n a : ℕ) → overlay f ea (bytes_at f ea n) a ≡ f a
overlay_same f ea n a = elim (Bool-cases (leb ea a && ltb a (ea + n))) [
  | inl y ↦ overlay-inside f f ea n a (ground (arith, y)) (ground (arith, y))
  | inr z ↦
      let out : (a < ea) ⊎ (ea + n ≤ a) = ground (arith, z) in
      overlay-outside f ea (bytes_at f ea n) a (rw (length-bytes_at f ea n) out)
]

-- What is written in front of a piece, as it was, changes nothing.
overlay_front :
    (f g : ℕ → ℕ) (base n a : ℕ)
    → ((x : ℕ) → x < base + n → g x ≡ f x)
    → overlay g base (bytes_at f base n) a ≡ g a
overlay_front f g base n a low = elim (Bool-cases (leb base a && ltb a (base + n))) [
  | inl y ↦
      overlay-inside g f base n a (ground (arith, y)) (ground (arith, y))
      ∙ sym (low a (ground (arith, y)))
  | inr z ↦
      let out : (a < base) ⊎ (base + n ≤ a) = ground (arith, z) in
      overlay-outside g base (bytes_at f base n) a (rw (length-bytes_at f base n) out)
]

overlay_tail :
    (f : ℕ → ℕ) (ea : ℕ) (bs : List ℕ) (r a : ℕ)
    → overlay f ea (bs ++ bytes_at f (ea + length bs) r) a ≡ overlay f ea bs a
overlay_tail f ea bs r a =
    overlay-append f ea bs (bytes_at f (ea + length bs) r) a
    ∙ overlay_cong _ f ea bs a (overlay_same f (ea + length bs) r a)

-- The address behind the last byte wraps round to zero, and nothing is there.
pub bytes_wrap : (f : ℕ → ℕ) (a n : ℕ) → a + n ≤ 2 ^ 32 → bytes_at f (a % 2 ^ 32) n ≡ bytes_at f a n
unfolding bytes_at
bytes_wrap f a zero h = refl
bytes_wrap f a (suc n) h = let e : a % 2 ^ 32 ≡ a = omega arith in ap (λ x. bytes_at f x (suc n)) e

pub overlay_wrap :
    (f : ℕ → ℕ) (a : ℕ) (bs : List ℕ) (x : ℕ)
    → a + length bs ≤ 2 ^ 32
    → overlay f (a % 2 ^ 32) bs x ≡ overlay f a bs x
unfolding overlay
overlay_wrap f a [] x h = refl
overlay_wrap f a (b ∷ bs) x h =
    let e : a % 2 ^ 32 ≡ a = omega arith in ap (λ n. overlay f n (b ∷ bs) x) e

-- The word of `bs` and the bytes around it, as `write_word` makes it.
abbrev pub word_with : (ℕ → ℕ) → ℕ → List ℕ → List ℕ
word_with f ea bs =
    take (ea % 4) (bytes_at f (ea - ea % 4) 4)
    ++ (bs ++ drop (ea % 4 + length bs) (bytes_at f (ea - ea % 4) 4))

word_parts :
    (f : ℕ → ℕ) (ea : ℕ) (bs : List ℕ)
    → ea % 4 + length bs ≤ 4
    → word_with f ea bs
      ≡ bytes_at f (ea - ea % 4) (ea % 4)
        ++ (bs ++ bytes_at f (ea + length bs) (4 - (ea % 4 + length bs)))
word_parts f ea bs fits =
    let s = ea % 4 in
    let k = length bs in
    let base = ea - s in
    let front : take s (bytes_at f base 4) ≡ bytes_at f base s =
      take-bytes_at f base 4 s (omega arith) in
    let tail : drop (s + k) (bytes_at f base 4) ≡ bytes_at f (ea + k) (4 - (s + k)) =
      drop-bytes_at f base 4 (s + k) fits ∙ same_bytes f (omega arith) refl in
    ap (λ t. t ++ (bs ++ drop (s + k) (bytes_at f base 4))) front
    ∙ ap (λ t. bytes_at f base s ++ (bs ++ t)) tail

pub length-word_with :
    (f : ℕ → ℕ) (ea : ℕ) (bs : List ℕ) → ea % 4 + length bs ≤ 4 → length (word_with f ea bs) ≡ 4
length-word_with f ea bs fits =
    let base = ea - ea % 4 in
    let r = 4 - (ea % 4 + length bs) in
    let l1 = length-append (bytes_at f base (ea % 4)) (bs ++ bytes_at f (ea + length bs) r) in
    let l2 = length-append bs (bytes_at f (ea + length bs) r) in
    let n1 = length-bytes_at f base (ea % 4) in
    let n2 = length-bytes_at f (ea + length bs) r in
    ap length (word_parts f ea bs fits) ∙ omega arith

pub overlay-word_with :
    (f : ℕ → ℕ) (ea : ℕ) (bs : List ℕ) (a : ℕ)
    → ea % 4 + length bs ≤ 4
    → overlay f (ea - ea % 4) (word_with f ea bs) a ≡ overlay f ea bs a
overlay-word_with f ea bs a fits =
    let s = ea % 4 in
    let base = ea - s in
    let r = 4 - (s + length bs) in
    let mid = bs ++ bytes_at f (ea + length bs) r in
    let whole : base + s ≡ ea = omega arith in
    let at : base + length (bytes_at f base s) ≡ ea =
      ap (λ n. base + n) (length-bytes_at f base s) ∙ whole in
    ap (λ t. overlay f base t a) (word_parts f ea bs fits)
    ∙ overlay-append f base (bytes_at f base s) mid a
    ∙ ap (λ e. overlay (overlay f e mid) base (bytes_at f base s) a) at
    ∙ overlay_front f (overlay f ea mid) base s a
        (λ x low. overlay-outside f ea mid x (inl (omega arith)))
    ∙ overlay_tail f ea bs r a

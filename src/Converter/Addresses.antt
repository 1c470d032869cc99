-- ===== src/Converter/Addresses.antt =====
-- 专用地址转换器/专用地址转换器Dlg.cpp: the handlers of the dialog that turn an address into its special forms, and each
-- of these back into the others.
-- The buffers of 1024 characters are taken as large enough.
use reverse_engineearing.Base.{
  ℕ, ◌+◌, ◌-◌, ◌*◌, ◌/◌, ◌||◌, Option, none, some, List, [], ◌∷◌, ◌++◌, ltb, leb, ◌==◌,
  if◌then◌else◌, length, take, drop, codes,
}
use reverse_engineearing.Codec.{c_str}
use reverse_engineearing.Converter.{translate1, translate2}

-- The text of the dialog's fields.
pub record Fields : Type 0 where
  pub normal : List ℕ
  pub thunder : List ℕ
  pub flashget : List ℕ
  pub xuanfeng : List ℕ
  pub feisu : List ℕ

pub strrev : List ℕ → List ℕ
strrev [] = []
strrev (c ∷ cs) = strrev cs ++ (c ∷ [])

-- `eax` is what the register holds before the translation.
pub thunder_text : ℕ → List ℕ → List ℕ
thunder_text eax url = codes "thunder://" ++ translate1 eax (65 ∷ 65 ∷ (url ++ codes "ZZ"))

pub flashget_text : ℕ → List ℕ → List ℕ
flashget_text eax url =
    codes "flashget://" ++ translate1 eax (codes "[FLASHGET]" ++ url ++ codes "[FLASHGET]")

pub xuanfeng_text : ℕ → List ℕ → List ℕ
xuanfeng_text eax url = codes "qqdl://" ++ translate1 eax url

-- The first seven characters are cut off; of a shorter address, a byte before the buffer is overwritten: none.
pub feisu_text : ℕ → List ℕ → Option (List ℕ)
feisu_text eax url =
    if ltb (length url) 7 then none else some (codes "fs2you://" ++ translate1 eax (drop 7 url))

fill_fields : ℕ → List ℕ → List ℕ → Option (List ℕ) → Option Fields
unfolding flashget_text xuanfeng_text
fill_fields eax url thunder none = none
fill_fields eax url thunder (some feisu) = some (record {
  normal = url;
  thunder = thunder;
  flashget = flashget_text eax url;
  xuanfeng = xuanfeng_text eax url;
  feisu = feisu;
})

-- `OnChangeNormaladdr`
pub on_change_normal : ℕ → List ℕ → Option Fields
unfolding fill_fields feisu_text thunder_text
on_change_normal eax url = fill_fields eax url (thunder_text eax url) (feisu_text eax url)

-- `translate2` reads from its second argument and writes to its first. The handlers pass the text as the first and a
-- buffer as the second into which nothing was stored yet, `unset`: the text is overwritten, and they go on with `unset`.

-- What is left of `unset` when `n` characters are cut off at each end, by the length that `translate2` returned. A
-- length that is too short, or negative, makes a write before the buffer: none.
unwrap : ℕ → List ℕ → Option (List ℕ × ℕ) → Option (List ℕ)
unfolding strrev
unwrap n unset none = none
unwrap n unset (some (buf, ret)) =
    let s = c_str (take (ret - n) unset) in
    if ltb ret (2 * n) || leb 0x80000000 ret
    then none
    else some (strrev (take (ret - 2 * n) (strrev s)))

-- The call of `translate2` once the prefix of `n` characters of the text is cut off, for which a shorter text makes a
-- write before the buffer: none. `len` is the length that is passed on.
pub translated : ℕ → ℕ → List ℕ → List ℕ → Option (List ℕ × ℕ)
translated n len text unset = if ltb (length text) n then none else translate2 (len / 4) [] unset

pub from_thunder : List ℕ → List ℕ → Option (List ℕ)
unfolding unwrap translated
from_thunder unset text = unwrap 2 unset (translated 10 (length text + 1) text unset)

-- Before the first character `c`.
before_char : ℕ → List ℕ → List ℕ
before_char c [] = []
before_char c (x ∷ xs) = let rest = before_char c xs in if x == c then [] else x ∷ rest

-- Each `&` is made a zero, so the text ends at the first one.
pub from_flashget : List ℕ → List ℕ → Option (List ℕ)
unfolding unwrap translated before_char
from_flashget unset text =
    unwrap 10 unset (translated 11 (length text + 1) (before_char 38 text) unset)

text_of : List ℕ → Option (List ℕ × ℕ) → Option (List ℕ)
text_of unset none = none
text_of unset (some (buf, ret)) = some (c_str unset)

pub from_xuanfeng : List ℕ → List ℕ → Option (List ℕ)
unfolding text_of translated
from_xuanfeng unset text = text_of unset (translated 7 (length text + 1) text unset)

-- The address ends at the first `|`.
with_http : Option (List ℕ) → Option (List ℕ)
unfolding before_char
with_http none = none
with_http (some url) = some (before_char 124 (codes "http://" ++ url))

pub from_feisu : List ℕ → List ℕ → Option (List ℕ)
unfolding with_http text_of translated
from_feisu unset text = with_http (text_of unset (translated 9 (length text + 1) text unset))

-- `OnChangeThunderaddr`
pub on_change_thunder : ℕ → List ℕ → List ℕ → Option Fields
unfolding from_thunder fill_fields feisu_text
on_change_thunder eax unset text = elim (from_thunder unset text) [
  | none ↦ none
  | some url ↦ fill_fields eax url text (feisu_text eax url)
]

-- `OnChangeFlashgetaddr`
pub on_change_flashget : ℕ → List ℕ → List ℕ → Option Fields
unfolding from_flashget on_change_normal
on_change_flashget eax unset text = elim (from_flashget unset text) [
  | none ↦ none
  | some url ↦ elim (on_change_normal eax url) [
    | none ↦ none
    | some fields ↦ some (record fields { flashget = text })
  ]
]

-- `OnChangeXuanfengaddr`
pub on_change_xuanfeng : ℕ → List ℕ → List ℕ → Option Fields
unfolding from_xuanfeng on_change_normal
on_change_xuanfeng eax unset text = elim (from_xuanfeng unset text) [
  | none ↦ none
  | some url ↦ elim (on_change_normal eax url) [
    | none ↦ none
    | some fields ↦ some (record fields { xuanfeng = text })
  ]
]

-- `OnChangeFeisuaddr`: the second copy of the thunder address overwrites its prefix.
pub on_change_feisu : ℕ → List ℕ → List ℕ → Option Fields
unfolding from_feisu flashget_text xuanfeng_text
on_change_feisu eax unset text = elim (from_feisu unset text) [
  | none ↦ none
  | some url ↦ some (record {
    normal = url;
    thunder = translate1 eax (65 ∷ 65 ∷ (url ++ codes "ZZ"));
    flashget = flashget_text eax url;
    xuanfeng = xuanfeng_text eax url;
    feisu = text;
  })
]

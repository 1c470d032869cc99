-- ===== src/Codec/Extends.antt =====
-- Writers only ever add to a packet.
use reverse_engineearing.Base.{
  ℕ, ◌≡◌, sym, ap, ◌∙◌, Bool, true, false, List, [], ◌++◌, append_assoc, append-nil, if◌then◌else◌,
}
use reverse_engineearing.Wire.{append_dd, append_db, append_dq, pack_dd}
use reverse_engineearing.Wire.Defects.{append_db_lem}
use reverse_engineearing.Wire.Format.{append_dd-append, append_dq-append, dq_bytes}
use reverse_engineearing.Codec.{append_ea64, append_str, append_memory, append_list}
use reverse_engineearing.Codec.Fields.{
  Appends, append_ea64-append, append_str-append, append_memory-append, append_list-append,
  items_bytes, str_bytes, ea_bytes,
}

-- `t` is `s` with something behind it.
pub record Extends (s t : List ℕ) : Type 0 where
  pub added : List ℕ
  pub is_added : t ≡ s ++ added

extended : {s t : List ℕ} (b : List ℕ) → t ≡ s ++ b → Extends s t
extended b e = record { added = b; is_added = e }

pub Extends-refl : (s : List ℕ) → Extends s s
Extends-refl s = extended [] (sym (append-nil s))

pub Extends-trans : {s t u : List ℕ} → Extends s t → Extends t u → Extends s u
Extends-trans {s} e f =
    extended (e.added ++ f.added)
      (f.is_added ∙ ap (λ z. z ++ f.added) e.is_added ∙ append_assoc s e.added f.added)

pub Extends-item :
    {A : Type 0} {item : List ℕ → A → List ℕ} {s t : List ℕ}
    → Appends item
    → (x : A) → Extends s t
    → Extends s (item t x)
Extends-item {item = item} {t = t} law x e = Extends-trans e (extended (item [] x) (law t x))

pub Extends-dd : {s t : List ℕ} (x : ℕ) → Extends s t → Extends s (append_dd t x)
Extends-dd {t = t} x e = Extends-trans e (extended (pack_dd 5 x) (append_dd-append t x))

pub Extends-ea64 : {s t : List ℕ} (x : ℕ) → Extends s t → Extends s (append_ea64 t x)
Extends-ea64 {t = t} x e = Extends-trans e (extended (ea_bytes x) (append_ea64-append t x))

pub Extends-str : {s t : List ℕ} (x : List ℕ) → Extends s t → Extends s (append_str t x)
Extends-str {t = t} x e = Extends-trans e (extended (str_bytes x) (append_str-append t x))

pub Extends-memory : {s t : List ℕ} (x : List ℕ) → Extends s t → Extends s (append_memory t x)
Extends-memory {t = t} x e = Extends-trans e (extended x (append_memory-append t x))

pub Extends-if :
    {s t u : List ℕ} (c : Bool) → Extends s t → Extends s u → Extends s (if c then t else u)
Extends-if true e f = e
Extends-if false e f = f

pub Extends-db : {s t : List ℕ} (x : ℕ) → Extends s t → Extends s (append_db t x)
Extends-db {t = t} x e = Extends-trans e (extended [] (append_db_lem t x ∙ sym (append-nil t)))

pub Extends-dq : {s t : List ℕ} (x : ℕ) → Extends s t → Extends s (append_dq t x)
Extends-dq {t = t} x e = Extends-trans e (extended (dq_bytes x) (append_dq-append t x))

pub Extends-list :
    {A : Type 0} {item : List ℕ → A → List ℕ} {s t : List ℕ}
    → Appends item
    → (xs : List A) → Extends s t
    → Extends s (append_list item t xs)
Extends-list {item = item} {t = t} law xs e =
    Extends-trans e (extended (items_bytes item xs) (append_list-append item law t xs))

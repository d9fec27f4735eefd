-- ===== src/Values/Reads.antt =====
-- What the tests of a document say about it.
use devlegate.Prelude.{◌≡◌, refl, ap, ◌∙◌, String, Bool, false, Option, none, some, arith, str_eq}
use devlegate.Values.{
  Value, Fields, obj, arr, str, int, float, bool, null, get, as_dict, as_text, as_nonempty_text,
  as_int, as_bool, item_as,
}
use devlegate.Values.Int.{ℤ}

module _ {A : Type 0} (test : Value → Option A) where
  pub item_as-get :
      (k : String) (fs : Fields) (v : Value) → get k fs ≡ some v → item_as test k fs ≡ test v
  unfolding item_as
  item_as-get k fs v h = rw (h, item_as) refl

  pub item_as-eq-some :
      (k : String) (fs : Fields) (a : A)
      → item_as test k fs ≡ some a
      → (v : Value) × (get k fs ≡ some v) × (test v ≡ some a)
  unfolding item_as
  item_as-eq-some k fs a h = through (get k fs) h
    where
      through :
          (o : Option Value)
          → elim o [ none ↦ none | some v ↦ test v ] ≡ some a
          → (v : Value) × (o ≡ some v) × (test v ≡ some a)
      through none e = cc
      through (some v) e = (v, refl, e)

pub as_dict-eq-some : (v : Value) (fs : Fields) → as_dict v ≡ some fs → v ≡ obj fs
unfolding as_dict
as_dict-eq-some (obj x) fs h = cc
as_dict-eq-some (arr x) fs h = cc
as_dict-eq-some (str x) fs h = cc
as_dict-eq-some (int x) fs h = cc
as_dict-eq-some (float x) fs h = cc
as_dict-eq-some (bool x) fs h = cc
as_dict-eq-some null fs h = cc

pub as_int-eq-some : (v : Value) (n : ℤ) → as_int v ≡ some n → v ≡ int n
unfolding as_int
as_int-eq-some (obj x) n h = cc
as_int-eq-some (arr x) n h = cc
as_int-eq-some (str x) n h = cc
as_int-eq-some (int x) n h = cc
as_int-eq-some (float x) n h = cc
as_int-eq-some (bool x) n h = cc
as_int-eq-some null n h = cc

pub as_bool-eq-some : (v : Value) (b : Bool) → as_bool v ≡ some b → v ≡ bool b
unfolding as_bool
as_bool-eq-some (obj x) b h = cc
as_bool-eq-some (arr x) b h = cc
as_bool-eq-some (str x) b h = cc
as_bool-eq-some (int x) b h = cc
as_bool-eq-some (float x) b h = cc
as_bool-eq-some (bool x) b h = cc
as_bool-eq-some null b h = cc

pub as_text-eq-some : (v : Value) (s : String) → as_text v ≡ some s → v ≡ str s
unfolding as_text
as_text-eq-some (obj x) s h = cc
as_text-eq-some (arr x) s h = cc
as_text-eq-some (str x) s h = cc
as_text-eq-some (int x) s h = cc
as_text-eq-some (float x) s h = cc
as_text-eq-some (bool x) s h = cc
as_text-eq-some null s h = cc

pub as_nonempty_text-str : (s : String) → str_eq s "" ≡ false → as_nonempty_text (str s) ≡ some s
unfolding as_nonempty_text
as_nonempty_text-str s h = rw h refl

pub as_nonempty_text-eq-some :
    (v : Value) (s : String) → as_nonempty_text v ≡ some s → (v ≡ str s) × (str_eq s "" ≡ false)
unfolding as_nonempty_text
as_nonempty_text-eq-some (obj x) s h = cc
as_nonempty_text-eq-some (arr x) s h = cc
as_nonempty_text-eq-some (str x) s h = ground arith
as_nonempty_text-eq-some (int x) s h = cc
as_nonempty_text-eq-some (float x) s h = cc
as_nonempty_text-eq-some (bool x) s h = cc
as_nonempty_text-eq-some null s h = cc

-- The item under `k` is a non-empty text.
abbrev pub HasText : String → Fields → String → Type 0
HasText k fs s = (get k fs ≡ some (str s)) × (str_eq s "" ≡ false)

pub item_as-dict :
    (k : String) (fs gs : Fields) → item_as as_dict k fs ≡ some gs → get k fs ≡ some (obj gs)
item_as-dict k fs gs h =
    let (v, found, read) = item_as-eq-some as_dict k fs gs h in
    found ∙ ap some (as_dict-eq-some v gs read)

pub item_as-int :
    (k : String) (fs : Fields) (n : ℤ) → item_as as_int k fs ≡ some n → get k fs ≡ some (int n)
item_as-int k fs n h =
    let (v, found, read) = item_as-eq-some as_int k fs n h in
    found ∙ ap some (as_int-eq-some v n read)

pub item_as-bool :
    (k : String) (fs : Fields) (b : Bool) → item_as as_bool k fs ≡ some b → get k fs ≡ some (bool b)
item_as-bool k fs b h =
    let (v, found, read) = item_as-eq-some as_bool k fs b h in
    found ∙ ap some (as_bool-eq-some v b read)

pub item_as-text :
    (k : String) (fs : Fields) (s : String)
    → item_as as_text k fs ≡ some s
    → get k fs ≡ some (str s)
item_as-text k fs s h =
    let (v, found, read) = item_as-eq-some as_text k fs s h in
    found ∙ ap some (as_text-eq-some v s read)

pub item_as-nonempty_text :
    (k : String) (fs : Fields) (s : String)
    → item_as as_nonempty_text k fs ≡ some s
    → HasText k fs s
item_as-nonempty_text k fs s h =
    let (v, found, read) = item_as-eq-some as_nonempty_text k fs s h in
    let (is_str, filled) = as_nonempty_text-eq-some v s read in (found ∙ ap some is_str, filled)

pub HasText-item_as :
    (k : String) (fs : Fields) (s : String)
    → HasText k fs s
    → item_as as_nonempty_text k fs ≡ some s
HasText-item_as k fs s h =
    item_as-get as_nonempty_text k fs (str s) h.0 ∙ as_nonempty_text-str s h.1

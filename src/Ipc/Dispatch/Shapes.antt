-- ===== src/Ipc/Dispatch/Shapes.antt =====
-- What the checks of a payload in src/devlegate/ipc_server.py say of it.
use devlegate.Prelude.{
  ◌≡◌, ◌↔◌, ◌⊎◌, inl, inr, refl, ap, ◌∙◌, String, Bool, false, Bool-cases, Option, none, some,
  str_eq,
}
use devlegate.Values.{
  Value, Fields, obj, arr, str, int, float, bool, null, get, as_bool, as_nonempty_text,
}
use devlegate.Values.Reads.{HasText, as_bool-eq-some, as_nonempty_text-eq-some}
use devlegate.Ipc.Dispatch.{flag, text_or_none, optional_text}

-- A flag that is not there is false.
abbrev pub IsFlag : String → Fields → Bool → Type 0
IsFlag k fs b = ((get k fs ≡ none) × (b ≡ false)) ⊎ (get k fs ≡ some (bool b))

-- An optional text that is not there, or null, is None.
abbrev pub IsOptionalText : String → Fields → Option String → Type 0
IsOptionalText k fs o =
    (((get k fs ≡ none) ⊎ (get k fs ≡ some null)) × (o ≡ none))
    ⊎ ((s : String) × (o ≡ some s) × HasText k fs s)

pub flag_iff : (k : String) (fs : Fields) (b : Bool) → (flag k fs ≡ some b) ↔ IsFlag k fs b
unfolding flag as_bool
flag_iff k fs b = (told (get k fs), asked)
  where
    told :
        (v : Option Value)
        → elim v [ none ↦ some false | some w ↦ as_bool w ] ≡ some b
        → ((v ≡ none) × (b ≡ false)) ⊎ (v ≡ some (bool b))
    told none h = inl (refl, cc)
    told (some w) h = inr (ap some (as_bool-eq-some w b h))

    asked : IsFlag k fs b → flag k fs ≡ some b
    asked (inl (absent, is_false)) = rw (flag, absent, is_false) refl
    asked (inr there) = rw (flag, there) refl

text_or_none-cases :
    (v : Value) (o : Option String)
    → text_or_none v ≡ some o
    → ((v ≡ null) × (o ≡ none)) ⊎ ((s : String) × (o ≡ some s) × (as_nonempty_text v ≡ some s))
unfolding text_or_none as_nonempty_text
text_or_none-cases (obj x) o h = cc
text_or_none-cases (arr x) o h = cc
text_or_none-cases (str x) o h = elim (Bool-cases (str_eq x "")) [
  | inl e ↦ absurd (nothing (rw (text_or_none, e) at h))
  | inr e ↦ inr (x, found (rw (text_or_none, e) at h), rw e refl)
]
  where
    nothing : none ≡ some o → ⊥
    nothing k = cc

    found : some (some x) ≡ some o → o ≡ some x
    found k = cc
text_or_none-cases (int x) o h = cc
text_or_none-cases (float x) o h = cc
text_or_none-cases (bool x) o h = cc
text_or_none-cases null o h = inl (refl, cc)

pub optional_text_iff :
    (k : String) (fs : Fields) (o : Option String)
    → (optional_text k fs ≡ some o) ↔ IsOptionalText k fs o
unfolding optional_text text_or_none as_nonempty_text
optional_text_iff k fs o = (told (get k fs) refl, asked)
  where
    told :
        (v : Option Value)
        → get k fs ≡ v
        → elim v [ none ↦ some none | some w ↦ text_or_none w ] ≡ some o
        → IsOptionalText k fs o
    told none e h = inl (inl e, cc)
    told (some w) e h = elim (text_or_none-cases w o h) [
      | inl (is_null, is_none) ↦ inl (inr (e ∙ ap some is_null), is_none)
      | inr (s, is_some, read) ↦
          let (is_str, filled) = as_nonempty_text-eq-some w s read in
          inr (s, is_some, (e ∙ ap some is_str, filled))
    ]

    asked : IsOptionalText k fs o → optional_text k fs ≡ some o
    asked (inl (inl absent, is_none)) = rw (optional_text, absent, is_none) refl
    asked (inl (inr is_null, is_none)) = rw (optional_text, is_null, is_none) refl
    asked (inr (s, is_some, (there, filled))) =
        rw (optional_text, there, text_or_none, filled, is_some) refl

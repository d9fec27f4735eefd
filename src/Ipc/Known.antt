-- ===== src/Ipc/Known.antt =====
-- Stand-ins for Python's `json` that know one document, or two, for the tests.
use devlegate.Prelude.{
  none-ne-some, ℕ, ◌≡◌, refl, sym, ap, ◌∙◌, Bool, true, false, Bool-cases, ◌&&◌, Option, none, some,
  List, [], ◌∷◌, inl, inr, str_eq, eq_iff, if◌then◌else◌, both, same_bool,
}
use devlegate.Values.{
  Value, Fields, obj, arr, str, int, float, bool, null, field, no_fields, as_dict, as_text, as_int,
  as_bool,
}
use devlegate.Values.Int.{int_eq, int_eq_iff}
use devlegate.Ipc.Json.{Json, IsJson, sorted_value}
use devlegate.Values.Reads.{as_dict-eq-some, as_text-eq-some, as_int-eq-some, as_bool-eq-some}

abbrev holds : {A : Type 0} → (A → Bool) → Option A → Bool
holds test none = false
holds test (some a) = test a

holds-some :
    {A : Type 0} (test : A → Bool) (o : Option A)
    → holds test o ≡ true
    → (a : A) × (o ≡ some a) × (test a ≡ true)
holds-some test none h = cc
holds-some test (some a) h = (a, refl, h)

same_bool-eq : (a b : Bool) → same_bool a b ≡ true → a ≡ b
same_bool-eq true true h = refl
same_bool-eq true false h = sym h
same_bool-eq false true h = h
same_bool-eq false false h = refl

abbrev is_null : Value → Bool
is_null null = true
is_null _ = false

is_null-eq : (w : Value) → is_null w ≡ true → null ≡ w
is_null-eq (obj x) h = cc
is_null-eq (arr x) h = cc
is_null-eq (str x) h = cc
is_null-eq (int x) h = cc
is_null-eq (float x) h = cc
is_null-eq (bool x) h = cc
is_null-eq null h = refl

-- A test that two documents are the same, which recognises those without lists and floats.
unfoldable mutual
  unfolding as_dict as_text as_int as_bool

  same_value : Value → Value → Bool
  same_value (obj fs) w = holds (same_fields fs) (as_dict w)
  same_value (arr vs) w = false
  same_value (str s) w = holds (str_eq s) (as_text w)
  same_value (int n) w = holds (int_eq n) (as_int w)
  same_value (float t) w = false
  same_value (bool b) w = holds (same_bool b) (as_bool w)
  same_value null w = is_null w

  same_fields : Fields → Fields → Bool
  same_fields no_fields no_fields = true
  same_fields no_fields (field j w gs) = false
  same_fields (field k v fs) no_fields = false
  same_fields (field k v fs) (field j w gs) = str_eq k j && same_value v w && same_fields fs gs

mutual
  unfolding same_value same_fields

  same_value-eq : (v w : Value) → same_value v w ≡ true → v ≡ w
  same_value-eq (obj fs) w h =
      let (gs, read, same) = holds-some (same_fields fs) (as_dict w) h in
      ap obj (same_fields-eq fs gs same) ∙ sym (as_dict-eq-some w gs read)
  same_value-eq (arr vs) w h = cc
  same_value-eq (str s) w h =
      let (t, read, same) = holds-some (str_eq s) (as_text w) h in
      ap str ((eq_iff s t).0 same) ∙ sym (as_text-eq-some w t read)
  same_value-eq (int n) w h =
      let (m, read, same) = holds-some (int_eq n) (as_int w) h in
      ap int ((int_eq_iff n m).0 same) ∙ sym (as_int-eq-some w m read)
  same_value-eq (float t) w h = cc
  same_value-eq (bool b) w h =
      let (c, read, same) = holds-some (same_bool b) (as_bool w) h in
      ap bool (same_bool-eq b c same) ∙ sym (as_bool-eq-some w c read)
  same_value-eq null w h = is_null-eq w h

  same_fields-eq : (fs gs : Fields) → same_fields fs gs ≡ true → fs ≡ gs
  same_fields-eq no_fields no_fields h = refl
  same_fields-eq no_fields (field j w gs) h = cc
  same_fields-eq (field k v fs) no_fields h = cc
  same_fields-eq (field k v fs) (field j w gs) h =
      let (front, rest) = both (str_eq k j && same_value v w) (same_fields fs gs) h in
      let (key, value) = both (str_eq k j) (same_value v w) front in
      λ i. field ((eq_iff k j).0 key i) (same_value-eq v w value i) (same_fields-eq fs gs rest i)

-- It writes `message` as no bytes, and reads every text as that message.
unfoldable pub known : Value → Json
unfolding same_value sorted_value
known message = record {
  loads = λ bs. some (sorted_value message);
  dumps = λ v. if same_value v message then some [] else none;
}

pub known-IsJson : (message : Value) → IsJson (known message)
unfolding known
known-IsJson message = record {
  loads_dumps =
      λ v bs h. ap (λ w. some (sorted_value w)) (sym (same_value-eq v message (written v bs h)));
}
  where
    written :
        (v : Value) (bs : List ℕ)
        → (if same_value v message then some [] else none) ≡ some bs
        → same_value v message ≡ true
    written v bs h = elim (Bool-cases (same_value v message)) [
      | inl e ↦ e
      | inr e ↦ absurd (none-ne-some (rw e at h))
    ]

-- The same with two documents: it writes `first` as no bytes and `second` as one, and reads no bytes as
-- `first` and any others as `second`.
unfoldable pub known_two : Value → Value → Json
unfolding same_value sorted_value
known_two first second = record {
  loads = λ bs. some (sorted_value (elim bs [ [] ↦ first | b ∷ rest ↦ second ]));
  dumps = λ v.
      if same_value v first then some [] else if same_value v second then some (1 ∷ []) else none;
}

pub known_two-IsJson : (first second : Value) → IsJson (known_two first second)
unfolding known_two
known_two-IsJson first second = record { loads_dumps = read }
  where
    read :
        (v : Value) (bs : List ℕ)
        → (if same_value v first
            then some []
            else if same_value v second
            then some (1 ∷ [])
            else none)
          ≡ some bs
        → some (sorted_value (elim bs [ [] ↦ first | b ∷ rest ↦ second ])) ≡ some (sorted_value v)
    read v bs h = elim (Bool-cases (same_value v first)) [
      | inl e ↦ of_first (rw e at h) e
      | inr e ↦ elim (Bool-cases (same_value v second)) [
        | inl k ↦ of_second (rw (e, k) at h) k
        | inr k ↦ absurd (none-ne-some (rw (e, k) at h))
      ]
    ]
      where
        of_first :
            ◌≡◌ {A = Option (List ℕ)} (some []) (some bs)
            → same_value v first ≡ true
            → some (sorted_value (elim bs [ [] ↦ first | b ∷ rest ↦ second ]))
              ≡ some (sorted_value v)
        of_first h e = let same : bs ≡ [] = cc in rw (same, same_value-eq v first e) refl

        of_second :
            ◌≡◌ {A = Option (List ℕ)} (some (1 ∷ [])) (some bs)
            → same_value v second ≡ true
            → some (sorted_value (elim bs [ [] ↦ first | b ∷ rest ↦ second ]))
              ≡ some (sorted_value v)
        of_second h e = let same : bs ≡ 1 ∷ [] = cc in rw (same, same_value-eq v second e) refl

-- ===== src/Ipc/Dispatch/KeySets.antt =====
-- What the checks of the keys of a payload in src/devlegate/ipc_server.py say of it.
use devlegate.Prelude.{
  true-ne-false, ◌≡◌, ◌↔◌, inl, inr, refl, ap, ◌∙◌, String, Bool, true, false, ◌&&◌, ◌||◌,
  Bool-cases, both, List, [], ◌∷◌, ◌++◌, arith, contains, contains-cons_cases, contains-cons_self,
  contains-subset, subset, subset_intro, same_set,
}
use devlegate.Values.{Fields, keys}

abbrev pub Within : List String → List String → Type 0
Within l m = (k : String) → contains k l ≡ true → contains k m ≡ true

-- Every required key is there, and no key that is neither required nor optional.
abbrev pub HasKeys : Fields → List String → List String → Type 0
HasKeys fs required optional = Within required (keys fs) × Within (keys fs) (optional ++ required)

Within-drop :
    (o : String) (l m : List String) → Within l (o ∷ m) → contains o l ≡ false → Within l m
Within-drop o l m w absent k h = elim (contains-cons_cases k o m (w k h)) [
  | inl same ↦ absurd (true-ne-false h (ap (λ q. contains q l) same ∙ absent))
  | inr there ↦ there
]

Within-both : (l m n : List String) → Within l m → Within m n → Within l n
Within-both l m n a b k h = b k (a k h)

same_set-intro : (l m : List String) → Within l m → Within m l → same_set l m ≡ true
unfolding same_set
same_set-intro l m a b = rw (subset_intro l m a, subset_intro m l b) refl

same_set-Within : (l m : List String) → same_set l m ≡ true → Within l m × Within m l
unfolding same_set
same_set-Within l m h =
    let (a, b) = both (subset l m) (subset m l) h in
    (λ k. contains-subset k l m a, λ k. contains-subset k m l b)

Within-nil : (l : List String) → Within [] l
unfolding contains
Within-nil l k h = cc

Within-cons : (x : String) (l m : List String) → contains x m ≡ true → Within l m → Within (x ∷ l) m
Within-cons x l m there w k h = elim (contains-cons_cases k x l h) [
  | inl same ↦ ap (λ q. contains q m) same ∙ there
  | inr h' ↦ w k h'
]

module _ (fs : Fields) where
  abbrev ks : List String
  ks = keys fs

  pub exact_iff : (l : List String) → (same_set ks l ≡ true) ↔ HasKeys fs l []
  exact_iff l =
      (λ h. let (a, b) = same_set-Within ks l h in (b, a), λ h. same_set-intro ks l h.1 h.0)

  pub force_iff : (subset ks ("force" ∷ []) ≡ true) ↔ HasKeys fs [] ("force" ∷ [])
  force_iff = (
    λ h. (Within-nil ks, λ k. contains-subset k ks ("force" ∷ []) h),
    λ h. subset_intro ks ("force" ∷ []) h.1,
  )

  -- One key, and another that may be there.
  module _ (t o : String) where
    swapped : Within (t ∷ o ∷ []) (o ∷ t ∷ [])
    unfolding contains
    swapped k h = ground arith

    swapped_back : Within (o ∷ t ∷ []) (t ∷ o ∷ [])
    unfolding contains
    swapped_back k h = ground arith

    later : Within (t ∷ []) (o ∷ t ∷ [])
    unfolding contains
    later k h = ground arith

    first : Within (t ∷ []) (t ∷ o ∷ [])
    unfolding contains
    first k h = ground arith

    single : contains t ks ≡ true → Within (t ∷ []) ks
    single h = Within-cons t [] ks h (Within-nil ks)

    t_there : Within (t ∷ []) ks → contains t ks ≡ true
    t_there w = w t (contains-cons_self t [])

    pub one_optional_iff :
        ((subset ks (t ∷ o ∷ []) && contains t ks) ≡ true) ↔ HasKeys fs (t ∷ []) (o ∷ [])
    one_optional_iff = (
      λ h.
          let (a, b) = both (subset ks (t ∷ o ∷ [])) (contains t ks) h in
          (
            single b,
            Within-both ks (t ∷ o ∷ []) (o ∷ t ∷ []) (λ k. contains-subset k ks (t ∷ o ∷ []) a)
                swapped,
          ),
      λ h.
          rw
            (
              subset_intro ks (t ∷ o ∷ [])
                  (Within-both ks (o ∷ t ∷ []) (t ∷ o ∷ []) h.1 swapped_back),
              t_there h.0,
            )
            refl,
    )

    pub with_or_without_iff :
        ((same_set ks (t ∷ []) || same_set ks (t ∷ o ∷ [])) ≡ true) ↔ HasKeys fs (t ∷ []) (o ∷ [])
    with_or_without_iff = (there, back)
      where
        there :
            (same_set ks (t ∷ []) || same_set ks (t ∷ o ∷ [])) ≡ true → HasKeys fs (t ∷ []) (o ∷ [])
        there h = elim (Bool-cases (same_set ks (t ∷ []))) [
          | inl e ↦
              let (a, b) = same_set-Within ks (t ∷ []) e in
              (b, Within-both ks (t ∷ []) (o ∷ t ∷ []) a later)
          | inr e ↦
              let (a, b) = same_set-Within ks (t ∷ o ∷ []) (rw e at h) in
              (
                Within-both (t ∷ []) (t ∷ o ∷ []) ks first b,
                Within-both ks (t ∷ o ∷ []) (o ∷ t ∷ []) a swapped,
              )
        ]

        back :
            HasKeys fs (t ∷ []) (o ∷ []) → (same_set ks (t ∷ []) || same_set ks (t ∷ o ∷ [])) ≡ true
        back h = elim (Bool-cases (contains o ks)) [
          | inl e ↦
              let whole =
                same_set-intro ks (t ∷ o ∷ [])
                  (Within-both ks (o ∷ t ∷ []) (t ∷ o ∷ []) h.1 swapped_back)
                  (Within-cons t (o ∷ []) ks (t_there h.0)
                    (Within-cons o [] ks e (Within-nil ks))) in
              ground (arith, whole)
          | inr e ↦
              let whole = same_set-intro ks (t ∷ []) (Within-drop o ks (t ∷ []) h.1 e) h.0 in
              ground (arith, whole)
        ]

  -- One key, and two others that may be there.
  module _ (t a b : String) where
    abbrev alternatives : Bool
    alternatives =
        same_set ks (t ∷ [])
        || same_set ks (t ∷ a ∷ [])
        || same_set ks (t ∷ b ∷ [])
        || same_set ks (t ∷ a ∷ b ∷ [])

    spread : Within (a ∷ b ∷ t ∷ []) (t ∷ a ∷ b ∷ [])
    unfolding contains
    spread k h = ground arith

    gathered : Within (t ∷ a ∷ b ∷ []) (a ∷ b ∷ t ∷ [])
    unfolding contains
    gathered k h = ground arith

    without_second : Within (t ∷ a ∷ []) (a ∷ b ∷ t ∷ [])
    unfolding contains
    without_second k h = ground arith

    without_first : Within (t ∷ b ∷ []) (a ∷ b ∷ t ∷ [])
    unfolding contains
    without_first k h = ground arith

    alone : Within (t ∷ []) (a ∷ b ∷ t ∷ [])
    unfolding contains
    alone k h = ground arith

    -- Keys that are one of the lists.
    of_list :
        (l : List String)
        → contains t l ≡ true
        → Within l (a ∷ b ∷ t ∷ [])
        → same_set ks l ≡ true
        → HasKeys fs (t ∷ []) (a ∷ b ∷ [])
    of_list l head w h =
        let (v, u) = same_set-Within ks l h in
        (Within-cons t [] ks (u t head) (Within-nil ks), Within-both ks l (a ∷ b ∷ t ∷ []) v w)

    alternatives-HasKeys : alternatives ≡ true → HasKeys fs (t ∷ []) (a ∷ b ∷ [])
    alternatives-HasKeys h = elim (Bool-cases (same_set ks (t ∷ []))) [
      | inl e ↦ of_list (t ∷ []) (contains-cons_self t []) alone e
      | inr e ↦ elim (Bool-cases (same_set ks (t ∷ a ∷ []))) [
        | inl e₁ ↦ of_list (t ∷ a ∷ []) (contains-cons_self t (a ∷ [])) without_second e₁
        | inr e₁ ↦ elim (Bool-cases (same_set ks (t ∷ b ∷ []))) [
          | inl e₂ ↦ of_list (t ∷ b ∷ []) (contains-cons_self t (b ∷ [])) without_first e₂
          | inr e₂ ↦
              of_list (t ∷ a ∷ b ∷ []) (contains-cons_self t (a ∷ b ∷ [])) gathered
                (rw (e, e₁, e₂) at h)
        ]
      ]
    ]

    HasKeys-alternatives : HasKeys fs (t ∷ []) (a ∷ b ∷ []) → alternatives ≡ true
    unfolding contains
    HasKeys-alternatives (head, only) =
        let there = head t (contains-cons_self t []) in
        let w = Within-both ks (a ∷ b ∷ t ∷ []) (t ∷ a ∷ b ∷ []) only spread in
        elim (Bool-cases (contains a ks)) [
          | inl e ↦ elim (Bool-cases (contains b ks)) [
            | inl k ↦
                let whole = same_set-intro ks (t ∷ a ∷ b ∷ []) w (
                  Within-cons t (a ∷ b ∷ []) ks there
                    (Within-cons a (b ∷ []) ks e (Within-cons b [] ks k (Within-nil ks)))) in
                ground (arith, whole)
            | inr k ↦
                let whole =
                  same_set-intro ks (t ∷ a ∷ [])
                    (Within-drop b ks (t ∷ a ∷ [])
                      (Within-both ks (a ∷ b ∷ t ∷ []) (b ∷ t ∷ a ∷ []) only last_first) k)
                    (Within-cons t (a ∷ []) ks there (Within-cons a [] ks e (Within-nil ks))) in
                ground (arith, whole)
          ]
          | inr e ↦
              let rest = Within-drop a ks (b ∷ t ∷ []) only e in
              elim (Bool-cases (contains b ks)) [
                | inl k ↦
                    let whole =
                      same_set-intro ks (t ∷ b ∷ [])
                        (Within-both ks (b ∷ t ∷ []) (t ∷ b ∷ []) rest turned)
                        (Within-cons t (b ∷ []) ks there (Within-cons b [] ks k (Within-nil ks))) in
                    ground (arith, whole)
                | inr k ↦
                    let whole =
                      same_set-intro ks (t ∷ []) (Within-drop b ks (t ∷ []) rest k) head in
                    ground (arith, whole)
              ]
        ]
      where
        last_first : Within (a ∷ b ∷ t ∷ []) (b ∷ t ∷ a ∷ [])
        last_first k h = ground arith

        turned : Within (b ∷ t ∷ []) (t ∷ b ∷ [])
        turned k h = ground arith

    pub two_optional_iff : (alternatives ≡ true) ↔ HasKeys fs (t ∷ []) (a ∷ b ∷ [])
    two_optional_iff = (alternatives-HasKeys, HasKeys-alternatives)

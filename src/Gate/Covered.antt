-- ===== src/Gate/Covered.antt =====
-- `uncovered` returns nothing exactly if every observed request has a stream that is long enough.
use street_fighter_alpha_2_n.Base.{
  ℕ, ◌≤◌, ◌≡◌, ◌≢◌, ◌↔◌, ◌⊎◌, ◌∙◌, sym, refl, false, Option, none, some, List, [], ◌∷◌, In,
  In-sorted, All, All-at, All-In, Chain, Dict, put, put_self, put_ne, empty, sorted, ◌==◌, ==_iff,
  Bool-cases, inl, inr, arith,
}
use street_fighter_alpha_2_n.Gate.{Entry, dict_of, falls_short, missing_from, by_pair, uncovered}
use street_fighter_alpha_2_n.Gate.Entries.{IsOther}

dict_of_kept :
    (es : List Entry) (have : Dict ℕ) (a : ℕ) → All (λ e. a ≢ e.0) es → dict_of es have a ≡ have a
unfolding dict_of
dict_of_kept [] have a h = refl
dict_of_kept ((source, n) ∷ es) have a h =
    dict_of_kept es (put have source n) a h.1 ∙ put_ne have source a n (λ e. h.0 (sym e))

-- With distinct sources the dict holds each entry's length.
dict_of_there :
    (es : List Entry) (have : Dict ℕ) (a s : ℕ)
    → Chain IsOther es
    → In (a, s) es
    → dict_of es have a ≡ some s
unfolding dict_of
dict_of_there [] have a s c i = absurd i
dict_of_there ((source, n) ∷ es) have a s c (inl e) =
    let here : a ≡ source = cc e in
    let size : s ≡ n = cc e in
    rw (here, size) (dict_of_kept es (put have source n) source c.0 ∙ put_self have source n)
dict_of_there ((source, n) ∷ es) have a s c (inr i) = dict_of_there es (put have source n) a s c.1 i

dict_of_only :
    (es : List Entry) (have : Dict ℕ) (a s : ℕ)
    → dict_of es have a ≡ some s
    → In (a, s) es ⊎ (have a ≡ some s)
unfolding dict_of
dict_of_only [] have a s h = inr h
dict_of_only ((source, n) ∷ es) have a s h = elim (dict_of_only es (put have source n) a s h) [
  | inl i ↦ inl (inr i)
  | inr e ↦ elim (Bool-cases (source == a)) [
    | inl q ↦
        let same : source ≡ a = (==_iff source a).0 q in
        let stored : put have source n a ≡ some n = rw (sym same) (put_self have source n) in
        let size : n ≡ s = cc (stored, e) in inl (inl (rw (same, size) refl))
    | inr q ↦ inr (sym (put_ne have source a n (λ p. absurd (ground (arith, q, p)))) ∙ e)
  ]
]

-- a stream for the request that is at least as long
abbrev pub IsCovered : List Entry → Entry → Type 0
IsCovered es w = (s : ℕ) × In (w.0, s) es × (w.1 ≤ s)

abbrev HasLength : Dict ℕ → Entry → Type 0
HasLength have w = (s : ℕ) × (have w.0 ≡ some s) × (w.1 ≤ s)

falls_short_iff :
    (o : Option ℕ) (n : ℕ) → (falls_short o n ≡ false) ↔ ((s : ℕ) × (o ≡ some s) × (n ≤ s))
unfolding falls_short
falls_short_iff none n = (λ h. absurd (cc), λ h. absurd (cc (h.1)))
falls_short_iff (some m) n = (λ h. (m, refl, ground arith), λ h. within h)
  where
    within : ((s : ℕ) × (some m ≡ some s) × (n ≤ s)) → falls_short (some m) n ≡ false
    within (s, e, le) = let same : m ≡ s = cc e in ground (arith, same, le)

missing_from_iff :
    (ws : List Entry) (have : Dict ℕ) → (missing_from ws have ≡ []) ↔ All (HasLength have) ws
unfolding missing_from
missing_from_iff [] have = (λ h. tt, λ h. refl)
missing_from_iff ((a, n) ∷ ws) have = elim (Bool-cases (falls_short (have a) n)) [
  | inl e ↦ rw e (λ h. absurd (cc), λ h. absurd (cc (e, (falls_short_iff (have a) n).1 h.0)))
  | inr e ↦ rw e (
    λ h. ((falls_short_iff (have a) n).0 e, (missing_from_iff ws have).0 h),
    λ h. (missing_from_iff ws have).1 h.1,
  )
]

pub uncovered_iff :
    (es wanted : List Entry)
    → Chain IsOther es
    → (uncovered es wanted ≡ []) ↔ All (IsCovered es) wanted
unfolding uncovered
uncovered_iff es wanted c = (
  λ h. All-In (IsCovered es) wanted λ w i. forth w (
      All-at (HasLength (dict_of es empty)) (sorted by_pair wanted) w
        ((missing_from_iff (sorted by_pair wanted) (dict_of es empty)).0 h)
        ((In-sorted by_pair w wanted).1 i)),
  λ h. (missing_from_iff (sorted by_pair wanted) (dict_of es empty)).1 (
      All-In (HasLength (dict_of es empty)) (sorted by_pair wanted)
        λ w i. back w (All-at (IsCovered es) wanted w h ((In-sorted by_pair w wanted).0 i))),
)
  where
    forth : (w : Entry) → HasLength (dict_of es empty) w → IsCovered es w
    forth w (s, e, le) = elim (dict_of_only es empty w.0 s e) [
      | inl i ↦ (s, i, le)
      | inr q ↦ absurd (cc q)
    ]

    back : (w : Entry) → IsCovered es w → HasLength (dict_of es empty) w
    back w (s, i, le) = (s, dict_of_there es empty w.0 s c i, le)

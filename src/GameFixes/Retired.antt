-- ===== src/GameFixes/Retired.antt =====
-- The calls of gamefixes.py that become returns: which bytes `retire_calls` changes.
use native.Mathlib.Decide.{ℕ_discrete}
use street_fighter_alpha_2_n.Base.{
  ℕ, ◌<◌, ◌≡◌, ◌≢◌, ◌⊎◌, inl, inr, refl, ap, ◌∙◌, sym, true, not, holds_iff, some, List, [], ◌∷◌,
  In, length, get_elem?, get_elem?-set_self, get_elem?-set_ne, set, length-set, holds, find_all,
  find_all_lem, occurrences, occurrence_within, Bool-cases, ok, ok_injective, bind_ok, then_ok,
  refuse, arith,
}
use street_fighter_alpha_2_n.GameFixes.{
  call_run, long_to_file, is_empty, not_bare, empty_call_sites, retire, retire_calls,
}

-- From one cartridge to another of its length: 0x60 at the offsets, and all other bytes as they were.
pub record IsRetired (sites rom out : List ℕ) : Type 0 where
  pub sized : length out ≡ length rom
  pub returns : (j : ℕ) → In j sites → get_elem? out j ≡ some 0x60
  pub rest : (j : ℕ) → ¬ In j sites → get_elem? out j ≡ get_elem? rom j

-- the bare return of a routine that does nothing
abbrev pub IsBare : List ℕ → ℕ → Type 0
IsBare rom target = get_elem? rom (long_to_file target) ≡ some 0x6B

-- Routine after routine: no call stands in the cartridge, or the routine is bare; and every call has
-- become a return.
abbrev pub Retires : List ℕ → List ℕ → List ℕ → Type 0
Retires [] rom out = out ≡ rom
Retires (target ∷ calls) rom out =
    (mid : List ℕ) × ((occurrences rom (call_run target) 0 ≡ []) ⊎ IsBare rom target)
    × IsRetired (occurrences rom (call_run target) 0) rom mid
    × Retires calls mid out

In-cases : (j : ℕ) (sites : List ℕ) → In j sites ⊎ (¬ In j sites)
In-cases j [] = inr (λ h. h)
In-cases j (at ∷ sites) = elim (ℕ_discrete j at) [
  | yes e ↦ inl (inl e)
  | no ne ↦ elim (In-cases j sites) [
    | inl h ↦ inl (inr h)
    | inr h ↦ inr (λ k. elim k [ inl e ↦ ne e | inr i ↦ h i ])
  ]
]

-- Sites in the cartridge become returns.
retire-IsRetired :
    (sites rom : List ℕ)
    → ((j : ℕ) → In j sites → j < length rom)
    → IsRetired sites rom (retire sites rom)
unfolding retire
retire-IsRetired [] rom within = record {
  sized = refl;
  returns = λ j h. absurd h;
  rest = λ j h. refl;
}
retire-IsRetired (at ∷ sites) rom within =
    let later =
      retire-IsRetired sites (set rom at 0x60)
        (λ j h. omega (arith, within j (inr h), length-set rom at 0x60)) in
    record {
      sized = later.sized ∙ length-set rom at 0x60;
      returns = λ j h. elim (In-cases j sites) [
        | inl again ↦ later.returns j again
        | inr last ↦ elim h [
          | inr again ↦ later.returns j again
          | inl e ↦
              later.rest j last
              ∙ ap (get_elem? (set rom at 0x60)) e
              ∙ get_elem?-set_self rom at 0x60 (within at (inl refl))
        ]
      ];
      rest = λ j other.
          later.rest j (λ h. other (inr h))
          ∙ get_elem?-set_ne rom at j 0x60 (λ e. other (inl (sym e)));
    }

call_there : (target : ℕ) → call_run target ≢ []
unfolding call_run
call_there target e = cc e

is_empty_nil : (xs : List ℕ) → is_empty xs ≡ true → xs ≡ []
unfolding is_empty
is_empty_nil [] h = refl
is_empty_nil (x ∷ xs) h = absurd (cc h)

empty_call_sites_ok :
    (rom : List ℕ) (target : ℕ) (sites : List ℕ)
    → empty_call_sites rom target ≡ ok sites
    → (occurrences rom (call_run target) 0 ≡ sites)
      × ((occurrences rom (call_run target) 0 ≡ []) ⊎ IsBare rom target)
unfolding empty_call_sites
empty_call_sites_ok rom target sites h =
    let all = find_all_lem rom (call_run target) (call_there target) in
    elim (Bool-cases (is_empty (find_all rom (call_run target)))) [
      | inl e ↦
          let same : find_all rom (call_run target) ≡ sites =
            ok_injective _ sites (rw (empty_call_sites, e) at h) in
          (sym all ∙ same, inl (sym all ∙ is_empty_nil (find_all rom (call_run target)) e))
      | inr e ↦
          let (bare, rest) =
            then_ok (refuse (not (holds (get_elem? rom (long_to_file target)) 0x6B)) not_bare)
              (ok (find_all rom (call_run target))) sites (rw (empty_call_sites, e) at h) in
          let same : find_all rom (call_run target) ≡ sites = ok_injective _ sites rest in
          (
            sym all ∙ same,
            inr (elim (Bool-cases (holds (get_elem? rom (long_to_file target)) 0x6B)) [
              | inl f ↦ (holds_iff (get_elem? rom (long_to_file target)) 0x6B).0 f
              | inr f ↦ absurd (cc (rw f at bare))
            ]),
          )
    ]

sites_within :
    (rom : List ℕ) (target : ℕ) (sites : List ℕ)
    → occurrences rom (call_run target) 0 ≡ sites
    → (j : ℕ) → In j sites
    → j < length rom
sites_within rom target sites stand j i =
    let there : In j (occurrences rom (call_run target) 0) = rw stand i in
    let ends = occurrence_within rom (call_run target) j (call_there target) there in
    let long : length (call_run target) ≡ 5 = unfold call_run in refl in omega (arith, ends, long)

pub retire_calls_lem :
    (calls rom out : List ℕ) → retire_calls calls rom ≡ ok out → Retires calls rom out
unfolding retire_calls
retire_calls_lem [] rom out h = let same : rom ≡ out = cc h in sym same
retire_calls_lem (target ∷ calls) rom out h =
    let (sites, found, more) =
      bind_ok (empty_call_sites rom target) (λ s. retire_calls calls (retire s rom)) out h in
    let (stand, bare) = empty_call_sites_ok rom target sites found in
    (
      retire sites rom,
      bare,
      rw stand (retire-IsRetired sites rom (sites_within rom target sites stand)),
      retire_calls_lem calls (retire sites rom) out more,
    )

-- ===== src/GameFixes/Applied.antt =====
-- What `apply` does to a cartridge, step by step.
use street_fighter_alpha_2_n.Base.{
  ℕ, ◌+◌, ◌≤◌, ◌<◌, ◌≡◌, ◌≢◌, ◌⊎◌, inl, inr, refl, sym, ap, ◌∙◌, not, List, [], ◌∷◌, In, length,
  splice, length-splice, occurrences, occurrence_within, All, All-at, Bool-cases, Option-cases, ok,
  bind_ok, hex, arith,
}
use street_fighter_alpha_2_n.SpcFast.{write_checksum, checksum_field}
use street_fighter_alpha_2_n.SpcFast.Checksum.{length-write_checksum}
use street_fighter_alpha_2_n.GameFixes.Sites.{Fix, fixes, empty_calls}
use street_fighter_alpha_2_n.GameFixes.{
  State, call_run, locate, is_applied, is_absent, all_states, patch_fixes, retire_calls, survey,
  apply_found, apply,
}
use street_fighter_alpha_2_n.GameFixes.Located.{once_located}
use street_fighter_alpha_2_n.GameFixes.Retired.{IsBare, IsRetired, Retires, retire_calls_lem}

-- From one cartridge to another: a fix at the one place of its stock run, or the calls of one empty
-- routine that has none or is bare.
pub data Steps : List ℕ → List ℕ → Type 0 where
  done : {rom : List ℕ} → Steps rom rom
  fixed :
      {rom out : List ℕ} (fix : Fix) (at : ℕ)
      → In fix fixes
      → occurrences rom fix.stock 0 ≡ at ∷ []
      → Steps (splice rom at fix.patched) out
      → Steps rom out
  retired :
      {rom mid out : List ℕ} (target : ℕ)
      → In target empty_calls
      → (occurrences rom (call_run target) 0 ≡ []) ⊎ IsBare rom target
      → IsRetired (occurrences rom (call_run target) 0) rom mid
      → Steps mid out
      → Steps rom out

-- Every stock run is as long as its patched run, and not empty.
abbrev IsEven : Fix → Type 0
IsEven fix = (length fix.stock ≡ length fix.patched) × (0 < length fix.stock)

fixes-IsEven : All IsEven fixes
unfolding fixes hex
fixes-IsEven = ground arith

stock_there : (fix : Fix) → In fix fixes → fix.stock ≢ []
stock_there fix member e =
    absurd (omega (arith, ap length e, (All-at IsEven fixes fix fixes-IsEven member).1))

-- A step keeps the length.
pub length-Steps : (rom out : List ℕ) → Steps rom out → length out ≡ length rom
length-Steps rom out done = refl
length-Steps rom out (fixed fix at member stands rest) =
    let even = All-at IsEven fixes fix fixes-IsEven member in
    let within =
      occurrence_within rom fix.stock at (stock_there fix member) (rw stands (inl refl)) in
    length-Steps _ out rest ∙ length-splice rom at fix.patched (omega (arith, within, even.0))
length-Steps rom out (retired target member bare turned rest) =
    length-Steps _ out rest ∙ turned.sized

Retires-Steps :
    (calls rom out : List ℕ)
    → ((t : ℕ) → In t calls → In t empty_calls)
    → Retires calls rom out
    → Steps rom out
Retires-Steps [] rom out sub same = rw same done
Retires-Steps (target ∷ calls) rom out sub (mid, bare, turned, rest) =
    retired target (sub target (inl refl)) bare turned
      (Retires-Steps calls mid out (λ t i. sub t (inr i)) rest)

patch_fixes-Steps :
    (more : List Fix) (found : List State) (rom mid out : List ℕ)
    → ((f : Fix) → In f more → In f fixes)
    → patch_fixes more found rom ≡ ok mid
    → Steps mid out
    → Steps rom out
unfolding patch_fixes
patch_fixes-Steps [] found rom mid out sub h s = let same : rom ≡ mid = cc h in rw same s
patch_fixes-Steps (fix ∷ more) [] rom mid out sub h s = absurd (cc h)
patch_fixes-Steps (fix ∷ more) (state ∷ found) rom mid out sub h s =
    elim (Bool-cases (is_applied state)) [
      | inr e ↦
          patch_fixes-Steps more found rom mid out (λ f i. sub f (inr i)) (rw (patch_fixes, e) at h)
            s
      | inl e ↦
          let (at, found_at, rest) =
            bind_ok (locate rom fix.stock) _ mid (rw (patch_fixes, e) at h) in
          elim (Option-cases at) [
            | inl gone ↦ absurd (cc (rw gone at rest))
            | inr (first, there) ↦
                fixed fix first (sub fix (inl refl))
                  (once_located rom fix.stock first (stock_there fix (sub fix (inl refl)))
                    (rw there at found_at))
                  (patch_fixes-Steps more found (splice rom first fix.patched) mid out
                    (λ f i. sub f (inr i)) (rw there at rest) s)
          ]
    ]

pub apply-Steps :
    (rom out : List ℕ)
    → apply rom ≡ ok out
    → (out ≡ rom)
      ⊎ ((last : List ℕ) × Steps rom last
          × (length last ≡ length rom)
          × (out ≡ write_checksum last))
unfolding apply apply_found
apply-Steps rom out h =
    let (found, surveyed, rest) = bind_ok (survey rom) _ out h in
    elim (Bool-cases (all_states is_absent found)) [
      | inl none_there ↦ absurd (cc (rw none_there at rest))
      | inr some_there ↦ elim (Bool-cases (all_states (λ state. not (is_applied state)) found)) [
        | inl nothing ↦
            let same : rom ≡ out = cc (rw (some_there, nothing) at rest) in inl (sym same)
        | inr something ↦
            let (mid, patched, more) =
              bind_ok (patch_fixes fixes found rom) _ out (rw (some_there, something) at rest) in
            let (last, retired_all, stamped) = bind_ok (retire_calls empty_calls mid) _ out more in
            let same : write_checksum last ≡ out = cc stamped in
            let steps =
              patch_fixes-Steps fixes found rom mid last (λ f i. i) patched
                (Retires-Steps empty_calls mid last (λ t i. i)
                  (retire_calls_lem empty_calls mid last retired_all)) in
            inr (last, steps, length-Steps rom last steps, sym same)
      ]
    ]

-- What `apply` returns for a cartridge that reaches past the checksum field has its length.
pub length-apply :
    (rom out : List ℕ)
    → checksum_field + 4 ≤ length rom
    → apply rom ≡ ok out
    → length out ≡ length rom
length-apply rom out reaches h = elim (apply-Steps rom out h) [
  | inl same ↦ rw same refl
  | inr (last, steps, kept, stamped) ↦
      rw stamped (length-write_checksum last (omega (arith, kept, reaches)) ∙ kept)
]

-- ===== src/Tables/Probe.antt =====
-- The walk that `_first_free` and `_scan` share: slot after slot, round the table, to the first
-- that passes a test.
use street_fighter_alpha_2_n.Base.{
  ℕ, zero, suc, ◌+◌, ◌<◌, ◌≡◌, refl, ap, ◌∙◌, Bool, true, false, Option, none, some, holds, low16,
  if◌then◌else◌, Result, ok, err, Dict, inl, inr, Bool-cases, arith,
}
use street_fighter_alpha_2_n.Tables.{
  Error, key_table_full, slots, next_slot, first_free_from, scan_from,
}

-- the slot `d` places after `s`
abbrev pub after : ℕ → ℕ → ℕ
after s d = low16 (s + d)

pub probe : ℕ → (ℕ → Bool) → ℕ → Option ℕ
probe zero test slot = none
probe (suc rounds) test slot =
    let later = probe rounds test (next_slot slot) in if test slot then some slot else later

-- the first slot from `s` on that passes, `d` places away
pub record Hits (test : ℕ → Bool) (s d : ℕ) : Type 0 where
  pub here : test (after s d) ≡ true
  pub before : (e : ℕ) → e < d → test (after s e) ≡ false

pub after_next : (s d : ℕ) → after (next_slot s) d ≡ after s (suc d)
after_next s d = omega arith

pub after_zero : (s : ℕ) → s < slots → after s 0 ≡ s
after_zero s h = omega arith

module _ (test : ℕ → Bool) where
  pub before_next :
      (s d : ℕ)
      → s < slots
      → test s ≡ false
      → ((e : ℕ) → e < d → test (after (next_slot s) e) ≡ false)
      → (e : ℕ) → e < suc d
      → test (after s e) ≡ false
  before_next s d hs miss h zero he = rw (after_zero s hs) miss
  before_next s d hs miss h (suc e) he = rw (← after_next s e) (h e (omega arith))

  -- A probe that returns a slot returns the first that passes.
  pub probe_sound :
      (rounds s : ℕ) {p : ℕ}
      → s < slots
      → probe rounds test s ≡ some p
      → (d : ℕ) × (d < rounds) × (p ≡ after s d) × Hits test s d
  unfolding probe
  probe_sound zero s hs h = absurd (cc)
  probe_sound (suc rounds) s {p} hs h = elim (Bool-cases (test s)) [
    | inl pass ↦ (
      0,
      omega arith,
      first pass,
      record { here = rw (after_zero s hs) pass; before = λ e he. absurd (omega arith) },
    )
    | inr miss ↦
        let (d, hd, e, hits) = probe_sound rounds (next_slot s) (omega arith) (rw miss at h) in
        (
          suc d,
          omega arith,
          e ∙ after_next s d,
          record {
            here = rw (← after_next s d) hits.here;
            before = before_next s d hs miss hits.before;
          },
        )
  ]
    where
      first : test s ≡ true → p ≡ after s 0
      first pass = rw (after_zero s hs) (cc (h, pass))

  -- A probe returns the first slot that passes, if that is within its rounds.
  pub probe_complete :
      (rounds s d : ℕ)
      → s < slots
      → d < rounds
      → Hits test s d
      → probe rounds test s ≡ some (after s d)
  unfolding probe
  probe_complete zero s d hs hd hits = elim hd [ ]
  probe_complete (suc rounds) s zero hs hd hits =
      rw (after_zero s hs) (rw (rw (after_zero s hs) at hits.here))
  probe_complete (suc rounds) s (suc d) hs hd hits =
      rw (rw (after_zero s hs) at (hits.before 0 (omega arith))) (
        probe_complete rounds (next_slot s) d (omega arith) (omega arith) (record {
          here = rw (after_next s d) hits.here;
          before = λ e he. rw (after_next s e) (hits.before (suc e) (omega arith));
        })
        ∙ ap some (after_next s d))

  -- A probe that returns nothing has seen every slot fail.
  pub probe-none :
      (rounds s : ℕ)
      → s < slots
      → probe rounds test s ≡ none
      → (e : ℕ) → e < rounds
      → test (after s e) ≡ false
  unfolding probe
  probe-none zero s hs h e he = elim he [ ]
  probe-none (suc rounds) s hs h e he = elim (Bool-cases (test s)) [
    | inl pass ↦ absurd (cc (rw pass at h))
    | inr miss ↦
        before_next s rounds hs miss (probe-none rounds (next_slot s) (omega arith) (rw miss at h))
          e he
  ]

abbrev pub is_none : Option ℕ → Bool
is_none none = true
is_none (some a) = false

abbrev pub is_free : Dict ℕ → ℕ → Bool
is_free table slot = is_none (table slot)

abbrev pub found_or_full : Option ℕ → Result Error ℕ
found_or_full none = err key_table_full
found_or_full (some slot) = ok slot

-- `_first_free` probes for a free slot, `_scan` for one that holds the bank.
pub first_free_from-eq-probe :
    (rounds : ℕ) (table : Dict ℕ) (slot : ℕ)
    → first_free_from rounds table slot ≡ found_or_full (probe rounds (is_free table) slot)
unfolding first_free_from probe
first_free_from-eq-probe zero table slot = refl
first_free_from-eq-probe (suc rounds) table slot =
    ground (arith, first_free_from-eq-probe rounds table (next_slot slot))

pub scan_from-eq-probe :
    (rounds : ℕ) (table : Dict ℕ) (bank slot : ℕ)
    → scan_from rounds table bank slot ≡ probe rounds (λ s. holds (table s) bank) slot
unfolding scan_from probe
scan_from-eq-probe zero table bank slot = refl
scan_from-eq-probe (suc rounds) table bank slot =
    ground (arith, scan_from-eq-probe rounds table bank (next_slot slot))

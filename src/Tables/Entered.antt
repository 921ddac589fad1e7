-- ===== src/Tables/Entered.antt =====
-- All entries of the byte tables, and the theorem that the game's search finds every stream.
use street_fighter_alpha_2_n.Base.{
  ℕ, ◌<◌, ◌≡◌, ◌≢◌, inl, inr, refl, ◌∙◌, sym, none, List, [], ◌∷◌, All, Option-cases, ok, bind_ok,
  Dict, put, put_self, put_ne,
}
use street_fighter_alpha_2_n.Tables.{Key, slots, fill}
use street_fighter_alpha_2_n.Tables.Build.{ByteTables, enter, enter_all}
use street_fighter_alpha_2_n.Tables.Lookup.{destination_at, Agrees, enter-IsEntered}

-- Each slot has its destination.
abbrev pub Stand : List ℕ → List ℕ → ByteTables → Type 0
Stand [] destinations t = Unit
Stand (slot ∷ placed) [] t = ⊥
Stand (slot ∷ placed) (d ∷ destinations) t =
    (destination_at t slot ≡ d) × Stand placed destinations t

pub enter_all_lem :
    (keys : List Key) (placed destinations : List ℕ) (t : ByteTables) (table : Dict ℕ)
    (t' : ByteTables) (table' : Dict ℕ)
    → All (λ s. s < slots) placed
    → Agrees t table
    → enter_all keys placed destinations t ≡ ok t'
    → fill keys placed table ≡ ok table'
    → Agrees t' table'
      × Stand placed destinations t'
      × ((j : ℕ) → table j ≢ none → destination_at t' j ≡ destination_at t j)
unfolding enter_all fill
enter_all_lem [] [] [] t table t' table' below a h f =
    let same : t ≡ t' = cc h in
    let same_table : table ≡ table' = cc f in rw (sym same, sym same_table) (a, tt, λ j k. refl)
enter_all_lem [] [] (d ∷ ds) t table t' table' below a h f = absurd (cc h)
enter_all_lem [] (s ∷ ss) ds t table t' table' below a h f = absurd (cc f)
enter_all_lem (k ∷ keys) [] ds t table t' table' below a h f = absurd (cc f)
enter_all_lem (k ∷ keys) (s ∷ ss) [] t table t' table' below a h f = absurd (cc h)
enter_all_lem ((bank, addr) ∷ keys) (slot ∷ placed) (d ∷ ds) t table t' table' (here, below) a h f =
    elim (Option-cases (table slot)) [
      | inr (other, e) ↦ absurd (cc (rw (fill, e) at f))
      | inl e ↦
          let (entered, first, rest) =
            bind_ok (enter bank slot d t) (λ u. enter_all keys placed ds u) t' h in
          let (agrees, stands, others) = enter-IsEntered bank slot d t entered table here a first in
          let (final, all, kept) =
            enter_all_lem keys placed ds entered (put table slot bank) t' table' below agrees rest
              (rw (fill, e) at f) in
          (
            final,
            (kept slot (λ q. absurd (cc (q, put_self table slot bank))) ∙ stands, all),
            λ j taken.
                let apart : slot ≢ j = λ q. taken (rw (sym q) e) in
                kept j (λ q. taken (sym (put_ne table slot j bank apart) ∙ q)) ∙ others j apart,
          )
    ]

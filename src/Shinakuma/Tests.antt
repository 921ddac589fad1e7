-- ===== src/Shinakuma/Tests.antt =====
-- The theorem of shinakuma.py at a cartridge that is the gate alone.
use street_fighter_alpha_2_n.Base.{◌≡◌, occurrences, places}
use street_fighter_alpha_2_n.Shinakuma.{gate, probe, apply}
use street_fighter_alpha_2_n.Shinakuma.Gated.{answer, apply-gate}

apply-gate_example :
    apply gate ≡ answer gate (places (occurrences gate gate 0)) (places (occurrences gate probe 0))
apply-gate_example = apply-gate gate

-- ===== src/Common/Runs.antt =====
-- Runs of a step relation.

-- Any number of steps
pub data Star {ℓ} {S : Type ℓ} (R : S → S → Type ℓ) (s : S) : S → Type ℓ where
  no_step : Star R s s
  one_more : {next last : S} → Star R s next → R next last → Star R s last

pub Star-trans {ℓ} :
    {S : Type ℓ} {R : S → S → Type ℓ} {s next last : S}
    → Star R s next
    → Star R next last
    → Star R s last
Star-trans steps no_step = steps
Star-trans steps (one_more more step) = Star.one_more (Star-trans steps more) step

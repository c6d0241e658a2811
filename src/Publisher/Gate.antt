-- ===== src/Publisher/Gate.antt =====
-- The gate after pushes and probes (fwEDR/internal/publisher/publisher.go).
use dcim_data_reader.Prelude.{
  ℕ, ◌+◌, ◌<◌, ◌≡◌, ◌∙◌, refl, arith, Bool, true, false, some, List, [], ◌∷◌, leb, if◌then◌else◌,
}
use dcim_data_reader.Queue.{Codec, Queue}
use dcim_data_reader.Queue.Bbolt.{Bolt}
use dcim_data_reader.Publisher.{
  PublisherConfig, Publisher, new_publisher, with_defaults, record_result,
}

-- The failures since the last success, `n` of them before the outcomes.
pub streak : ℕ → List Bool → ℕ
streak n [] = n
streak n (true ∷ outcomes) = streak 0 outcomes
streak n (false ∷ outcomes) = streak (n + 1) outcomes

module _ (c : Codec) (db : Bolt) where
  -- The publisher after pushes and probes with the outcomes.
  pub record_all : List Bool → Publisher c db → Publisher c db
  record_all [] p = p
  record_all (outcome ∷ outcomes) p = record_all outcomes (record_result c db outcome p)

  record_result_lem :
      (success : Bool) (p : Publisher c db)
      → 0 < p.cfg.dcs_down_after
      → p.gate ≡ some (leb p.cfg.dcs_down_after p.fail_streak)
      → let p' = record_result c db success p in
        (p'.gate ≡ some (leb p'.cfg.dcs_down_after p'.fail_streak))
        × (p'.cfg ≡ p.cfg)
        × (p'.fail_streak ≡ (if success then 0 else p.fail_streak + 1))
  unfolding record_result
  record_result_lem true p h e = rw e (ground arith, refl, refl)
  record_result_lem false p h e = rw e (ground arith, refl, refl)

  same_gate :
      (outcomes : List Bool) (cfg cfg' : PublisherConfig) (n n' : ℕ)
      → cfg ≡ cfg'
      → n ≡ n'
      → some (leb cfg.dcs_down_after (streak n outcomes))
        ≡ some (leb cfg'.dcs_down_after (streak n' outcomes))
  same_gate outcomes cfg cfg' n n' e f = rw (e, f)

  record_all_lem :
      (outcomes : List Bool) (p : Publisher c db)
      → 0 < p.cfg.dcs_down_after
      → p.gate ≡ some (leb p.cfg.dcs_down_after p.fail_streak)
      → (record_all outcomes p).gate
        ≡ some (leb p.cfg.dcs_down_after (streak p.fail_streak outcomes))
  unfolding record_all streak
  record_all_lem [] p h e = e
  record_all_lem (true ∷ outcomes) p h e =
      let p' = record_result c db true p in
      let (next, same, count) = record_result_lem true p h e in
      record_all_lem outcomes p' (rw same h) next
      ∙ same_gate outcomes p'.cfg p.cfg p'.fail_streak 0 same count
  record_all_lem (false ∷ outcomes) p h e =
      let p' = record_result c db false p in
      let (next, same, count) = record_result_lem false p h e in
      record_all_lem outcomes p' (rw same h) next
      ∙ same_gate outcomes p'.cfg p.cfg p'.fail_streak (p.fail_streak + 1) same count

  -- After any outcomes of pushes and probes, the gate of a new publisher whose gate is up says
  -- that DCS is down exactly when the failures since the last success are at least as many as
  -- the configured number, which is 3 where none is configured.
  pub record_all-new_publisher :
      (outcomes : List Bool) (q : Queue c db) (cfg : PublisherConfig)
      → (record_all outcomes (new_publisher c db q cfg (some false))).gate
        ≡ some (leb (with_defaults cfg).dcs_down_after (streak 0 outcomes))
  unfolding new_publisher with_defaults
  record_all-new_publisher outcomes q cfg =
      record_all_lem outcomes (new_publisher c db q cfg (some false)) (ground arith) (ground arith)

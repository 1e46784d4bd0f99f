-- ===== src/Recovery/Report.antt =====
-- What the report of hybrid-signer/src/recovery.rs says of the channels.
use mathlib.Core.List.{append_assoc, append-nil}
use decentralized_cc_mesh_po.Base.{
  if◌then◌else◌, length, length-map, ℕ, ◌+◌, ◌≡◌, refl, sym, ap, ◌∙◌, ◌↔◌, Bool, true, false, List,
  [], ◌∷◌, ◌++◌, map, arith, eq_iff,
}
use decentralized_cc_mesh_po.Signer.{software, derive_signer_strategy}
use decentralized_cc_mesh_po.Recovery.{
  ChannelVerificationStatus, verified, pending_sync, degraded, ChannelVerification,
  ChannelRecoveryReport, classify_channel, strategy_name, ChannelData, verification,
  build_recovery_report, report_loop, empty_report,
}

-- How many verifications of a list have a status of each kind.
abbrev pub is_verified : ChannelVerificationStatus → Bool
is_verified verified = true
is_verified _ = false

abbrev pub is_pending : ChannelVerificationStatus → Bool
is_pending pending_sync = true
is_pending _ = false

abbrev pub is_degraded : ChannelVerificationStatus → Bool
is_degraded (degraded reason) = true
is_degraded _ = false

abbrev pub tally : (ChannelVerificationStatus → Bool) → List ChannelVerification → ℕ
tally p [] = 0
tally p (v ∷ vs) = let rest = tally p vs in if p v.status then rest + 1 else rest

tally-append :
    (p : ChannelVerificationStatus → Bool) (us vs : List ChannelVerification)
    → tally p (us ++ vs) ≡ tally p us + tally p vs
tally-append p [] vs = omega arith
tally-append p (u ∷ us) vs = ground (arith, tally-append p us vs)

-- Each counter of a report counts the statuses in its list.
record Counts (r : ChannelRecoveryReport) : Type 0 where
  verified_counted : r.verified_count ≡ tally is_verified r.channels
  pending_counted : r.pending_sync_count ≡ tally is_pending r.channels
  degraded_counted : r.degraded_count ≡ tally is_degraded r.channels

report_loop-Counts :
    (threshold : ℕ) (cs : List ChannelData) (r : ChannelRecoveryReport)
    → Counts r
    → Counts (report_loop threshold cs r)
unfolding report_loop
report_loop-Counts threshold [] r h = h
report_loop-Counts threshold (c ∷ cs) r h = report_loop-Counts threshold cs _ (
    ground (
      arith,
      tally-append is_verified r.channels (verification threshold c ∷ []),
      tally-append is_pending r.channels (verification threshold c ∷ []),
      tally-append is_degraded r.channels (verification threshold c ∷ []),
    ))

report_loop-channels :
    (threshold : ℕ) (cs : List ChannelData) (r : ChannelRecoveryReport)
    → (report_loop threshold cs r).channels ≡ r.channels ++ map (verification threshold) cs
unfolding report_loop
report_loop-channels threshold [] r = sym (append-nil r.channels)
report_loop-channels threshold (c ∷ cs) r =
    report_loop-channels threshold cs _ ∙ append_assoc r.channels (verification threshold c ∷ []) _

report_loop-total :
    (threshold : ℕ) (cs : List ChannelData) (r : ChannelRecoveryReport)
    → (report_loop threshold cs r).total_channels ≡ r.total_channels
unfolding report_loop
report_loop-total threshold [] r = refl
report_loop-total threshold (c ∷ cs) r = report_loop-total threshold cs _ ∙ ground arith

three_kinds :
    (vs : List ChannelVerification)
    → tally is_verified vs + tally is_pending vs + tally is_degraded vs ≡ length vs
three_kinds [] = omega arith
three_kinds (v ∷ vs) = ground (arith, three_kinds vs)

-- The report lists one verification for each channel, in order; each counter is the number of the
-- verifications with its status, and the three of them sum to the number of channels.
pub report_accounts :
    (cs : List ChannelData) (threshold : ℕ)
    → let r = build_recovery_report cs threshold in
      (r.channels ≡ map (verification threshold) cs)
      × (r.verified_count ≡ tally is_verified r.channels)
      × (r.pending_sync_count ≡ tally is_pending r.channels)
      × (r.degraded_count ≡ tally is_degraded r.channels)
      × (r.verified_count + r.pending_sync_count + r.degraded_count ≡ r.total_channels)
      × (r.total_channels ≡ length cs)
unfolding build_recovery_report
report_accounts cs threshold =
    let r = report_loop threshold cs (empty_report (length cs)) in
    let h = report_loop-Counts threshold cs (empty_report (length cs)) (omega arith) in
    let e = report_loop-channels threshold cs (empty_report (length cs)) in
    let t = report_loop-total threshold cs (empty_report (length cs)) in
    (
      e,
      h.verified_counted,
      h.pending_counted,
      h.degraded_counted,
      omega (
        arith,
        h,
        t,
        three_kinds r.channels,
        ap length e,
        length-map cs (verification threshold),
      ),
      t,
    )

-- A channel is verified exactly when it is usable and ready, waits for a sync exactly when it is
-- not ready, and is degraded in the one other case.
pub classify_cases :
    (usable ready : Bool)
    → ((classify_channel usable ready ≡ verified) ↔ ((usable ≡ true) × (ready ≡ true)))
      × ((classify_channel usable ready ≡ pending_sync) ↔ (ready ≡ false))
      × ((is_degraded (classify_channel usable ready) ≡ true) ↔ ((usable ≡ false) × (ready ≡ true)))
unfolding classify_channel
classify_cases usable ready = (
  (λ h. ground arith, λ h. ground arith),
  (λ h. ground arith, λ h. ground arith),
  (λ h. ground arith, λ h. ground arith),
)

-- The strategy that a report expects of a channel is the one that the signer derives for it.
pub strategy_name-hot_iff :
    (value_sats threshold : ℕ)
    → (strategy_name value_sats threshold ≡ "hot")
      ↔ (derive_signer_strategy value_sats threshold ≡ software)
unfolding strategy_name derive_signer_strategy
strategy_name-hot_iff value_sats threshold =
    (λ h. ground (arith, eq_iff "hot" "cold"), λ h. ground arith)

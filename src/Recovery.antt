-- ===== src/Recovery.antt =====
-- hybrid-signer/src/recovery.rs: the check of the channels after a restart. The log lines are left
-- out; the four counters and the list are the variables of one loop.
pub mod Report
mod Tests
use Prim.Native.String.{◌++◌ as str_append}
use decentralized_cc_mesh_po.Base.{
  ltb, if◌then◌else◌, length, u64_saturating_mul, ℕ, ◌+◌, String, Bool, true, false, not, ◌&&◌,
  List, [], ◌∷◌, ◌++◌,
}

pub data ChannelVerificationStatus : Type 0 where
  verified pending_sync : ChannelVerificationStatus
  degraded : String → ChannelVerificationStatus

pub record ChannelVerification : Type 0 where
  pub channel_id : String
  pub counterparty_node_id : String
  pub channel_value_sats : ℕ
  pub expected_strategy : String
  pub is_usable : Bool
  pub is_channel_ready : Bool
  pub status : ChannelVerificationStatus

pub record ChannelRecoveryReport : Type 0 where
  pub total_channels : ℕ
  pub verified_count : ℕ
  pub pending_sync_count : ℕ
  pub degraded_count : ℕ
  pub channels : List ChannelVerification

-- `format!("{}", b)` for a `bool`.
abbrev show_bool : Bool → String
show_bool true = "true"
show_bool false = "false"

degraded_reason : Bool → Bool → String
degraded_reason is_usable is_channel_ready = str_append "Channel ready but not usable (usable=" (
    str_append (show_bool is_usable)
      (str_append ", ready=" (str_append (show_bool is_channel_ready) ")")))

pub classify_channel : Bool → Bool → ChannelVerificationStatus
unfolding degraded_reason
classify_channel is_usable is_channel_ready =
    if is_usable && is_channel_ready
    then verified
    else if not is_channel_ready
    then pending_sync
    else degraded (degraded_reason is_usable is_channel_ready)

pub strategy_name : ℕ → ℕ → String
strategy_name channel_value_sats threshold_msat =
    let channel_value_msat = u64_saturating_mul channel_value_sats 1000 in
    if ltb channel_value_msat threshold_msat then "hot" else "cold"

-- A tuple of the argument `channels`.
pub record ChannelData : Type 0 where
  pub channel_id : String
  pub counterparty : String
  pub value_sats : ℕ
  pub is_usable : Bool
  pub is_channel_ready : Bool

pub verification : ℕ → ChannelData → ChannelVerification
unfolding strategy_name classify_channel
verification threshold_msat c = record {
  channel_id = c.channel_id;
  counterparty_node_id = c.counterparty;
  channel_value_sats = c.value_sats;
  expected_strategy = strategy_name c.value_sats threshold_msat;
  is_usable = c.is_usable;
  is_channel_ready = c.is_channel_ready;
  status = classify_channel c.is_usable c.is_channel_ready;
}

-- The `match &status` of the loop: one of the three counters goes up.
count_status : ChannelVerificationStatus → ChannelRecoveryReport → ChannelRecoveryReport
count_status verified r = record r { verified_count = r.verified_count + 1 }
count_status pending_sync r = record r { pending_sync_count = r.pending_sync_count + 1 }
count_status (degraded reason) r = record r { degraded_count = r.degraded_count + 1 }

report_loop : ℕ → List ChannelData → ChannelRecoveryReport → ChannelRecoveryReport
unfolding count_status
report_loop threshold_msat [] r = r
report_loop threshold_msat (c ∷ cs) r =
    let v = verification threshold_msat c in
    let counted = count_status v.status r in
    report_loop threshold_msat cs (record counted { channels = r.channels ++ v ∷ [] })

empty_report : ℕ → ChannelRecoveryReport
empty_report total = record {
  total_channels = total;
  verified_count = 0;
  pending_sync_count = 0;
  degraded_count = 0;
  channels = [];
}

pub build_recovery_report : List ChannelData → ℕ → ChannelRecoveryReport
unfolding report_loop empty_report
build_recovery_report channels threshold_msat =
    report_loop threshold_msat channels (empty_report (length channels))

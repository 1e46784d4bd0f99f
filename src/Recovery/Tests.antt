-- ===== src/Recovery/Tests.antt =====
-- The report of hybrid-signer/src/recovery.rs for concrete channels.
use decentralized_cc_mesh_po.Base.{◌+◌, ◌≡◌, true, false, List, [], ◌∷◌, map}
use decentralized_cc_mesh_po.Recovery.{ChannelData, verification, build_recovery_report}
use decentralized_cc_mesh_po.Recovery.Report.{
  is_verified, is_pending, is_degraded, tally, report_accounts,
}

abbrev two_channels : List ChannelData
two_channels =
    record {
      channel_id = "ch1";
      counterparty = "peer1";
      value_sats = 100;
      is_usable = true;
      is_channel_ready = true;
    }
    ∷ record {
      channel_id = "ch2";
      counterparty = "peer2";
      value_sats = 50000;
      is_usable = false;
      is_channel_ready = true;
    }
    ∷ []

report_accounts_example :
    let r = build_recovery_report two_channels 1000000 in
    (r.channels ≡ map (verification 1000000) two_channels)
    × (r.verified_count ≡ tally is_verified r.channels)
    × (r.pending_sync_count ≡ tally is_pending r.channels)
    × (r.degraded_count ≡ tally is_degraded r.channels)
    × (r.verified_count + r.pending_sync_count + r.degraded_count ≡ r.total_channels)
    × (r.total_channels ≡ 2)
report_accounts_example = report_accounts two_channels 1000000

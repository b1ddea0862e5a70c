-- ===== src/PeerNetwork/Reports/Incoming/Latest.antt =====
-- A newer report takes the place of the older ones, and an older one none.
use open_chat_be.Prelude.{Bool, Option, String, false, ltb, nat_eq, string_eq, true, ℕ, ◌&&◌, ◌≡◌}
use open_chat_be.Text.{TextOrder}
use open_chat_be.Sync.Tables.{ServerNode, ServerScoreReport, node_row}
use open_chat_be.Sync.Database.{RowTable}
use open_chat_be.PeerNetwork.Reports.{ReportTable, ServerScoreReportPayload, ScoreWorld}
use open_chat_be.PeerNetwork.Reports.Aggregates.{AggregateTable}
use open_chat_be.PeerNetwork.Reports.Incoming.{
  is_of_pair, is_live_of_pair, is_same, is_newer_than, written_report,
}

module _ {D A N : Type 0} (order : TextOrder) (world : ScoreWorld) (reports : ReportTable D)
    (aggregates : AggregateTable A) (nodes : RowTable order N ServerNode node_row)
    (score_default_max_report_age_seconds : ℕ) (is_peer_directly_connected : String → Bool) where
  abbrev of_pair : ServerScoreReportPayload → ServerScoreReport → Bool
  of_pair report r =
      is_of_pair order world reports aggregates nodes score_default_max_report_age_seconds
        is_peer_directly_connected report r

  abbrev live : ℕ → ServerScoreReportPayload → ServerScoreReport → Bool
  live now report r =
      is_live_of_pair order world reports aggregates nodes score_default_max_report_age_seconds
        is_peer_directly_connected now report r

  abbrev same : ServerScoreReportPayload → ℕ → ServerScoreReport → Bool
  same report observed_at r =
      is_same order world reports aggregates nodes score_default_max_report_age_seconds
        is_peer_directly_connected report observed_at r

  abbrev newer : ℕ → Option ServerScoreReport → Bool
  newer observed_at o =
      is_newer_than order world reports aggregates nodes score_default_max_report_age_seconds
        is_peer_directly_connected observed_at o

  abbrev written :
      ℕ → String → ServerScoreReportPayload → ℕ → ℕ → Option ServerScoreReport → ServerScoreReport
  written now new_id report observed_at expires_at o =
      written_report order world reports aggregates nodes score_default_max_report_age_seconds
        is_peer_directly_connected now new_id report observed_at expires_at o

  abbrev superseded : ℕ → ServerScoreReportPayload → ℕ → ServerScoreReport → Bool
  superseded now report observed_at r =
      ltb now r.expires_at && ltb r.observed_at observed_at && of_pair report r

  -- The report of the two servers that counts is this one.
  abbrev pub IsThis : ServerScoreReportPayload → ℕ → ℕ → ServerScoreReport → Type 0
  IsThis report observed_at expires_at r =
      (r.observed_at ≡ observed_at)
      × (r.expires_at ≡ expires_at)
      × (r.score ≡ report.score)
      × (r.signature ≡ report.signature)

  -- What is left of the pair after the older rows are deleted.
  abbrev Counts : ℕ → ServerScoreReportPayload → ℕ → ℕ → ServerScoreReport → Type 0
  Counts now report observed_at expires_at r =
      live now report r ≡ true
      → superseded now report observed_at r ≡ false
      → IsThis report observed_at expires_at r

  abbrev upserted : ℕ → String → ServerScoreReportPayload → ℕ → ℕ → D → D
  upserted now new_id report observed_at expires_at d =
      reports.upsert (same report observed_at) (written now new_id report observed_at expires_at) d

  abbrev kept : ℕ → String → ServerScoreReportPayload → ℕ → ℕ → D → D
  kept now new_id report observed_at expires_at d =
      reports.delete_many (superseded now report observed_at)
        (upserted now new_id report observed_at expires_at d)

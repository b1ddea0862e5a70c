-- ===== src/PeerNetwork/Reports/Incoming/Accepted.antt =====
-- Which reports are kept.
use open_chat_be.Prelude.{
  Bool, Bool-cases, Option, String, arith, false, inl, inr, nat_eq, none, refl, some, string_eq,
  true, ℕ, ◌*◌, ◌+◌, ◌<◌, ◌≡◌, ◌≤◌, ◌⊎◌,
}
use open_chat_be.Results.{Exception, Result, ok, err}
use open_chat_be.Text.{TextOrder}
use open_chat_be.Sync.Tables.{ServerNode, node_row}
use open_chat_be.Sync.Database.{RowTable}
use open_chat_be.PeerNetwork.Reports.{
  ReportTable, ServerScoreReportPayload, ScoreWorld, verify_server_score_signature,
}
use open_chat_be.PeerNetwork.Reports.Aggregates.{AggregateTable}
use open_chat_be.PeerNetwork.Reports.Incoming.{
  ScoreTables, ReportOutcome, rejected, CheckedReport, refused, passed, check_report, is_other_key,
  handle_incoming_server_score_report,
}

Checked-cases :
    (r : Result CheckedReport)
    → ((e : Exception) × (r ≡ err e))
      ⊎ ((reason : String) × (r ≡ ok (refused reason)))
      ⊎ ((o : ℕ) × (e : ℕ) × (r ≡ ok (passed o e)))
Checked-cases (err e) = inl (e, refl)
Checked-cases (ok (refused reason)) = inr (inl (reason, refl))
Checked-cases (ok (passed o e)) = inr (inr (o, e, refl))

module _ {D A N : Type 0} (order : TextOrder) (world : ScoreWorld) (reports : ReportTable D)
    (aggregates : AggregateTable A) (nodes : RowTable order N ServerNode node_row)
    (score_default_max_report_age_seconds : ℕ) (is_peer_directly_connected : String → Bool) where
  -- The dates hold now, the key is no other than the known one, and the signature is right.
  abbrev pub IsTrusted : ℕ → ServerScoreReportPayload → N → Type 0
  IsTrusted now report n =
      (observed_at : ℕ) × (expires_at : ℕ) × (world.parse_date report.observed_at
        ≡ some observed_at)
      × (world.parse_date report.expires_at ≡ some expires_at)
      × (now < expires_at)
      × (now ≤ observed_at + score_default_max_report_age_seconds * 1000)
      × (is_other_key order world reports aggregates nodes score_default_max_report_age_seconds
            is_peer_directly_connected report (nodes.find_unique report.reporter_peer_id n)
          ≡ false)
      × (verify_server_score_signature world report ≡ ok true)

  abbrev check : ℕ → ServerScoreReportPayload → N → Option ℕ → Option ℕ → Result CheckedReport
  check now report n observed expires =
      check_report order world reports aggregates nodes score_default_max_report_age_seconds
        is_peer_directly_connected now report n observed expires

  check_report-IsTrusted :
      (now : ℕ) (report : ServerScoreReportPayload) (n : N) (observed expires : Option ℕ) (o e : ℕ)
      → world.parse_date report.observed_at ≡ observed
      → world.parse_date report.expires_at ≡ expires
      → check now report n observed expires ≡ ok (passed o e)
      → IsTrusted now report n
  unfolding check_report
  check_report-IsTrusted now report n none expires o e p q h = absurd cc
  check_report-IsTrusted now report n (some a) none o e p q h = absurd cc
  check_report-IsTrusted now report n (some a) (some b) o e p q h =
      (a, b, p, q, ground (arith, h), ground (arith, h), ground (arith, h), ground (arith, h))

  -- A report that is refused changes nothing; any other comes from a connected server, holds now,
  -- and is signed with the known key of its reporter, if there is one.
  pub handle_incoming_server_score_report-IsTrusted :
      (now : ℕ) (new_id : String) (report : ServerScoreReportPayload) (sender : String)
      (t t' : ScoreTables D A N) (outcome : ReportOutcome)
      → handle_incoming_server_score_report order world reports aggregates nodes
          score_default_max_report_age_seconds is_peer_directly_connected now new_id report sender t
        ≡ ok (outcome, t')
      → ((reason : String) × (outcome ≡ rejected reason) × (t' ≡ t))
        ⊎ ((is_peer_directly_connected sender ≡ true) × IsTrusted now report t.nodes)
  unfolding handle_incoming_server_score_report
  handle_incoming_server_score_report-IsTrusted now new_id report sender t t' outcome h =
      let checked =
        check now report t.nodes (world.parse_date report.observed_at)
          (world.parse_date report.expires_at) in
      elim (Bool-cases (is_peer_directly_connected sender)) [
        | inr absent ↦ inl (
          "Score gossip sender is not currently a direct peer.",
          ground (arith, h, absent),
          ground (arith, h, absent),
        )
        | inl there ↦ elim (Checked-cases checked) [
          | inl (e, thrown) ↦ absurd (ground (arith, h, there, thrown))
          | inr (inl (reason, bad)) ↦
              inl (reason, ground (arith, h, there, bad), ground (arith, h, there, bad))
          | inr (inr (o, e, good)) ↦
              inr (there, check_report-IsTrusted now report t.nodes _ _ o e refl refl good)
        ]
      ]
